-- ===== src/Roulette/Taken.antt =====
-- A pickup that takes, from the touch to the end, and the hits of a curse.
use qlsm_extra.Base.{
  ℕ, ◌-◌, ◌≤◌, ◌≡◌, Bool, true, false, not, ◌&&◌, ◌||◌, Option, none, some, arith, ltb,
}
use qlsm_extra.Base.Text.{Text, codes, starts_with}
use qlsm_extra.Roulette.Plan.{Outcome, plan_amount, at, flag_at}
use qlsm_extra.Roulette.State.{Player, Roulette, ItemType, curse_kind}
use qlsm_extra.Roulette.Pickup.{is_kind}

plan_amount-takes :
    (pre most least : ℕ) (stock give take : Option ℕ)
    → least ≤ pre
    → (n : ℕ) → plan_amount pre stock give take Outcome.takes most least ≡ some n
    → n ≤ pre
unfolding plan_amount
plan_amount-takes pre most least stock give none o n e = ground (arith, e)
plan_amount-takes pre most least stock give (some take) o n e = ground (arith, e, o)

-- Whether a player is no better off by an item of a type after the pickup than before the touch.
abbrev pub NoBetter : ItemType → ℕ → Player → Player → Type 0
NoBetter ItemType.armor tag before after = after.armor ≤ before.armor
NoBetter ItemType.health tag before after = after.health ≤ before.health
NoBetter ItemType.weapon tag before after =
    (flag_at after.weapons (tag - 1) ≡ false) × (after.ammo ≡ before.ammo)
NoBetter ItemType.ammo tag before after = at after.ammo (tag - 1) ≤ at before.ammo (tag - 1)
NoBetter ItemType.powerup tag before after = after.powerups ≡ before.powerups
NoBetter ItemType.other tag before after = Unit

abbrev pub is_armed : Text → Bool
is_armed classname =
    starts_with (codes "weapon_") classname || starts_with (codes "ammo_") classname

-- Whether the name of an entity is one of an item of a type, with the number of a weapon.
abbrev pub fits : ItemType → Text → ℕ → Bool
fits ItemType.weapon classname tag = is_armed classname && (ltb 0 tag && ltb (tag - 1) 15)
fits ItemType.ammo classname tag = is_armed classname && (ltb 0 tag && ltb (tag - 1) 15)
fits ItemType.powerup classname tag = not (is_armed classname) && is_kind (curse_kind classname)
fits _ classname tag = true
