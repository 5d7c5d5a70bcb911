-- ===== src/Roulette/Hits.antt =====
-- The corrections of health and armor after a hit: `quad_refund`, `battlesuit_extra` and `handle_damage`.
use qlsm_extra.Base.{
  ℕ, ◌+◌, ◌-◌, ◌*◌, ◌/◌, ◌≤◌, ◌≡◌, true, Option, none, some, arith, leb, if◌then◌else◌, max,
}
use qlsm_extra.Roulette.Plan.{Factor, quad_refund, battlesuit_extra, armor_max}
use qlsm_extra.Roulette.State.{Player, Roulette}
use qlsm_extra.Roulette.Curses.{handle_damage, refund, hurt, active_curse, quad_of, is_battlesuit}

-- The refund of a hit by a cursed quad (a damage of at least 1, a factor below 1) is the damage that the
-- factor takes away, no more and no less; with armor left, two thirds of it are armor, rounded down.
pub quad_refund-split :
    (damage armor : ℕ) (factor : Factor)
    → 1 ≤ damage
    → factor.is_less ≡ true
    → let (a, h) = quad_refund damage factor armor in
      (a + h ≡ factor.less damage) × (a ≡ (if leb armor 0 then 0 else factor.less damage * 2 / 3))
unfolding quad_refund
quad_refund-split damage armor factor o f = ground (arith, o, f)

-- A hit on a cursed battle suit (a damage of at least 1, a factor above 1, a player who lives) costs the extra
-- damage: of the armor first, and of armor and health together all of it, but for the last point of health.
pub battlesuit_extra-loss :
    (damage armor health : ℕ) (factor : Factor)
    → 1 ≤ damage
    → factor.is_more ≡ true
    → 1 ≤ health
    → let (a, h) = battlesuit_extra damage factor armor health in
      (a ≡ armor - factor.more damage) × (a + h ≡ max 1 (armor + health - factor.more damage))
unfolding battlesuit_extra
battlesuit_extra-loss damage armor health factor o f l = ground (arith, o, f, l)

refund-lives :
    (damage : ℕ) (factor : Option Factor) (target : Player)
    → (1 ≤ target.health → 1 ≤ (refund damage factor target).health)
      × (target.armor ≤ armor_max → (refund damage factor target).armor ≤ armor_max)
unfolding refund
refund-lives damage none target = ground arith
refund-lives damage (some factor) target = ground arith

hurt-lives :
    (damage : ℕ) (factor : Option Factor) (target : Player)
    → (1 ≤ target.health → 1 ≤ (hurt damage factor target).health)
      × ((hurt damage factor target).armor ≤ target.armor)
unfolding hurt battlesuit_extra
hurt-lives damage none target = ground arith
hurt-lives damage (some factor) target = ground arith

-- Whatever curses there are, the correction of a hit leaves a player who survived it alive, and armor
-- within its limit.
pub handle_damage-lives :
    (now damage id : ℕ) (attacker : Option ℕ) (s : Roulette) (target : Player)
    → 1 ≤ target.health
    → target.armor ≤ armor_max
    → let after = handle_damage now damage id attacker s target in
      (1 ≤ after.health) × (after.armor ≤ armor_max)
unfolding handle_damage
handle_damage-lives now damage id attacker s target l o =
    let r = refund damage (quad_of now attacker id s) target in
    ground (
      arith,
      l,
      o,
      refund-lives damage (quad_of now attacker id s) target,
      hurt-lives damage (active_curse is_battlesuit id now s) r,
    )
