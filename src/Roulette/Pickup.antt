-- ===== src/Roulette/Pickup.antt =====
-- The touch and the pickup of an item: `handle_item_touch`, `handle_item_pickup` and the `_apply`
-- methods of `class item_roulette`. Messages are left out.
use qlsm_extra.Base.{
  ℕ, ◌+◌, ◌-◌, ◌*◌, Bool, true, false, not, ◌&&◌, ◌||◌, Option, none, some, List, [], ◌∷◌, ltb,
  ◌==◌, if◌then◌else◌, max,
}
use qlsm_extra.Base.Dict.{lookup, insert, erase}
use qlsm_extra.Base.Text.{Text, codes, text_eq, starts_with}
use qlsm_extra.Roulette.Table.{find, or_else}
use qlsm_extra.Roulette.Rules.{rule_for}
use qlsm_extra.Roulette.Plan.{
  Outcome, roll_take, plan_amount, plan_ammo, plan_weapon, best_weapon, armor_max,
}
use qlsm_extra.Roulette.State.{
  Player, Kind, hurts, Snap, Curse, Roulette, Settings, ItemType, Item, armor_keys, health_keys,
  curse_kind, hook_damage,
}

abbrev pub is_empty : Text → Bool
is_empty [] = true
is_empty (_ ∷ _) = false

abbrev pub is_kind : Option Kind → Bool
is_kind none = false
is_kind (some kind) = true

-- The snapshot, for a roll of `rnd` in units of 1/n.
unfoldable pub snapshot : Settings → ℕ → ℕ → Player → Text → ℕ → Snap
snapshot cfg n rnd player classname modelindex =
    let arms = starts_with (codes "weapon_") classname || starts_with (codes "ammo_") classname in
    record {
      classname = classname;
      modelindex = modelindex;
      take = roll_take cfg.chance n rnd;
      health = player.health;
      armor = player.armor;
      arms = if arms then some (player.weapons, player.ammo) else none;
      powerups = if not arms && is_kind (curse_kind classname) then some player.powerups else none;
    }

-- `handle_item_touch`; `seen` is none when the player or the entity cannot be read.
unfoldable pub handle_item_touch :
    Settings → ℕ → ℕ → ℕ → Option (Player × Text × ℕ) → Roulette → Roulette
handle_item_touch cfg n rnd id none s = s
handle_item_touch cfg n rnd id (some (player, classname, modelindex)) s =
    if not cfg.enabled || is_empty classname
    then s
    else record s { touch = insert id (snapshot cfg n rnd player classname modelindex) s.touch }

abbrev set_armor : Option ℕ → Player → Player
set_armor none player = player
set_armor (some new) player = record player { armor = new }

abbrev set_health : Option ℕ → Player → Player
set_health none player = player
set_health (some new) player = record player { health = new }

abbrev set_ammo : Option (List ℕ) → Player → Player
set_ammo none player = player
set_ammo (some new) player = record player { ammo = new }

-- `_apply_armor`
unfoldable pub apply_armor : Settings → Snap → ℕ → Outcome → Player → Player
apply_armor cfg snap stock outcome player =
    let (give, take) = rule_for cfg.armor (or_else [] (find snap.classname armor_keys)) in
    set_armor (plan_amount snap.armor (some stock) give take outcome armor_max 0) player

-- `health_cap`
unfoldable pub health_cap : Text → ℕ
health_cap classname =
    if text_eq classname (codes "item_health_small") || text_eq classname (codes "item_health_mega")
    then 200
    else 100

-- `_apply_health`
unfoldable pub apply_health : Settings → Snap → ℕ → Outcome → Player → Player
apply_health cfg snap stock outcome player =
    let (give, take) = rule_for cfg.health (or_else [] (find snap.classname health_keys)) in
    set_health
      (plan_amount snap.health (some stock) give take outcome (health_cap snap.classname) 1) player

-- WEAPON_FIELDS
unfoldable pub weapon_fields : List Text
weapon_fields =
    codes "g"
    ∷ codes "mg"
    ∷ codes "sg"
    ∷ codes "gl"
    ∷ codes "rl"
    ∷ codes "lg"
    ∷ codes "rg"
    ∷ codes "pg"
    ∷ codes "bfg"
    ∷ codes "gh"
    ∷ codes "ng"
    ∷ codes "pl"
    ∷ codes "cg"
    ∷ codes "hmg"
    ∷ codes "hands"
    ∷ []

abbrev pub name_at : List Text → ℕ → Text
name_at [] i = []
name_at (t ∷ ts) i = if i == 0 then t else name_at ts (i - 1)

-- `_weapon_index`
unfoldable pub weapon_index : ℕ → Option ℕ
weapon_index gi_tag = if ltb 0 gi_tag && ltb (gi_tag - 1) 15 then some (gi_tag - 1) else none

-- The weapons that are left, and the weapon in hand, when one is taken.
abbrev disarm : ℕ → ℕ → Option (List Bool) → Option (List ℕ) → Player → Player
disarm gi_tag i (some weapons) (some ammo) player = record player {
  weapons = weapons;
  weapon = if player.weapon == gi_tag then best_weapon weapons ammo i + 1 else player.weapon;
}
disarm gi_tag i _ _ player = player

-- `_apply_weapon`
unfoldable pub apply_weapon : Settings → List Bool → List ℕ → ℕ → Outcome → Player → Player
apply_weapon cfg weapons ammo gi_tag outcome player = elim (weapon_index gi_tag) [
  | none ↦ player
  | some i ↦
      let (give, _) = rule_for cfg.weapons (name_at weapon_fields i) in
      let (new_weapons, new_ammo, _) = plan_weapon weapons ammo i give outcome in
      disarm gi_tag i new_weapons new_ammo (set_ammo new_ammo player)
]

-- `_apply_ammo`
unfoldable pub apply_ammo : Settings → List ℕ → ℕ → Outcome → Player → Player
apply_ammo cfg ammo gi_tag outcome player = elim (weapon_index gi_tag) [
  | none ↦ player
  | some i ↦
      let (give, take) = rule_for cfg.ammo (name_at weapon_fields i) in
      set_ammo (plan_ammo ammo i give take outcome) player
]

abbrev pub curse_of : Settings → ℕ → ℕ → Kind → Curse
curse_of cfg now stock kind = record {
  kind = kind;
  until = now + max 1 stock * 1000;
  factor = cfg.factor_of kind;
}

-- A curse is laid on a player; "haste" and an unknown item are only denied.
unfoldable pub lay_curse : Settings → ℕ → ℕ → ℕ → Option Kind → Roulette → Roulette
lay_curse cfg now id stock none s = s
lay_curse cfg now id stock (some Kind.haste) s = s
lay_curse cfg now id stock (some kind) s =
    let cursed = record s { curses = insert id (curse_of cfg now stock kind) s.curses } in
    if hurts kind then hook_damage cfg.can_hook cursed else cursed

-- `_apply_powerup`
unfoldable pub apply_powerup :
    Settings → ℕ → ℕ → Text → List ℕ → ℕ → Outcome → Roulette × Player → Roulette × Player
apply_powerup cfg now id classname powerups stock Outcome.gives (s, player) = (s, player)
apply_powerup cfg now id classname powerups stock Outcome.takes (s, player) =
    (lay_curse cfg now id stock (curse_kind classname) s, record player { powerups = powerups })

-- A change for a snapshot that has the weapons and the ammo.
abbrev on_arms : (List Bool → List ℕ → Player) → Player → Option (List Bool × List ℕ) → Player
on_arms change player none = player
on_arms change player (some (weapons, ammo)) = change weapons ammo

-- The rest of `handle_item_pickup`, for the item.
unfoldable pub apply : Settings → ℕ → ℕ → Snap → Item → Roulette × Player → Roulette × Player
apply cfg now id snap item (s, player) =
    let outcome = if snap.take then Outcome.takes else Outcome.gives in
    elim item.gi_type [
      | ItemType.armor ↦ (s, apply_armor cfg snap item.quantity outcome player)
      | ItemType.health ↦ (s, apply_health cfg snap item.quantity outcome player)
      | ItemType.weapon ↦ (
        s,
        on_arms (λ weapons ammo. apply_weapon cfg weapons ammo item.gi_tag outcome player) player
            snap.arms,
      )
      | ItemType.ammo ↦ (
        s,
        on_arms (λ weapons ammo. apply_ammo cfg ammo item.gi_tag outcome player) player snap.arms,
      )
      | ItemType.powerup ↦ elim snap.powerups [
        | none ↦ (s, player)
        | some powerups ↦
            apply_powerup cfg now id snap.classname powerups item.quantity outcome (s, player)
      ]
      | ItemType.other ↦ (s, player)
    ]

-- `handle_item_pickup`; `item_of` reads the item of a model index, or fails.
unfoldable pub handle_item_pickup :
    Settings → ℕ → ℕ → (ℕ → Option Item) → Roulette × Player → Roulette × Player
handle_item_pickup cfg now id item_of (s, player) =
    let popped = record s { touch = erase id s.touch } in
    elim (lookup id s.touch) [
      | none ↦ (popped, player)
      | some snap ↦ if not cfg.enabled then (popped, player) else elim (item_of snap.modelindex) [
        | none ↦ (popped, player)
        | some item ↦ apply cfg now id snap item (popped, player)
      ]
    ]
