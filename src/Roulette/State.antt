-- ===== src/Roulette/State.antt =====
-- What `class item_roulette` keeps, and the players, items and settings that its hooks are given.
use qlsm_extra.Base.{ℕ, Bool, true, false, ◌||◌, Option, List, [], ◌∷◌}
use qlsm_extra.Base.Dict.{Dict, erase}
use qlsm_extra.Base.Text.{Text, codes}
use qlsm_extra.Roulette.Table.{Table, find}
use qlsm_extra.Roulette.Rules.{Rule}
use qlsm_extra.Roulette.Plan.{Factor}

-- A player's health is at least 0 here; `weapons` and `ammo` have a place for each of WEAPON_FIELDS.
pub record Player : Type 0 where
  pub health : ℕ
  pub armor : ℕ
  pub weapons : List Bool
  pub ammo : List ℕ
  pub weapon : ℕ
  pub powerups : List ℕ

-- The kinds of CURSE_KINDS.
pub data Kind : Type 0 where
  quad battlesuit invisibility regeneration haste : Kind

abbrev pub hurts : Kind → Bool
hurts Kind.quad = true
hurts Kind.battlesuit = true
hurts _ = false

-- The snapshot of a touch.
pub record Snap : Type 0 where
  pub classname : Text
  pub modelindex : ℕ
  pub take : Bool
  pub health : ℕ
  pub armor : ℕ
  pub arms : Option (List Bool × List ℕ)
  pub powerups : Option (List ℕ)

-- `factor` is None for an invisibility.
pub record Curse : Type 0 where
  pub kind : Kind
  pub until : ℕ
  pub factor : Option Factor

pub record Roulette : Type 0 where
  pub touch : Dict Snap
  pub curses : Dict Curse
  pub damage_hooked : Bool
  pub next_drain : ℕ

-- `__init__`
abbrev pub at_first : Roulette
at_first = record { touch = []; curses = []; damage_hooked = false; next_drain = 0 }

-- The cvars as they are read, `_factor`, and whether the runtime has a "damage" event.
pub record Settings : Type 0 where
  pub enabled : Bool
  pub chance : ℕ
  pub armor : Table Rule
  pub health : Table Rule
  pub weapons : Table Rule
  pub ammo : Table Rule
  pub factor_of : Kind → Option Factor
  pub can_hook : Bool

-- itemType_t; `other` is any other number.
pub data ItemType : Type 0 where
  weapon ammo armor health powerup other : ItemType

-- `minqlx.Item(modelindex)`
pub record Item : Type 0 where
  pub gi_type : ItemType
  pub gi_tag : ℕ
  pub quantity : ℕ

-- ARMOR_KEYS, HEALTH_KEYS and CURSE_KINDS
unfoldable pub armor_keys : Table Text
armor_keys =
    (codes "item_armor_shard", codes "shard")
    ∷ (codes "item_armor_jacket", codes "ga")
    ∷ (codes "item_armor_combat", codes "ya")
    ∷ (codes "item_armor_body", codes "ra")
    ∷ []

unfoldable pub health_keys : Table Text
health_keys =
    (codes "item_health_small", codes "5")
    ∷ (codes "item_health", codes "25")
    ∷ (codes "item_health_large", codes "50")
    ∷ (codes "item_health_mega", codes "mega")
    ∷ []

unfoldable pub curse_kinds : Table Kind
curse_kinds =
    (codes "item_quad", Kind.quad)
    ∷ (codes "item_enviro", Kind.battlesuit)
    ∷ (codes "item_invis", Kind.invisibility)
    ∷ (codes "item_invisibility", Kind.invisibility)
    ∷ (codes "item_regen", Kind.regeneration)
    ∷ (codes "item_haste", Kind.haste)
    ∷ []

-- `curse_kind`
abbrev pub curse_kind : Text → Option Kind
curse_kind classname = find classname curse_kinds

-- `_hook_damage`, `_unhook_damage` and `_drop_curse`
abbrev pub hook_damage : Bool → Roulette → Roulette
hook_damage can_hook s = record s { damage_hooked = s.damage_hooked || can_hook }

abbrev pub unhook_damage : Roulette → Roulette
unhook_damage s = record s { damage_hooked = false }

abbrev pub drop_curse : ℕ → Roulette → Roulette
drop_curse id s = record s { curses = erase id s.curses }
