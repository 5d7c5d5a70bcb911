-- ===== src/Restore.antt =====
-- Items of a restored match: restore/items.py, with times in milliseconds on the clock of the match; the
-- modules below are about the checkpoint rows of restore/codec.py too.
pub mod Loadout
pub mod Owned
pub mod Drops
pub mod Roundtrip
mod Tests
use qlsm_extra.Base.{
  ℕ, ◌+◌, ◌-◌, Bool, true, false, ◌&&◌, ◌||◌, Option, none, some, List, [], ◌∷◌, ltb, ◌==◌,
  if◌then◌else◌,
}
use qlsm_extra.Base.Dict.{Dict, insert, erase}
use qlsm_extra.Base.Text.{Text, codes, text_eq, starts_with}

is_powerup : Text → Bool
is_powerup name =
    text_eq name (codes "item_quad")
    || text_eq name (codes "item_regen")
    || text_eq name (codes "item_haste")
    || text_eq name (codes "item_enviro")
    || text_eq name (codes "item_invis")
    || text_eq name (codes "item_invisibility")
    || text_eq name (codes "item_invulnerability")
    || text_eq name (codes "item_flight")

-- `vanilla_respawn_sec`, in milliseconds.
unfoldable pub vanilla_respawn : Text → Text → ℕ
unfolding is_powerup
vanilla_respawn name map_key =
    if starts_with (codes "weapon_") name
    then 5000
    else if text_eq name (codes "item_health_mega")
    then (if text_eq map_key (codes "proq3tourney4") then 120000 else 35000)
    else if starts_with (codes "item_armor") name
    then 25000
    else if starts_with (codes "ammo_") name
    then 40000
    else if is_powerup name
    then 120000
    else if starts_with (codes "item_health") name
    then 35000
    else if starts_with (codes "item_") name
    then 120000
    else 35000

-- A bundled pickup: a missing `pickup_ms` is 0, and so is a missing `respawn_sec`.
pub record Pickup : Type 0 where
  pub pickup_ms : ℕ
  pub respawn_ms : ℕ

-- A row of items[] with the keys "s", "in" (0 without it) and "at_ms".
pub record ItemRow : Type 0 where
  pub state : ℕ
  pub in_ms : ℕ
  pub at_ms : Option ℕ

abbrev pub shown : ItemRow
shown = record { state = 1; in_ms = 0; at_ms = none }

-- `remain_sec` and `visible_at_ms` after both tests.
unfoldable pub remaining : ℕ → ℕ → ℕ → Option (ℕ × ℕ)
remaining pickup_ms respawn now =
    let visible = pickup_ms + respawn in
    let left = respawn - (now - pickup_ms) in
    if ltb 0 pickup_ms && ltb now visible
    then some (visible - now, visible)
    else if ltb 0 now && (ltb 0 pickup_ms && ltb 50 left)
    then some (left, now + left)
    else none

-- `export_item_row`; `round2` is `round(x, 2)` of a number of seconds.
unfoldable pub export_item_row : (ℕ → ℕ) → Text → Text → ℕ → Option Pickup → ItemRow
export_item_row round2 classname map_key now none = shown
export_item_row round2 classname map_key now (some bundled) =
    let respawn =
      if bundled.respawn_ms == 0 then vanilla_respawn classname map_key else bundled.respawn_ms in
    elim (remaining bundled.pickup_ms respawn now) [
      | none ↦ shown
      | some (remain, visible) ↦
          if ltb 50 remain
          then record { state = 2; in_ms = round2 remain; at_ms = some visible }
          else shown
    ]

-- `note_item_pickup`; a clock that does not run is 0.
unfoldable pub note_item_pickup : ℕ → ℕ → Dict Pickup → Dict Pickup
note_item_pickup slot match_ms pickups =
    if match_ms == 0
    then erase slot pickups
    else insert slot (record { pickup_ms = match_ms; respawn_ms = 0 }) pickups

-- `plan_item_visible_at_ms`
unfoldable pub plan_item_visible : ItemRow → ℕ → Option ℕ
plan_item_visible item now =
    if item.state == 0
    then none
    else if item.state == 1
    then some now
    else if item.state == 2
    then elim item.at_ms [
      | some visible ↦ some (if ltb now visible then visible else now)
      | none ↦ if ltb 0 item.in_ms then some (now + item.in_ms) else none
    ]
    else none
