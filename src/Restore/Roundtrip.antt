-- ===== src/Restore/Roundtrip.antt =====
-- From a pickup to its restored item.
use qlsm_extra.Base.{ℕ, ◌+◌, ◌≡◌, ◌≢◌, some, arith, ltb, if◌then◌else◌}
use qlsm_extra.Base.Dict.{Dict, lookup, lookup-insert}
use qlsm_extra.Base.Text.{Text}
use qlsm_extra.Restore.{
  Pickup, vanilla_respawn, remaining, export_item_row, note_item_pickup, plan_item_visible,
}

-- An item that was picked up at a time is noted, exported into a checkpoint and planned again: it
-- comes back at the time at which it would have in the match, or at once when that is at most 50 ms
-- away or past.
pub note-export-plan :
    (round2 : ℕ → ℕ) (name map_key : Text) (slot at now : ℕ) (pickups : Dict Pickup)
    → at ≢ 0
    → plan_item_visible
        (export_item_row round2 name map_key now (lookup slot (note_item_pickup slot at pickups)))
        now
      ≡ some (
          if ltb (now + 50) (at + vanilla_respawn name map_key)
          then at + vanilla_respawn name map_key
          else now)
unfolding plan_item_visible export_item_row remaining note_item_pickup
note-export-plan round2 name map_key slot at now pickups h =
    ground (arith, lookup-insert slot slot (record { pickup_ms = at; respawn_ms = 0 }) pickups)
