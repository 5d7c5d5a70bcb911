-- ===== src/ResyncHold/Tests.antt =====
-- Runs of the resync hold, and the theorems at states it reaches.
use qlsm_extra.Base.{
  ℕ, ◌≤◌, ◌≡◌, refl, Bool, true, false, Option, none, some, List, [], ◌∷◌, arith, max, ltb,
}
use qlsm_extra.Base.Dict.{lookup}
use qlsm_extra.Base.Int.{pos}
use qlsm_extra.Base.Text.{codes, strip}
use qlsm_extra.ResyncHold.{
  Hold, Client, Status, SlotStatus, init, note_flags, current_from, note_flag, count_resyncs,
  cleared_of, drop_stale, note_link, relay_behind, clear_flags, visit_all, visit, lose_client,
  ask_keyframe, ask_keyframes, candidates_of, check_slot, clear_flag, clients_from, drop_waits,
  insert_by_age, keep_client, seen_slot, sort_by_age, ask, new_slot, why_order, drop_slot,
  drop_slots, end_counts, end_slot, reset,
}
use qlsm_extra.ResyncHold.Frame.{
  frame, frame_on, hold_part, watch_part, ask_part, ask_unexplained, apply_verdict, insert_by_turn,
  queue_of, run_hold, run_holds, start_hold, start_holds, try_start, verdict,
}
use qlsm_extra.ResyncHold.Count.{holds, IsSound}
use qlsm_extra.ResyncHold.Young.{young}
use qlsm_extra.ResyncHold.Laws.{frame-IsSound, frame-holds, frame-behind, frame-young}
use qlsm_extra.Pause.Commands.{lower}
use qlsm_extra.ResyncHold.Config.{cvar_on}
use qlsm_extra.ResyncHold.Plugin.{
  Plugin, Cvars, CvarRead, StatusRead, start, handle_frame, conclude, attempt, act, poll, fail,
  read_cvars,
}
use qlsm_extra.ResyncHold.Intact.{IsValid}
use qlsm_extra.ResyncHold.Events.{
  Event, run_events, all_intact, run_events-IsValid, handle_frame-retries,
}

-- Three players; the third is not in the game.
abbrev client_of : ℕ → Option Client
client_of slot = some (record {
  is_active = ltb slot 2;
  asks_full = false;
  message_acknowledge = 90;
  outgoing_sequence = 100;
  unsent_fragments = false;
})

abbrev slot_status : ℕ → Bool → SlotStatus
slot_status slot resyncing = record { slot = slot; active = true; resyncing = resyncing; gen = 7 }

abbrev status : ℕ → Status
status lag = record {
  enabled = true;
  connected = true;
  resyncs = 3;
  lag = lag;
  pending = 0;
  dropped = 0;
  slots = slot_status 0 true ∷ slot_status 1 false ∷ slot_status 2 false ∷ [];
}

-- After the first frame: one hold of the two that first sight asks for.
abbrev seen : Hold
seen = (frame (some (status 0)) client_of 8 1000 10 1 init).0

seen_started : seen.counts.started ≡ 1
unfolding frame frame_on hold_part watch_part ask_part ask_unexplained apply_verdict insert_by_turn
    queue_of run_hold run_holds start_hold start_holds try_start verdict note_flags current_from
    note_flag count_resyncs cleared_of drop_stale note_link relay_behind clear_flags visit_all visit
    lose_client ask_keyframe ask_keyframes candidates_of check_slot clear_flag clients_from
    drop_waits insert_by_age keep_client seen_slot sort_by_age ask new_slot why_order drop_slot
    drop_slots end_counts end_slot reset init
seen_started = refl

seen_holds : holds seen.slots ≡ 1
unfolding holds frame frame_on hold_part watch_part ask_part ask_unexplained apply_verdict
    insert_by_turn queue_of run_hold run_holds start_hold start_holds try_start verdict note_flags
    current_from note_flag count_resyncs cleared_of drop_stale note_link relay_behind clear_flags
    visit_all visit lose_client ask_keyframe ask_keyframes candidates_of check_slot clear_flag
    clients_from drop_waits insert_by_age keep_client seen_slot sort_by_age ask new_slot why_order
    drop_slot drop_slots end_counts end_slot reset init
seen_holds = refl

init-IsSound : IsSound init.counts init.slots
unfolding init holds
init-IsSound = record { distinct = tt; quiet = tt; balance = refl }

seen-IsSound : IsSound seen.counts seen.slots
seen-IsSound = frame-IsSound (some (status 0)) client_of 8 1000 10 1 init init-IsSound

frame-holds_example :
    holds (frame (some (status 0)) client_of 8 1025 10 2 seen).0.slots ≤ max 2 (holds seen.slots)
frame-holds_example = frame-holds (some (status 0)) client_of 8 1025 10 2 seen seen-IsSound

frame-behind_example : holds (frame (some (status 300)) client_of 8 1025 10 2 seen).0.slots ≡ 0
unfolding frame frame_on hold_part watch_part ask_part ask_unexplained apply_verdict insert_by_turn
    queue_of run_hold run_holds start_hold start_holds try_start verdict note_flags current_from
    note_flag count_resyncs cleared_of drop_stale note_link relay_behind clear_flags visit_all visit
    lose_client ask_keyframe ask_keyframes candidates_of check_slot clear_flag clients_from
    drop_waits insert_by_age keep_client seen_slot sort_by_age ask new_slot why_order drop_slot
    drop_slots end_counts end_slot reset init
frame-behind_example = frame-behind (some (status 300)) client_of 8 1025 10 2 seen seen-IsSound refl

frame-young_example :
    let g = (frame (some (status 0)) client_of 8 1025 10 2 seen).0 in
    young g.frame_no 8 (lookup 0 g.slots) ≡ true
frame-young_example =
    frame-young (some (status 0)) client_of 8 1025 10 2 seen seen-IsSound (omega arith) 0

abbrev cvars : Cvars
cvars = record {
  on = some (codes " On ");
  max_frames = some (codes "99");
  per_frame = some (codes "zero");
  keyframe = some (pos 10);
}

abbrev failing : ℕ → Event
failing now = Event.frame_begins now (CvarRead.complete cvars) StatusRead.unreadable client_of

abbrev watched : Plugin
watched = record (start true cvars) { stream_on = true }

broken :
    (run_events (failing 1 ∷ failing 2 ∷ failing 3 ∷ failing 4 ∷ failing 5 ∷ []) watched).broken_at
    ≡ some 5
unfolding start handle_frame conclude attempt act poll fail read_cvars cvar_on lower strip
broken = refl

-- A status that cannot be read, a player who leaves, a map change, and a cvar that cannot be read.
abbrev stormy : List Event
stormy =
    failing 1
    ∷ Event.player_leaves 1
    ∷ Event.map_changes
    ∷ Event.state_is_asked (CvarRead.stops_after 2 cvars)
    ∷ []

run_events-IsValid_example : IsValid (all_intact stormy) (run_events stormy (start true cvars))
run_events-IsValid_example = run_events-IsValid true cvars stormy

handle_frame-retries_example :
    (handle_frame 60005
      (CvarRead.complete cvars)
      StatusRead.unreadable
      client_of
      (record watched { broken_at = some 5; errors = 5 })).broken_at
    ≡ none
unfolding start read_cvars cvar_on lower strip
handle_frame-retries_example =
    handle_frame-retries 60005 5 cvars StatusRead.unreadable client_of
      (record watched { broken_at = some 5; errors = 5 }) refl refl refl refl (omega arith)
