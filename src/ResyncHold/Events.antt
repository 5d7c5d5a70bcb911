-- ===== src/ResyncHold/Events.antt =====
-- The hooks of `class demo_stream_resync_hold` over any run of events.
use qlsm_extra.Base.{
  Bool-cases, inl, inr, ◌%◌, ◌==◌, ℕ, ◌+◌, ◌≤◌, ◌≡◌, refl, Bool, true, ◌&&◌, Option, none, some,
  List, [], ◌∷◌, arith,
}
use qlsm_extra.ResyncHold.{Client, init, drop_slot}
use qlsm_extra.ResyncHold.Count.{holds}
use qlsm_extra.ResyncHold.Intact.{IsValid, is_whole, weaken, drop_slot-IntactIf}
use qlsm_extra.ResyncHold.Config.{cvar_on}
use qlsm_extra.ResyncHold.Guard.{
  reset-IsValid, hold-IsValid, read_cvars-IsValid, cmd_resynchold-IsValid, handle_frame-IsValid,
}
use qlsm_extra.ResyncHold.Plugin.{
  Plugin, Cvars, CvarRead, StatusRead, slow_poll_frames, act, read_cvars, start, poll, attempt,
  fail, conclude, handle_frame, handle_map, handle_player_disconnect, cmd_resynchold,
  broken_retry_ms,
}

start-IsValid : (supported : Bool) (cvars : Cvars) → IsValid true (start supported cvars)
unfolding start init holds
start-IsValid supported cvars = read_cvars-IsValid cvars _ (record {
  intact = (record { distinct = tt; quiet = tt; balance = refl }, omega arith);
  cap = (omega arith, omega arith);
  budget = (omega arith, omega arith);
  errors = λ e. omega arith;
  silent = λ e. refl;
})

-- What happens to the plugin, in any order.
pub data Event : Type 0 where
  frame_begins : ℕ → CvarRead → StatusRead → (ℕ → Option Client) → Event
  map_changes : Event
  player_leaves : ℕ → Event
  state_is_asked : CvarRead → Event

abbrev pub handle : Event → Plugin → Plugin
handle (Event.frame_begins now cvars answer client_of) p = handle_frame now cvars answer client_of p
handle Event.map_changes p = handle_map p
handle (Event.player_leaves id) p = handle_player_disconnect id p
handle (Event.state_is_asked cvars) p = cmd_resynchold cvars p

abbrev pub run_events : List Event → Plugin → Plugin
run_events [] p = p
run_events (event ∷ events) p = run_events events (handle event p)

-- Whether `hold.frame` returns in the event, if it is called.
abbrev pub is_intact : Event → Bool
is_intact (Event.frame_begins now cvars answer client_of) = is_whole answer
is_intact Event.map_changes = true
is_intact (Event.player_leaves id) = true
is_intact (Event.state_is_asked cvars) = true

abbrev pub all_intact : List Event → Bool
all_intact [] = true
all_intact (event ∷ events) = is_intact event && all_intact events

handle-IsValid :
    {whole : Bool} (event : Event) (p : Plugin)
    → (whole ≡ true → is_intact event ≡ true)
    → IsValid whole p
    → IsValid whole (handle event p)
unfolding drop_slot
handle-IsValid (Event.frame_begins now cvars answer client_of) p w v =
    handle_frame-IsValid now cvars answer client_of p w v
handle-IsValid Event.map_changes p w v = reset-IsValid p v
handle-IsValid (Event.state_is_asked cvars) p w v = cmd_resynchold-IsValid cvars p v
handle-IsValid {whole} (Event.player_leaves id) p w v =
    hold-IsValid p (drop_slot id p.hold) v (drop_slot-IntactIf whole id p.hold v.intact)
      (λ e. rw (drop_slot, v.silent e) (v.silent e))

run_events-IsValid' :
    {whole : Bool} (events : List Event) (p : Plugin)
    → (whole ≡ true → all_intact events ≡ true)
    → IsValid whole p
    → IsValid whole (run_events events p)
run_events-IsValid' [] p w v = v
run_events-IsValid' (event ∷ events) p w v =
    run_events-IsValid' events (handle event p) (λ e. ground (arith, w e))
      (handle-IsValid event p (λ e. ground (arith, w e)) v)

-- Whatever frames, map changes, disconnects and commands come after the start, with whatever errors:
-- the cap and the budget are within their limits; while the hook is not switched off it counts fewer
-- than five errors, and while it is switched off no slot is watched. If no call of `hold.frame` has
-- raised half way, then also every hold that was started is running, or was acknowledged, capped or
-- cancelled, and at most eight holds run.
pub run_events-IsValid :
    (supported : Bool) (cvars : Cvars) (events : List Event)
    → IsValid (all_intact events) (run_events events (start supported cvars))
run_events-IsValid supported cvars events =
    run_events-IsValid' events (start supported cvars) (λ e. e)
      (weaken (all_intact events) (start supported cvars) (start-IsValid supported cvars))

-- A supported and enabled hook that was switched off is on again after the first frame that comes at
-- least a minute later and can read the cvars, with the feature still on, whether stream_status()
-- or `hold.frame` raises in that frame or not.
pub handle_frame-retries :
    (now at : ℕ) (cvars : Cvars) (answer : StatusRead) (client_of : ℕ → Option Client) (p : Plugin)
    → p.supported ≡ true
    → p.enabled ≡ true
    → cvar_on cvars.on ≡ true
    → p.broken_at ≡ some at
    → at + broken_retry_ms ≤ now
    → (handle_frame now (CvarRead.complete cvars) answer client_of p).broken_at ≡ none
unfolding handle_frame attempt act poll fail conclude read_cvars
handle_frame-retries now at cvars answer client_of p s e c b o =
    elim (Bool-cases ((p.tick + 1) % slow_poll_frames == 0)) [
      | inl t ↦ ground (arith, s, e, c, b, o, t)
      | inr t ↦ ground (arith, s, e, c, b, o, t)
    ]
