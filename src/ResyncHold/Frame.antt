-- ===== src/ResyncHold/Frame.antt =====
-- The end of `frame` of `class ResyncHold`, where holds end, go on and start, and `frame` itself.
use qlsm_extra.Base.{
  ℕ, ◌+◌, ◌-◌, ◌*◌, Bool, true, false, not, ◌&&◌, ◌||◌, Option, none, some, List, [], ◌∷◌, ltb, leb,
  ◌==◌, if◌then◌else◌, length, take, ◌++◌,
}
use qlsm_extra.Base.Dict.{Dict, lookup, insert, keys}
use qlsm_extra.ResyncHold.{
  Slot, Status, Client, Why, is_flag, why_order, Hold, Counts, set_slot, cancel, end_slot,
  end_counts, add_stats, relay_behind, reset, count_resyncs, note_link, current_from, drop_stale,
  cleared_of, visit_all, clients_from, clear_flags, candidates_of, sort_by_age, ask_keyframes,
  note_flags, forget_waits,
}

-- HOLD_STALL_FACTOR
abbrev pub stall_factor : ℕ
stall_factor = 4

-- How a running hold goes on in a frame.
pub data Verdict : Type 0 where
  behind_relay acknowledged cap_reached goes_on : Verdict

unfoldable pub verdict : ℕ → ℕ → Bool → ℕ → Slot → Client → Verdict
verdict frame_no max_frames behind target st c =
    if behind
    then Verdict.behind_relay
    else if leb target c.message_acknowledge
    then Verdict.acknowledged
    else if leb (st.start_seq + max_frames) c.outgoing_sequence
    then Verdict.cap_reached
    else if leb (st.start_frame + max_frames * stall_factor) frame_no
    then Verdict.cap_reached
    else Verdict.goes_on

-- `_force` on the slot; the client's own `delta_message` is the effect `forces`.
abbrev pub force : ℕ → Client → Slot → Slot
force now c st = if c.unsent_fragments then st else record st { last_full = some now }

abbrev pub forces : ℕ → Client → List ℕ
forces slot c = if c.unsent_fragments then [] else slot ∷ []

-- What a loop over the clients carries on: `running`, and the slots whose client was forced.
pub record Round : Type 0 where
  pub hold : Hold
  pub running : ℕ
  pub forced : List ℕ

abbrev ended : ℕ → Slot → Client → Counts → Round → Round
ended slot st c counts r = record r {
  hold = record r.hold {
    slots = insert slot (end_slot r.hold.frame_no st) r.hold.slots;
    counts = end_counts slot (c.outgoing_sequence - st.start_seq) counts;
  };
}

unfoldable pub apply_verdict : ℕ → ℕ → Slot → Client → Verdict → Round → Round
apply_verdict now slot st c Verdict.behind_relay r = ended slot st c (cancel r.hold.counts) r
apply_verdict now slot st c Verdict.acknowledged r =
    ended slot st c (record r.hold.counts { acked = r.hold.counts.acked + 1 }) r
apply_verdict now slot st c Verdict.cap_reached r =
    ended slot st c (record r.hold.counts { capped = r.hold.counts.capped + 1 }) r
apply_verdict now slot st c Verdict.goes_on r = record {
  hold = set_slot slot (force now c st) r.hold;
  running = r.running + 1;
  forced = forces slot c ++ r.forced;
}

-- One round of the loop over the running holds, and the loop.
unfoldable pub run_hold : ℕ → ℕ → ℕ → Client → Round → Round
run_hold now max_frames slot c r = elim (lookup slot r.hold.slots) [
  | none ↦ r
  | some st ↦ elim st.target [
    | none ↦ r
    | some target ↦
        apply_verdict now slot st c
          (verdict r.hold.frame_no max_frames r.hold.watch.behind target st c) r
  ]
]

unfoldable pub run_holds : ℕ → ℕ → Dict Client → Round → Round
run_holds now max_frames [] r = r
run_holds now max_frames ((slot, c) ∷ clients) r =
    run_holds now max_frames clients (run_hold now max_frames slot c r)

-- The key `(_WHY_ORDER[why], want_frame, slot)`.
abbrev pub sooner : Option Slot → ℕ → Option Slot → ℕ → Bool
sooner none i t j = true
sooner (some s) i none j = false
sooner (some s) i (some t) j =
    ltb (why_order s.why) (why_order t.why)
    || (why_order s.why == why_order t.why
        && (ltb s.want_frame t.want_frame || (s.want_frame == t.want_frame && leb i j)))

unfoldable pub insert_by_turn : Dict Slot → ℕ → List ℕ → List ℕ
insert_by_turn slots i [] = i ∷ []
insert_by_turn slots i (j ∷ rest) =
    if sooner (lookup i slots) i (lookup j slots) j
    then i ∷ j ∷ rest
    else j ∷ insert_by_turn slots i rest

abbrev pub wants : Option Slot → Bool
wants none = false
wants (some st) = st.want

-- `queue`: the clients that wait, by turn.
unfoldable pub queue_of : Dict Slot → Dict Client → List ℕ
queue_of slots [] = []
queue_of slots ((slot, _) ∷ clients) =
    let rest = queue_of slots clients in
    if wants (lookup slot slots) then insert_by_turn slots slot rest else rest

abbrev is_guess : Why → Bool
is_guess Why.guessed = true
is_guess _ = false

abbrev is_counter : Why → Bool
is_counter Why.counter = true
is_counter why = is_guess why

abbrev bump : Bool → ℕ → ℕ
bump b n = if b then n + 1 else n

-- The start of a hold.
unfoldable pub start_hold : ℕ → ℕ → Slot → Client → Round → Round
start_hold now slot st c r =
    let begun = record st {
      want = false;
      target = some c.outgoing_sequence;
      start_seq = c.outgoing_sequence;
      start_frame = r.hold.frame_no;
    } in
    record {
      hold = record r.hold {
        slots = insert slot (force now c begun) r.hold.slots;
        counts = record r.hold.counts {
          started = r.hold.counts.started + 1;
          by_counter = bump (is_counter st.why) r.hold.counts.by_counter;
          guessed = bump (is_guess st.why) r.hold.counts.guessed;
          per_slot = add_stats slot 1 0 r.hold.counts.per_slot;
        };
      };
      running = r.running + 1;
      forced = forces slot c ++ r.forced;
    }

-- One round of the loop over the queue, and the loop; at the budget it breaks off.
unfoldable pub try_start : ℕ → ℕ → Option Client → Round → Round
try_start now slot none r = r
try_start now slot (some c) r = elim (lookup slot r.hold.slots) [
  | none ↦ r
  | some st ↦
      if not (is_flag st.why) && ltb r.hold.frame_no st.cooldown_until
      then r
      else start_hold now slot st c r
]

unfoldable pub start_holds : ℕ → ℕ → Dict Client → List ℕ → Round → Round
start_holds now per_frame clients [] r = r
start_holds now per_frame clients (slot ∷ queue) r =
    let on = start_holds now per_frame clients queue (try_start now slot (lookup slot clients) r) in
    if leb per_frame r.running then r else on

-- From the loop over the running holds on.
unfoldable pub hold_part : ℕ → ℕ → ℕ → Dict Client → Hold → Round
hold_part now max_frames per_frame clients h =
    let r = run_holds now max_frames clients (record { hold = h; running = 0; forced = [] }) in
    if h.watch.behind || leb per_frame r.running
    then r
    else start_holds now per_frame clients (queue_of r.hold.slots clients) r

-- The resyncs that no cleared flag explains: the slots that look due are asked for.
unfoldable pub ask_unexplained :
    Status → ℕ → ℕ → ℕ → Dict (ℕ × Bool) → Dict Client → List ℕ → Hold → Hold
ask_unexplained status now keyframe_sec unexplained current clients cleared h =
    if ltb 0 unexplained && (status.connected && not h.watch.behind)
    then ask_keyframes now keyframe_sec
        (take unexplained (sort_by_age h.slots (candidates_of current cleared h.slots clients))) h
    else h

-- From `self._fresh = False` to the waits that are given up.
unfoldable pub ask_part : Status → ℕ → ℕ → ℕ → Dict (ℕ × Bool) → Dict Client → List ℕ → Hold → Hold
ask_part status now keyframe_sec forced current clients cleared h =
    let settled = record h { watch = record h.watch { fresh = false } } in
    forget_waits (
      note_flags current (
        ask_unexplained status now keyframe_sec (forced - length cleared) current clients cleared
          (clear_flags now clients cleared settled)))

-- Before the loop over the running holds, for `current`: the slots that are seen, asked for and
-- given up.
unfoldable pub watch_part : Status → (ℕ → Option Client) → ℕ → ℕ → ℕ → Dict (ℕ × Bool) → Hold → Hold
watch_part status client_of now keyframe_sec forced current h =
    let kept = drop_stale current (keys h.slots) h in
    ask_part status now keyframe_sec forced current
      (clients_from status.connected client_of current) (cleared_of current kept.slots)
      (visit_all status.connected now client_of current kept)

-- `frame` for a status of a stream that is on.
unfoldable pub frame_on : Status → (ℕ → Option Client) → ℕ → ℕ → ℕ → ℕ → Hold → Round
frame_on status client_of max_frames now keyframe_sec per_frame h =
    let (counted, forced) = count_resyncs status h in
    let linked = note_link status forced (relay_behind status counted) in
    let current = current_from status.slots [] in
    hold_part now max_frames per_frame (clients_from status.connected client_of current)
      (watch_part status client_of now keyframe_sec forced current linked)

-- `frame`: the state, and the slots whose client was forced to a full snapshot.
unfoldable pub frame : Option Status → (ℕ → Option Client) → ℕ → ℕ → ℕ → ℕ → Hold → Hold × List ℕ
frame none client_of max_frames now keyframe_sec per_frame h =
    (reset (record h { frame_no = h.frame_no + 1 }), [])
frame (some status) client_of max_frames now keyframe_sec per_frame h =
    let ticked = record h { frame_no = h.frame_no + 1 } in
    if not status.enabled
    then (reset ticked, [])
    else let r = frame_on status client_of max_frames now keyframe_sec per_frame ticked in
      (r.hold, r.forced)
