-- ===== src/ResyncHold/Asking.antt =====
-- The parts of `frame` of `class ResyncHold` that ask for holds and give up on waiting ones.
use qlsm_extra.Base.{
  ℕ, ◌+◌, ◌-◌, ◌*◌, Bool, true, false, not, ◌&&◌, ◌||◌, Option, none, some, List, [], ◌∷◌, ltb, leb,
  ◌==◌, if◌then◌else◌,
}
use qlsm_extra.Base.Dict.{Dict, lookup, insert}
use qlsm_extra.ResyncHold.Slots.{Slot, Client, Why, is_flag, ask, has_target}
use qlsm_extra.ResyncHold.Phases.{flag_off}
use qlsm_extra.ResyncHold.State.{Hold, set_slot}

-- A cleared flag: a hold is asked for, or the anchor of the running one moves.
unfoldable pub clear_flag : ℕ → Option Client → ℕ → Hold → Hold
clear_flag now client slot h = elim (lookup slot h.slots) [
  | none ↦ h
  | some st ↦
      let full = record st { last_full = some now } in
      elim client [
        | none ↦ set_slot slot full h
        | some c ↦
            if has_target st.target
            then record h {
              slots = insert slot (record full { target = some c.outgoing_sequence }) h.slots;
              counts = record h.counts { retargeted = h.counts.retargeted + 1 };
            }
            else set_slot slot (ask h.frame_no Why.flag full) h
      ]
]

unfoldable pub clear_flags : ℕ → Dict Client → List ℕ → Hold → Hold
clear_flags now clients [] h = h
clear_flags now clients (slot ∷ cleared) h =
    clear_flags now clients cleared (clear_flag now (lookup slot clients) slot h)

abbrev pub mem : ℕ → List ℕ → Bool
mem k [] = false
mem k (j ∷ rest) = if k == j then true else mem k rest

-- Whether a slot may take a resync that no flag explains.
abbrev is_candidate : Option (ℕ × Bool) → Option Slot → Bool
is_candidate current none = false
is_candidate current (some st) =
    not st.resyncing && (flag_off current && (not (has_target st.target) && not st.want))

unfoldable pub candidates_of : Dict (ℕ × Bool) → List ℕ → Dict Slot → Dict Client → List ℕ
candidates_of current cleared slots [] = []
candidates_of current cleared slots ((slot, _) ∷ clients) =
    let rest = candidates_of current cleared slots clients in
    if is_candidate (lookup slot current) (lookup slot slots) && not (mem slot cleared)
    then slot ∷ rest
    else rest

abbrev last_full_of : Option Slot → Option ℕ
last_full_of none = none
last_full_of (some st) = st.last_full

-- The key `(-age(slot), slot)`: an unknown last full snapshot first, then the oldest.
abbrev older : Option ℕ → ℕ → Option ℕ → ℕ → Bool
older none i none j = leb i j
older none i (some b) j = true
older (some a) i none j = false
older (some a) i (some b) j = ltb a b || (a == b && leb i j)

unfoldable pub insert_by_age : Dict Slot → ℕ → List ℕ → List ℕ
insert_by_age slots i [] = i ∷ []
insert_by_age slots i (j ∷ rest) =
    if older (last_full_of (lookup i slots)) i (last_full_of (lookup j slots)) j
    then i ∷ j ∷ rest
    else j ∷ insert_by_age slots i rest

unfoldable pub sort_by_age : Dict Slot → List ℕ → List ℕ
sort_by_age slots [] = []
sort_by_age slots (i ∷ rest) = insert_by_age slots i (sort_by_age slots rest)

-- KEYFRAME_SLACK_SEC
abbrev slack_ms : ℕ
slack_ms = 500

-- `age(slot) >= due_age`, for the keyframe interval in seconds.
abbrev pub looks_due : ℕ → ℕ → Option ℕ → Bool
looks_due now keyframe_sec none = true
looks_due now keyframe_sec (some last) = leb (last + (keyframe_sec * 1000 - slack_ms)) now

unfoldable pub ask_keyframe : ℕ → ℕ → ℕ → Hold → Hold
ask_keyframe now keyframe_sec slot h = elim (lookup slot h.slots) [
  | none ↦ h
  | some st ↦
      let why = if looks_due now keyframe_sec st.last_full then Why.counter else Why.guessed in
      set_slot slot (record (ask h.frame_no why st) { last_full = some now }) h
]

unfoldable pub ask_keyframes : ℕ → ℕ → List ℕ → Hold → Hold
ask_keyframes now keyframe_sec [] h = h
ask_keyframes now keyframe_sec (slot ∷ slots) h =
    ask_keyframes now keyframe_sec slots (ask_keyframe now keyframe_sec slot h)

-- `self._slots[slot].resyncing = resyncing`, and the loop of it.
unfoldable pub note_flag : ℕ → Bool → Hold → Hold
note_flag slot resyncing h = elim (lookup slot h.slots) [
  | none ↦ h
  | some st ↦ set_slot slot (record st { resyncing = resyncing }) h
]

unfoldable pub note_flags : Dict (ℕ × Bool) → Hold → Hold
note_flags [] h = h
note_flags ((slot, (gen, resyncing)) ∷ current) h = note_flags current (note_flag slot resyncing h)

-- WAIT_MAX_AGE_FRAMES
abbrev wait_max_age_frames : ℕ
wait_max_age_frames = 60

-- A wait that is no longer worth a full snapshot.
abbrev is_spent : ℕ → Bool → Slot → Bool
is_spent frame_no behind st =
    st.want
    && (not (is_flag st.why) && (behind || ltb (st.want_frame + wait_max_age_frames) frame_no))

unfoldable pub drop_waits : ℕ → Bool → Dict Slot → Dict Slot × ℕ
drop_waits frame_no behind [] = ([], 0)
drop_waits frame_no behind ((slot, st) ∷ slots) =
    let (rest, n) = drop_waits frame_no behind slots in
    if is_spent frame_no behind st
    then ((slot, record st { want = false }) ∷ rest, n + 1)
    else ((slot, st) ∷ rest, n)

abbrev pub forget_waits : Hold → Hold
forget_waits h =
    let (slots, n) = drop_waits h.frame_no h.watch.behind h.slots in
    record h {
      slots = slots;
      counts = record h.counts { dropped_waits = h.counts.dropped_waits + n };
    }
