-- ===== src/ResyncHold/State.antt =====
-- The fields of `class ResyncHold` and the methods that change them between frames. The event log is
-- left out.
use qlsm_extra.Base.{
  ℕ, ◌+◌, Bool, true, false, ◌||◌, Option, none, some, List, [], ◌∷◌, ltb, leb, if◌then◌else◌, max,
}
use qlsm_extra.Base.Dict.{Dict, lookup, insert, erase, keys}
use qlsm_extra.ResyncHold.Slots.{Slot, Status, has_target}

-- The counters; `per_slot` holds the number of holds and of full snapshots.
pub record Counts : Type 0 where
  pub started : ℕ
  pub acked : ℕ
  pub capped : ℕ
  pub cancelled : ℕ
  pub forced : ℕ
  pub retargeted : ℕ
  pub by_counter : ℕ
  pub guessed : ℕ
  pub longest : ℕ
  pub dropped_waits : ℕ
  pub behind_frames : ℕ
  pub per_slot : Dict (ℕ × ℕ)

-- What is remembered of the last status.
pub record Watch : Type 0 where
  pub resyncs : Option ℕ
  pub dropped : Option ℕ
  pub connected : Option Bool
  pub down_resyncs : ℕ
  pub behind_until : ℕ
  pub behind : Bool
  pub fresh : Bool

pub record Hold : Type 0 where
  pub frame_no : ℕ
  pub counts : Counts
  pub slots : Dict Slot
  pub watch : Watch

-- `__init__`
unfoldable pub init : Hold
init = record {
  frame_no = 0;
  counts = record {
    started = 0;
    acked = 0;
    capped = 0;
    cancelled = 0;
    forced = 0;
    retargeted = 0;
    by_counter = 0;
    guessed = 0;
    longest = 0;
    dropped_waits = 0;
    behind_frames = 0;
    per_slot = [];
  };
  slots = [];
  watch = record {
    resyncs = none;
    dropped = none;
    connected = none;
    down_resyncs = 0;
    behind_until = 0;
    behind = false;
    fresh = true;
  };
}

abbrev pub set_slot : ℕ → Slot → Hold → Hold
set_slot slot st h = record h { slots = insert slot st h.slots }

abbrev pub cancel : Counts → Counts
cancel c = record c { cancelled = c.cancelled + 1 }

-- `drop_slot`
unfoldable pub drop_slot : ℕ → Hold → Hold
drop_slot slot h = elim (lookup slot h.slots) [
  | none ↦ h
  | some st ↦ record h {
    slots = erase slot h.slots;
    counts = if has_target st.target then cancel h.counts else h.counts;
  }
]

unfoldable pub drop_slots : List ℕ → Hold → Hold
drop_slots [] h = h
drop_slots (slot ∷ slots) h = drop_slots slots (drop_slot slot h)

-- `reset`
unfoldable pub reset : Hold → Hold
reset h =
    let dropped = drop_slots (keys h.slots) h in
    record dropped {
      watch = record dropped.watch {
        resyncs = none;
        dropped = none;
        behind_until = 0;
        behind = false;
        fresh = true;
      };
    }

-- `self.per_slot.setdefault(slot, [0, 0])`, and the two numbers raised.
abbrev pub add_stats : ℕ → ℕ → ℕ → Dict (ℕ × ℕ) → Dict (ℕ × ℕ)
add_stats slot holds full d = elim (lookup slot d) [
  | none ↦ insert slot (holds, full) d
  | some (m, n) ↦ insert slot (m + holds, n + full) d
]

-- HOLD_COOLDOWN_FRAMES
abbrev pub cooldown_frames : ℕ
cooldown_frames = 20

-- `_end`, for `sent` snapshots: the slot and the counters.
unfoldable pub end_slot : ℕ → Slot → Slot
end_slot frame_no st = record st { target = none; cooldown_until = frame_no + cooldown_frames }

unfoldable pub end_counts : ℕ → ℕ → Counts → Counts
end_counts slot sent c = record c {
  forced = c.forced + sent;
  per_slot = add_stats slot 0 sent c.per_slot;
  longest = max c.longest sent;
}

-- BEHIND_LAG_MS, BEHIND_PENDING_BYTES and BEHIND_RECOVER_FRAMES
abbrev pub behind_lag_ms : ℕ
behind_lag_ms = 250

abbrev pub behind_pending_bytes : ℕ
behind_pending_bytes = 262144

abbrev pub behind_recover_frames : ℕ
behind_recover_frames = 40

-- `grew`
abbrev pub grew : Option ℕ → ℕ → Bool
grew none dropped = false
grew (some before) dropped = ltb before dropped

-- `_relay_behind`: the state, whose `behind` is the answer.
unfoldable pub relay_behind : Status → Hold → Hold
relay_behind status h =
    let w = h.watch in
    let until =
      if grew w.dropped status.dropped
        || (leb behind_lag_ms status.lag || leb behind_pending_bytes status.pending)
      then h.frame_no + behind_recover_frames
      else w.behind_until in
    let behind = ltb h.frame_no until in
    record h {
      watch = record w { dropped = some status.dropped; behind_until = until; behind = behind };
      counts =
          if behind
          then record h.counts { behind_frames = h.counts.behind_frames + 1 }
          else h.counts;
    }
