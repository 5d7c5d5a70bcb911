-- ===== src/ResyncHold/Slots.antt =====
-- `_Slot`, `_ask` and what the engine tells about a slot and its client.
use qlsm_extra.Base.{ℕ, Bool, true, false, not, ◌&&◌, Option, none, some, List, ltb, if◌then◌else◌}

-- The keys of _WHY_ORDER; `unset` is the empty text of a slot that was never asked for.
pub data Why : Type 0 where
  flag counter guessed first_sight unset : Why

-- `_WHY_ORDER[why]`. It is not read for `unset`, which has no key.
unfoldable pub why_order : Why → ℕ
why_order Why.flag = 0
why_order Why.counter = 1
why_order Why.guessed = 1
why_order Why.first_sight = 2
why_order Why.unset = 3

abbrev pub is_flag : Why → Bool
is_flag Why.flag = true
is_flag _ = false

pub record Slot : Type 0 where
  pub gen : ℕ
  pub resyncing : Bool
  pub last_full : Option ℕ
  pub target : Option ℕ
  pub start_seq : ℕ
  pub start_frame : ℕ
  pub want : Bool
  pub why : Why
  pub want_frame : ℕ
  pub cooldown_until : ℕ

unfoldable pub new_slot : ℕ → Option ℕ → Slot
new_slot gen last_full = record {
  gen = gen;
  resyncing = false;
  last_full = last_full;
  target = none;
  start_seq = 0;
  start_frame = 0;
  want = false;
  why = Why.unset;
  want_frame = 0;
  cooldown_until = 0;
}

-- `st.target is not None`
abbrev pub has_target : Option ℕ → Bool
has_target none = false
has_target (some target) = true

-- `_ask`
unfoldable pub ask : ℕ → Why → Slot → Slot
unfolding why_order
ask frame_no why st =
    if not (has_target st.target) && not st.want
    then record st { want = true; why = why; want_frame = frame_no }
    else if st.want && ltb (why_order why) (why_order st.why)
    then record st { why = why }
    else st

-- A client of the engine: `state == cs_active`, `delta_message <= 0`, and the numbers of messages.
pub record Client : Type 0 where
  pub is_active : Bool
  pub asks_full : Bool
  pub message_acknowledge : ℕ
  pub outgoing_sequence : ℕ
  pub unsent_fragments : Bool

-- One entry of `status.slots`.
pub record SlotStatus : Type 0 where
  pub slot : ℕ
  pub active : Bool
  pub resyncing : Bool
  pub gen : ℕ

-- What stream_status() returns; `dropped` is the sum of the three drop counters.
pub record Status : Type 0 where
  pub enabled : Bool
  pub connected : Bool
  pub resyncs : ℕ
  pub lag : ℕ
  pub pending : ℕ
  pub dropped : ℕ
  pub slots : List SlotStatus
