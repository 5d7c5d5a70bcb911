-- ===== src/HostMetrics/Observe.antt =====
-- `observe` of `class EventTracker`, with the event table that it writes to.
use qlsm_extra.Base.{ℕ, ◌+◌, Bool, not, ◌&&◌, Option, none, some, List, ltb, if◌then◌else◌}
use qlsm_extra.Base.Dict.{Dict, lookup, contains, insert, erase}
use qlsm_extra.HostMetrics.Keys.{Kind, Scope, key_of, is_point, is_at_once}

pub record Row : Type 0 where
  pub ts : ℕ
  pub key : ℕ
  pub closed : Option ℕ

-- The thresholds `self.th`.
pub record Limits : Type 0 where
  pub core_saturated_pct : ℕ
  pub steal_event_pct : ℕ
  pub mem_low_pct : ℕ
  pub disk_low_pct : ℕ
  pub frames_late_pct : ℕ
  pub frame_gap_ms : ℕ
  pub event_window_s : ℕ

-- DEFAULTS
abbrev pub defaults : Limits
defaults = record {
  core_saturated_pct = 95;
  steal_event_pct = 10;
  mem_low_pct = 10;
  disk_low_pct = 90;
  frames_late_pct = 1;
  frame_gap_ms = 100;
  event_window_s = 60;
}

pub record Tracker : Type 0 where
  pub since : Dict ℕ
  pub opened : Dict ℕ
  pub ports : Option (List ℕ)
  -- The event table by id, and the id of the next row.
  pub rows : Dict Row
  pub next_id : ℕ

-- `hm_store.insert_event`, with the new row's id in `next_id` before.
unfoldable pub insert_event : ℕ → ℕ → Tracker → Tracker
insert_event ts key s = record s {
  rows = insert s.next_id (record { ts = ts; key = key; closed = none }) s.rows;
  next_id = s.next_id + 1;
}

-- `hm_store.close_event`
unfoldable pub close_event : ℕ → ℕ → Tracker → Tracker
close_event id ts s = elim (lookup id s.rows) [
  | none ↦ s
  | some row ↦ record s { rows = insert id (record row { closed = some ts }) s.rows }
]

-- `observe` of a condition that is not active.
unfoldable pub clear : ℕ → ℕ → Tracker → Tracker
clear ts key s =
    let forgotten = record s { since = erase key s.since; opened = erase key s.opened } in
    elim (lookup key s.opened) [ none ↦ forgotten | some id ↦ close_event id ts forgotten ]

-- Its end, where an event is written.
unfoldable pub raise_event : ℕ → Kind → ℕ → Tracker → Tracker
unfolding insert_event
raise_event ts kind key s =
    let id = s.next_id in
    let inserted = insert_event ts key s in
    if is_point kind
    then (let done = close_event id ts inserted in record done { since = erase key done.since })
    else record inserted { opened = insert key id inserted.opened }

-- `self._since.setdefault(key, ts)`: the dict after it, and the value.
unfoldable pub set_default : ℕ → ℕ → Dict ℕ → Dict ℕ × ℕ
set_default key ts since = elim (lookup key since) [
  | none ↦ (insert key ts since, ts)
  | some first ↦ (since, first)
]

-- And of one that is.
unfoldable pub hold : Limits → ℕ → Kind → ℕ → Tracker → Tracker
hold th ts kind key s =
    if contains key s.opened
    then s
    else let (since, first) = set_default key ts s.since in
      let waiting = record s { since = since } in
      if not (is_at_once kind) && ltb ts (first + th.event_window_s)
      then waiting
      else raise_event ts kind key waiting

-- `observe`
unfoldable pub observe : Limits → ℕ → Kind → Scope → Bool → Tracker → Tracker
observe th ts kind scope active s =
    if active then hold th ts kind (key_of kind scope) s else clear ts (key_of kind scope) s
