-- ===== src/HostMetrics/Window.antt =====
-- When an event opens: after the condition held for the whole window, and no earlier.
use qlsm_extra.Base.{
  ℕ, ◌+◌, ◌≤◌, ◌≡◌, refl, Bool, true, false, Option, none, some, List, [], ◌∷◌, arith, leb, ltb,
  Bool-cases, inl, inr,
}
use qlsm_extra.Base.Dict.{
  Dict, lookup, contains, erase, Distinct, insert-Distinct, erase-Distinct, lookup-insert,
  lookup-erase, contains-insert, contains-erase,
}
use qlsm_extra.HostMetrics.{
  Kind, Scope, key_of, is_point, is_at_once, Limits, Tracker, insert_event, close_event, clear,
  raise_event, set_default, hold, observe,
}

-- Observations of one condition: the time, and whether it is active.
unfoldable pub observe_all : Limits → Kind → Scope → List (ℕ × Bool) → Tracker → Tracker
observe_all th kind scope [] s = s
observe_all th kind scope ((ts, active) ∷ seen) s =
    observe_all th kind scope seen (observe th ts kind scope active s)

-- The time at which the condition became active, if it still is at the end.
abbrev begins : ℕ → Bool → Option ℕ → Option ℕ
begins ts false first = none
begins ts true none = some ts
begins ts true (some first) = some first

unfoldable pub active_since : Option ℕ → List (ℕ × Bool) → Option ℕ
active_since first [] = first
active_since first ((ts, active) ∷ seen) = active_since (begins ts active first) seen

-- The time of the last observation.
unfoldable pub last_time : ℕ → List (ℕ × Bool) → ℕ
last_time from [] = from
last_time from ((ts, active) ∷ seen) = last_time ts seen

abbrev pub InOrder : ℕ → List (ℕ × Bool) → Type 0
InOrder from [] = Unit
InOrder from ((ts, active) ∷ seen) = (from ≤ ts) × InOrder ts seen

-- Whether the condition has been active for the window.
abbrev pub lasted : ℕ → ℕ → Option ℕ → Bool
lasted window now none = false
lasted window now (some first) = leb (first + window) now

record IsHeld (window key now : ℕ) (first : Option ℕ) (s : Tracker) : Type 0 where
  since_distinct : Distinct s.since
  open_distinct : Distinct s.opened
  since_ok : lookup key s.since ≡ first
  open_ok : contains key s.opened ≡ lasted window now first

close_event-dicts :
    (id ts : ℕ) (s : Tracker)
    → ((close_event id ts s).since ≡ s.since) × ((close_event id ts s).opened ≡ s.opened)
unfolding close_event
close_event-dicts id ts s = ground arith

clear-dicts :
    (ts key : ℕ) (s : Tracker)
    → ((clear ts key s).since ≡ erase key s.since) × ((clear ts key s).opened ≡ erase key s.opened)
unfolding clear
clear-dicts ts key s = from (lookup key s.opened) refl
  where
    from :
        (o : Option ℕ)
        → lookup key s.opened ≡ o
        → ((clear ts key s).since ≡ erase key s.since)
          × ((clear ts key s).opened ≡ erase key s.opened)
    from none e = rw (clear, e) (refl, refl)
    from (some id) e =
        rw (clear, e)
          (close_event-dicts id ts
            (record s { since = erase key s.since; opened = erase key s.opened }))

clear-IsHeld :
    (window key from ts : ℕ) (first : Option ℕ) (s : Tracker)
    → IsHeld window key from first s
    → IsHeld window key ts none (clear ts key s)
clear-IsHeld window key from ts first s h =
    let (since, opened) = clear-dicts ts key s in
    record {
      since_distinct = rw since (erase-Distinct s.since key h.since_distinct);
      open_distinct = rw opened (erase-Distinct s.opened key h.open_distinct);
      since_ok = rw since (ground (arith, lookup-erase s.since key key h.since_distinct));
      open_ok = rw opened (ground (arith, contains-erase s.opened key key h.open_distinct));
    }

-- The window of a kind that neither opens at once nor closes at once.
set_default-begins :
    (key ts : ℕ) (since : Dict ℕ)
    → Distinct since
    → Distinct (set_default key ts since).0
      × (lookup key (set_default key ts since).0 ≡ begins ts true (lookup key since))
      × (some (set_default key ts since).1 ≡ begins ts true (lookup key since))
unfolding set_default
set_default-begins key ts since d =
    ground (arith, insert-Distinct key ts since d, lookup-insert key key ts since)

hold-IsHeld :
    (th : Limits) (kind : Kind) (key from ts : ℕ) (first : Option ℕ) (s : Tracker)
    → is_at_once kind ≡ false
    → is_point kind ≡ false
    → from ≤ ts
    → IsHeld th.event_window_s key from first s
    → IsHeld th.event_window_s key ts (begins ts true first) (hold th ts kind key s)
unfolding hold raise_event insert_event
hold-IsHeld th kind key from ts first s a p o h =
    let (d, l, f) = set_default-begins key ts s.since h.since_distinct in
    elim (Bool-cases (contains key s.opened)) [
      | inl e ↦
          rw (hold, e)
            (record {
              since_distinct = h.since_distinct;
              open_distinct = h.open_distinct;
              since_ok = ground (arith, h.since_ok, h.open_ok);
              open_ok = ground (arith, h.open_ok);
            })
      | inr e ↦ elim (Bool-cases (ltb ts ((set_default key ts s.since).1 + th.event_window_s))) [
        | inl early ↦
            rw (hold, e, a, early)
              (record {
                since_distinct = d;
                open_distinct = h.open_distinct;
                since_ok = rw h.since_ok at l;
                open_ok = ground (arith, f, h.since_ok);
              })
        | inr late ↦
            rw (hold, e, a, late, raise_event, p, insert_event)
              (record {
                since_distinct = d;
                open_distinct = insert-Distinct key s.next_id s.opened h.open_distinct;
                since_ok = rw h.since_ok at l;
                open_ok = ground (arith, f, h.since_ok, contains-insert key key s.next_id s.opened);
              })
      ]
    ]

observe_all-IsHeld :
    (th : Limits) (kind : Kind) (scope : Scope) (seen : List (ℕ × Bool)) (from : ℕ)
    (first : Option ℕ) (s : Tracker)
    → is_at_once kind ≡ false
    → is_point kind ≡ false
    → InOrder from seen
    → IsHeld th.event_window_s (key_of kind scope) from first s
    → IsHeld th.event_window_s
        (key_of kind scope)
        (last_time from seen)
        (active_since first seen)
        (observe_all th kind scope seen s)
unfolding observe_all last_time active_since observe
observe_all-IsHeld th kind scope [] from first s a p o h = h
observe_all-IsHeld th kind scope ((ts, true) ∷ seen) from first s a p o h =
    observe_all-IsHeld th kind scope seen ts (begins ts true first) _ a p o.1
      (hold-IsHeld th kind (key_of kind scope) from ts first s a p o.0 h)
observe_all-IsHeld th kind scope ((ts, false) ∷ seen) from first s a p o h =
    observe_all-IsHeld th kind scope seen ts none _ a p o.1
      (clear-IsHeld th.event_window_s (key_of kind scope) from ts first s h)

-- `__init__`
abbrev pub fresh : Tracker
fresh = record { since = []; opened = []; ports = none; rows = []; next_id = 1 }

is_at_once-is_point : (kind : Kind) → is_at_once kind ≡ false → is_point kind ≡ false
unfolding is_at_once is_point
is_at_once-is_point kind a = ground arith

-- For a condition with a window, observed at times in order: an event is open exactly when the
-- condition has been active without a break for the window at the last observation.
pub observe_all-opened :
    (th : Limits) (kind : Kind) (scope : Scope) (seen : List (ℕ × Bool))
    → is_at_once kind ≡ false
    → InOrder 0 seen
    → contains (key_of kind scope) (observe_all th kind scope seen fresh).opened
      ≡ lasted th.event_window_s (last_time 0 seen) (active_since none seen)
observe_all-opened th kind scope seen a o =
    (observe_all-IsHeld th kind scope seen 0 none fresh a (is_at_once-is_point kind a) o
      (record { since_distinct = tt; open_distinct = tt; since_ok = refl; open_ok = refl })).open_ok
