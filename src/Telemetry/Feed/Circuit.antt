-- ===== src/Telemetry/Feed/Circuit.antt =====
-- The circuit breaker of a feed: `record_result` and `reset_circuit`.
use qlsm_extra.Base.{
  ℕ, zero, suc, ◌+◌, ◌≤◌, ◌<◌, ◌≡◌, refl, Bool, true, false, List, [], ◌∷◌, arith, leb,
  if◌then◌else◌, replicate,
}
use qlsm_extra.Telemetry.Feed.{FeedState, record_result}

-- Results in a row; the state after them and how often the breaker tripped.
unfoldable pub record_all : List Bool → FeedState → FeedState × ℕ
record_all [] s = (s, 0)
record_all (ok ∷ results) s =
    let (s', tripped) = record_result ok s in
    let (s'', more) = record_all results s' in (s'', if tripped then more + 1 else more)

record_result_tripped :
    (ok : Bool) (s : FeedState)
    → s.tripped ≡ true
    → ((record_result ok s).1 ≡ false) × ((record_result ok s).0.tripped ≡ true)
unfolding record_result
record_result_tripped true s h = ground arith
record_result_tripped false s h = ground arith

record_result_trips :
    (ok : Bool) (s : FeedState)
    → (record_result ok s).1 ≡ true
    → (record_result ok s).0.tripped ≡ true
unfolding record_result
record_result_trips true s h = ground arith
record_result_trips false s h = ground arith

record_all_tripped :
    (results : List Bool) (s : FeedState) → s.tripped ≡ true → (record_all results s).1 ≡ 0
unfolding record_all
record_all_tripped [] s h = refl
record_all_tripped (ok ∷ results) s h =
    ground (arith, record_result_tripped ok s h, record_all_tripped results (record_result ok s).0)

-- Until the breaker is reset it trips at most once, whatever the results are.
pub trips_once : (results : List Bool) (s : FeedState) → (record_all results s).1 ≤ 1
unfolding record_all
trips_once [] s = omega arith
trips_once (ok ∷ results) s = ground (
  arith,
  record_result_trips ok s,
  record_all_tripped results (record_result ok s).0,
  trips_once results (record_result ok s).0,
)

failures-trip_from :
    (n : ℕ) (s : FeedState)
    → s.tripped ≡ false
    → s.consecutive_fail < s.fail_threshold
    → (record_all (replicate n false) s).1
      ≡ (if leb s.fail_threshold (s.consecutive_fail + n) then 1 else 0)
unfolding record_all record_result
failures-trip_from zero s h k = ground arith
failures-trip_from (suc n) s h k =
    let failed = record s { consecutive_fail = s.consecutive_fail + 1 } in
    ground (
      arith,
      failures-trip_from n failed h,
      record_all_tripped (replicate n false) (record failed { tripped = true }),
    )

-- After a reset or a success, a run of failures trips the breaker exactly when it is at least as
-- long as the threshold.
pub failures-trip :
    (n : ℕ) (s : FeedState)
    → s.tripped ≡ false
    → 0 < s.fail_threshold
    → (record_all (true ∷ replicate n false) s).1 ≡ (if leb s.fail_threshold n then 1 else 0)
unfolding record_all record_result
failures-trip n s h k = ground (arith, failures-trip_from n (record s { consecutive_fail = 0 }) h k)
