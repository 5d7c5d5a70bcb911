-- ===== src/Telemetry/Feed.antt =====
-- `class FeedState` of telemetry_unified_sched.py, and the two wrappers of the plugin around its
-- circuit breaker. `name` and `cvar` are only printed and handed on, and are left out.
pub mod Circuit
pub mod Slot
use qlsm_extra.Base.{
  ℕ, ◌+◌, ◌-◌, Bool, true, false, not, ◌&&◌, ◌||◌, Option, none, some, ltb, leb, ◌==◌,
  if◌then◌else◌,
}

pub record FeedState : Type 0 where
  pub stuck_ms : ℕ
  pub fail_threshold : ℕ
  pub was_enabled : Bool
  pub post_in_flight : Bool
  pub post_in_flight_since : ℕ
  pub post_generation : ℕ
  pub posts_ok : ℕ
  pub posts_fail : ℕ
  pub consecutive_fail : ℕ
  pub tripped : Bool

-- `FeedState.__init__`
unfoldable pub new : ℕ → ℕ → FeedState
new stuck_ms fail_threshold = record {
  stuck_ms = stuck_ms;
  fail_threshold = fail_threshold;
  was_enabled = false;
  post_in_flight = false;
  post_in_flight_since = 0;
  post_generation = 0;
  posts_ok = 0;
  posts_fail = 0;
  consecutive_fail = 0;
  tripped = false;
}

pub data Edge : Type 0 where
  enabled disabled : Edge

unfoldable pub sync_enabled : Bool → FeedState → FeedState × Option Edge
sync_enabled now_on s = (
  record s { was_enabled = now_on },
  if now_on && not s.was_enabled
      then some Edge.enabled
      else if not now_on && s.was_enabled
      then some Edge.disabled
      else none,
)

-- The new state, and whether anything changed.
unfoldable pub reset_circuit : FeedState → FeedState × Bool
reset_circuit s =
    if not s.tripped && (s.consecutive_fail == 0)
    then (s, false)
    else (record s { tripped = false; consecutive_fail = 0 }, true)

-- The new state, and whether this call tripped the breaker.
unfoldable pub record_result : Bool → FeedState → FeedState × Bool
record_result true s = (record s { consecutive_fail = 0 }, false)
record_result false s =
    let failed = record s { consecutive_fail = s.consecutive_fail + 1 } in
    if failed.tripped || ltb failed.consecutive_fail failed.fail_threshold
    then (failed, false)
    else (record failed { tripped = true }, true)

-- The age of a post that has run for longer than `stuck_ms`; its slot is free again then, and the
-- generation is a new one. A start time of 0 counts as none.
unfoldable pub check_stuck : ℕ → FeedState → FeedState × Option ℕ
check_stuck now s =
    if not s.post_in_flight
    then (s, none)
    else if (s.post_in_flight_since == 0) || leb now (s.post_in_flight_since + s.stuck_ms)
    then (s, none)
    else (
      record s {
        post_generation = s.post_generation + 1;
        post_in_flight = false;
        post_in_flight_since = 0;
        posts_fail = s.posts_fail + 1;
      },
      some (now - s.post_in_flight_since),
    )

-- The new state, and the generation for the worker.
unfoldable pub begin_post : ℕ → FeedState → FeedState × ℕ
begin_post now s =
    (record s { post_in_flight = true; post_in_flight_since = now }, s.post_generation)

-- The new state, and whether the worker still owns the slot. Here nothing comes between the test
-- and the writes; Feed/Slot has them as two steps.
unfoldable pub complete : ℕ → Bool → FeedState → FeedState × Bool
complete generation ok s = if not (generation == s.post_generation) then (s, false) else (
  record s {
    posts_ok = if ok then s.posts_ok + 1 else s.posts_ok;
    posts_fail = if ok then s.posts_fail else s.posts_fail + 1;
    post_in_flight = false;
    post_in_flight_since = 0;
  },
  true,
)
