-- ===== src/Telemetry/Session.antt =====
-- The session feed of stream_telemetry_unified.py: `_enqueue_session`'s bounded queue, the frame hook
-- `_drive_session_events` and the worker `_post_session_batch`. A row is its identity.
pub mod Delivery
use qlsm_extra.Base.{
  ℕ, ◌+◌, ◌-◌, Bool, true, false, not, ◌&&◌, ◌||◌, Option, none, some, List, [], ◌∷◌, ◌++◌, ltb,
  leb, ◌==◌, if◌then◌else◌, length, take, drop,
}
use qlsm_extra.Telemetry.Feed.{
  FeedState, Edge, sync_enabled, reset_circuit, record_result, check_stuck, begin_post, complete,
}
use qlsm_extra.Telemetry.Sched.{ack_batch, on_stride, stride_session, phase_session}
use qlsm_extra.Telemetry.Status.{Outcome, post_outcome}

-- _SESSION_MAX_QUEUE, _SESSION_QUEUE_WARN and _SESSION_BATCH_SIZE.
abbrev pub max_queue : ℕ
max_queue = 512

abbrev pub queue_warn : ℕ
queue_warn = 64

abbrev pub batch_size : ℕ
batch_size = 8

pub record Session : Type 0 where
  pub queue : List ℕ
  pub warned : Bool
  -- `_session_acks`: the batches that workers are done with.
  pub acks : List (List ℕ)
  pub feed : FeedState
  pub cvar_disabled : Bool

-- `_record_post_result`
unfoldable pub record_post_result : Bool → Session → Session
record_post_result ok s =
    let (feed, trips) = record_result ok s.feed in
    record s { feed = feed; cvar_disabled = if trips then true else s.cvar_disabled }

-- `_enqueue_session` for a row; `eligible` is what its first tests say of the cvar and the player.
-- At the bound the oldest row goes.
unfoldable pub enqueue : Bool → ℕ → Session → Session
enqueue eligible row s =
    if not eligible
    then s
    else let room = if leb max_queue (length s.queue) then drop 1 s.queue else s.queue in
      let queue = room ++ (row ∷ []) in
      record s { queue = queue; warned = if leb queue_warn (length queue) then true else s.warned }

-- `_apply_session_acks`
unfoldable pub ack_all : List (List ℕ) → List ℕ → List ℕ
ack_all [] queue = queue
ack_all (batch ∷ acks) queue = ack_all acks (ack_batch queue batch).0

unfoldable pub apply_acks : Session → Session
apply_acks s = record s { queue = ack_all s.acks s.queue; acks = [] }

unfoldable pub sync_feed : Bool → FeedState → FeedState
sync_feed enabled feed =
    let (synced, edge) = sync_enabled enabled feed in
    elim edge [ some Edge.enabled ↦ (reset_circuit synced).0 | _ ↦ synced ]

-- `_drive_session_events` in three parts, between which a worker may run. First: the edge of the cvar
-- and the acknowledgements; the second part says whether the hook goes on.
unfoldable pub drive_start : Bool → Session → Session × Bool
drive_start enabled s = (apply_acks (record s { feed = sync_feed enabled s.feed }), enabled)

-- Second: an empty queue, a post in flight (stuck or not) and a frame that is not the feed's end it.
unfoldable pub drive_check : ℕ → ℕ → Session → Session × Bool
drive_check frame_tick now s = elim s.queue [
  | [] ↦ (s, false)
  | _ ∷ _ ↦
      if not s.feed.post_in_flight
      then (s, on_stride frame_tick stride_session phase_session)
      else let (feed, age) = check_stuck now s.feed in
        let checked = record s { feed = feed } in
        elim age [ none ↦ (checked, false) | some _ ↦ (record_post_result false checked, false) ]
]

pub record Post : Type 0 where
  pub generation : ℕ
  pub batch : List ℕ

take_batch : ℕ → List ℕ → Session → Session × Option Post
take_batch now [] s = (s, none)
take_batch now (row ∷ rows) s =
    let (feed, generation) = begin_post now s.feed in
    (
      record s { feed = feed },
      some (record { generation = generation; batch = take batch_size (row ∷ rows) }),
    )

-- Third: the acknowledgements again, and the worker for the head of the queue.
unfoldable pub drive_post : ℕ → Session → Session × Option Post
unfolding take_batch
drive_post now s = let acked = apply_acks s in take_batch now acked.queue acked

-- `_post_session_batch` in two halves. On an answer: what is not worth another try is handed over to
-- be taken off the queue, also by a worker that lost its slot.
unfoldable pub hand_over : Post → ℕ → Session → Session
hand_over post status s = elim (post_outcome status) [
  | Outcome.retry ↦ s
  | _ ↦ record s { acks = s.acks ++ (post.batch ∷ []) }
]

-- And the end of the worker, after an answer or an exception (`ok` is false then).
unfoldable pub finish : Post → Bool → Session → Session
finish post ok s =
    let (feed, owned) = complete post.generation ok s.feed in
    let settled = record s { feed = feed } in
    if owned then record_post_result ok settled else settled
