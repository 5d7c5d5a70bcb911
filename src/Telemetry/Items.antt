-- ===== src/Telemetry/Items.antt =====
-- The item feed of stream_telemetry_unified.py: the queue of pickup events, the frame hook that posts
-- the head of it, and the worker that takes delivered rows off. A row is its identity.
pub mod Slots
pub mod Delivery
pub mod Race
pub mod Retries
use qlsm_extra.Base.{
  ℕ, ◌+◌, ◌-◌, Bool, true, false, not, ◌&&◌, ◌||◌, Option, none, some, List, [], ◌∷◌, ◌++◌, ltb,
  leb, ◌==◌, if◌then◌else◌, length, take, drop,
}
use qlsm_extra.Telemetry.Feed.{
  FeedState, Edge, sync_enabled, reset_circuit, record_result, check_stuck, begin_post, complete,
}
use qlsm_extra.Telemetry.Status.{Body, items_relay_accepted}

-- _ITEMS_MAX_QUEUE, _ITEMS_QUEUE_WARN, _ITEMS_BATCH_SIZE and _ITEMS_POST_MAX_RETRIES.
abbrev pub max_queue : ℕ
max_queue = 1024

abbrev pub queue_warn : ℕ
queue_warn = 64

abbrev pub batch_size : ℕ
batch_size = 12

abbrev pub max_retries : ℕ
max_retries = 3

pub record Items : Type 0 where
  pub queue : List ℕ
  pub warned : Bool
  pub full_drops : ℕ
  pub feed : FeedState
  -- `_disable_cvar_safely` was called for the feed's cvar.
  pub cvar_disabled : Bool

-- `_record_post_result`
unfoldable pub record_post_result : Bool → Items → Items
record_post_result ok s =
    let (feed, trips) = record_result ok s.feed in
    record s { feed = feed; cvar_disabled = if trips then true else s.cvar_disabled }

-- `_warn_items_queue_pressure`; the log line is left out.
unfoldable pub warn_pressure : Items → Items
warn_pressure s = record s { warned = not (ltb (length s.queue) queue_warn) }

-- What a worker is started with.
pub record Post : Type 0 where
  pub generation : ℕ
  pub batch : List ℕ

-- `_flush_items_async`, with a url or without one; `none` when no worker is started.
unfoldable pub flush : Bool → ℕ → Items → Items × Option Post
flush has_url now s = elim s.queue [
  | [] ↦ (s, none)
  | _ ∷ _ ↦
      if s.feed.post_in_flight || not has_url
      then (s, none)
      else let (feed, generation) = begin_post now s.feed in
        (
          record s { feed = feed },
          some (record { generation = generation; batch = take batch_size s.queue }),
        )
]

-- `on_item_event` for a row; `eligible` is what its first tests say of the cvar, the game's state, the
-- player and the steam id.
unfoldable pub on_item_event : Bool → Bool → ℕ → ℕ → Items → Items × Option Post
on_item_event eligible has_url now row s =
    if not eligible
    then (s, none)
    else if leb max_queue (length s.queue)
    then (record s { full_drops = s.full_drops + 1 }, none)
    else flush has_url now (warn_pressure (record s { queue = s.queue ++ (row ∷ []) }))

unfoldable pub sync_feed : Bool → FeedState → FeedState
sync_feed enabled feed =
    let (synced, edge) = sync_enabled enabled feed in
    elim edge [ some Edge.enabled ↦ (reset_circuit synced).0 | _ ↦ synced ]

-- The rest of `_drive_item_events` for a feed that is enabled.
unfoldable pub drive_enabled : Bool → ℕ → Items → Items × Option Post
drive_enabled has_url now s =
    if not s.feed.post_in_flight
    then flush has_url now s
    else let (feed, age) = check_stuck now s.feed in
      let checked = record s { feed = feed } in
      elim age [ none ↦ (checked, none) | some _ ↦ (record_post_result false checked, none) ]

-- `_drive_item_events`
unfoldable pub drive : Bool → Bool → ℕ → Items → Items × Option Post
drive enabled has_url now s =
    let synced = record s { feed = sync_feed enabled s.feed } in
    if not enabled then (synced, none) else drive_enabled has_url now synced

-- What one call of `_post_once` came to: an answer, or an exception.
pub data Answer : Type 0 where
  answer : ℕ → Body → Answer
  raised : Answer

unfoldable pub accepted : Answer → Bool
accepted (answer status body) = items_relay_accepted status body
accepted raised = false

-- The loop of `_post_items_batch` over the answers that the attempts get, `n` attempts left.
unfoldable pub attempts : ℕ → List Answer → Bool
attempts n [] = false
attempts ℕ.zero (a ∷ answers) = false
attempts (ℕ.suc n) (a ∷ answers) =
    let rest = attempts n answers in if accepted a then true else rest

-- The end of the worker in two halves, with the game thread free to run between them: `complete`,
-- and what a worker that owns the slot does next. The second half of a success drops the first rows
-- of the queue, as many as the batch has, and records the result.
unfoldable pub settle : Post → Bool → Items → Items × Bool
settle post delivered s =
    let (feed, owned) = complete post.generation delivered s.feed in
    (record s { feed = feed }, owned)

unfoldable pub wind_up : Post → Bool → Items → Items
wind_up post true s =
    record_post_result true (record s { queue = drop (length post.batch) s.queue })
wind_up post false s = record_post_result false s

-- Both halves in a row.
unfoldable pub finish : Post → Bool → Items → Items
finish post delivered s =
    let (settled, owned) = settle post delivered s in
    if owned then wind_up post delivered settled else settled
