-- ===== src/Telemetry/Tests.antt =====
-- Runs of the telemetry feeds and of the relay.
use qlsm_extra.Base.{
  Bool, take, ◌==◌, ℕ, ◌+◌, ◌*◌, ◌≤◌, ◌≡◌, refl, true, false, not, ◌&&◌, ◌||◌, some, List, [], ◌∷◌,
  ◌++◌, length, replicate, arith, ltb, ◌==◌, if◌then◌else◌,
}
use qlsm_extra.Telemetry.Feed.{FeedState, begin_post, check_stuck, complete}
use qlsm_extra.Telemetry.Feed as Feed
use qlsm_extra.Telemetry.Feed.Slot.{Running, owners, complete_owner}
use qlsm_extra.Telemetry.Feed.Slot as Slot
use qlsm_extra.Telemetry.Sched.{FovCache, mem, ack_batch, ack_batch_lem}
use qlsm_extra.Telemetry.Status.{
  opaque, Outcome, answered, failed, post_outcome, relay_reply, relay_body, items_relay_accepted,
  post_outcome-relay_reply, items_relay_accepted-relay,
}
use qlsm_extra.Telemetry.Relay.{Forwarder, idle, enqueue, pop, any_key}
use qlsm_extra.Telemetry.Relay as Relay
use qlsm_extra.Telemetry.Relay.Invariant.{IsSound}
use qlsm_extra.Telemetry.Relay.Place.{Placed, newest, enqueue-newest}
use qlsm_extra.Telemetry.Relay.Tries.{accepts, posts, interleaved-IsSound}
use qlsm_extra.Telemetry.Relay.Drain.{Drained, drain, attempts_left, drain-Drained}
use qlsm_extra.Telemetry.Items.{Items}
use qlsm_extra.Telemetry.Items as Items
use qlsm_extra.Telemetry.Items.Slots as Slots
use qlsm_extra.Telemetry.Items.Delivery as Delivery
use qlsm_extra.Telemetry.Items.Delivery.{no_row_lost}
use qlsm_extra.Telemetry.Session.Delivery.{row_accounted}
use qlsm_extra.Telemetry.Items.Race as Race
use qlsm_extra.Telemetry.Items.Retries as Retries
use qlsm_extra.Telemetry.Session.{Session}
use qlsm_extra.Telemetry.Session as Session
use qlsm_extra.Telemetry.Session.Delivery as Rows

-- A feed that trips after three failures.
abbrev feed : FeedState
feed = Feed.new 15000 3

-- A post that got stuck, and a second one beside it.
abbrev begun : ℕ → Running → Running
begun now r = record {
  feed = (begin_post now r.feed).0;
  workers = (begin_post now r.feed).1 ∷ r.workers;
  passed = r.passed;
}

abbrev checked : ℕ → Running → Running
checked now r = record r { feed = (check_stuck now r.feed).0 }

abbrev rest : Running
rest = record { feed = feed; workers = []; passed = 0 }

abbrev two_workers : Running
two_workers = begun 20100 (checked 20000 (begun 100 rest))

two_workers-Reach : Slot.Reach rest two_workers
unfolding Feed.new begin_post check_stuck
two_workers-Reach =
    Slot.Reach.next
      (Slot.Reach.next (Slot.Reach.next Slot.Reach.here (Slot.Step.begin 100 refl))
        (Slot.Step.stuck 20000 refl))
      (Slot.Step.begin 20100 refl)

two_workers-Taken : Slot.Taken two_workers.workers 0 (1 ∷ [])
unfolding Feed.new begin_post check_stuck
two_workers-Taken = Slot.Taken.later 1 (Slot.Taken.first 0 [])

-- The stuck worker ends late.
complete_owner_example :
    let (after, owned) = complete 0 true two_workers.feed in
    (owners two_workers.feed.post_generation two_workers.workers + two_workers.passed
      ≡ (if two_workers.feed.post_in_flight then 1 else 0))
    × (owned ≡ true
        → (two_workers.feed.post_in_flight ≡ true) × (owners after.post_generation (1 ∷ []) ≡ 0))
    × (owned ≡ false → after ≡ two_workers.feed)
unfolding Feed.new
complete_owner_example = complete_owner feed true refl two_workers-Reach two_workers-Taken

abbrev cache : FovCache ℕ
cache = record { ttl_ms = 30000; entries = (76, (90, 100)) ∷ [] }

ack_batch_lem_example :
    (mem 3 (ack_batch (1 ∷ 2 ∷ 3 ∷ []) (2 ∷ 9 ∷ [])).0
      ≡ (mem 3 (1 ∷ 2 ∷ 3 ∷ []) && not (mem 3 (2 ∷ 9 ∷ []))))
    × (length (ack_batch (1 ∷ 2 ∷ 3 ∷ []) (2 ∷ 9 ∷ [])).0
          + (ack_batch (1 ∷ 2 ∷ 3 ∷ []) (2 ∷ 9 ∷ [])).1
        ≡ 3)
ack_batch_lem_example = ack_batch_lem (1 ∷ 2 ∷ 3 ∷ []) (2 ∷ 9 ∷ []) 3

post_outcome-relay_reply_example :
    (post_outcome (relay_reply (answered 429)) ≡ post_outcome 429)
    × (post_outcome (relay_reply failed) ≡ Outcome.retry)
post_outcome-relay_reply_example = post_outcome-relay_reply 429

items_relay_accepted-relay_example :
    items_relay_accepted (relay_reply (answered 422)) (relay_body (answered 422)) ≡ ltb 422 400
items_relay_accepted-relay_example = items_relay_accepted-relay (answered 422)

-- Two samples of one server: the second takes the place of the first.
abbrev two_samples : Forwarder
two_samples = (enqueue (some 5) 21 (enqueue (some 5) 20 idle).0).0

-- Both come in, the worker posts the second one, and the post fails.
abbrev one_failure :
    Relay.Reach idle
      (Relay.failed (record { key = some 5; sample = 21; retries = 0 }) (pop two_samples))
unfolding enqueue any_key Relay.same_key pop Relay.replace
one_failure =
    Relay.Reach.next
      (Relay.Reach.next
        (Relay.Reach.next (Relay.Reach.next Relay.Reach.here (Relay.Step.accept (some 5) 20))
          (Relay.Step.accept (some 5) 21))
        (Relay.Step.round refl refl))
      (Relay.Step.failure refl)

interleaved-IsSound_example :
    IsSound (Relay.failed (record { key = some 5; sample = 21; retries = 0 }) (pop two_samples))
    × ((sample : ℕ) → posts sample one_failure ≤ 3 * accepts sample one_failure)
interleaved-IsSound_example = interleaved-IsSound one_failure

enqueue-newest_example :
    let g = (enqueue (some 5) 22 two_samples).0 in
    (newest (some 5) g.queue ≡ some 22)
    × Placed
        (record { key = some 5; sample = 22; retries = 0 })
        (any_key (some 5) two_samples.queue)
        two_samples.queue
        g.queue
enqueue-newest_example = enqueue-newest 5 22 two_samples

-- The item feed: one row comes in, and its worker ends.
abbrev items : Items
items = record { queue = []; warned = false; full_drops = 0; feed = feed; cvar_disabled = false }

abbrev with_row : Delivery.System
with_row = record (Delivery.fresh items) {
  items = (Items.on_item_event true true 100 8 items).0;
  posts = Slots.started (Items.on_item_event true true 100 8 items).1 [];
  offered = Delivery.entered true 8 items ++ [];
}

no_row_lost_example : (mem 8 with_row.items.queue || mem 8 with_row.delivered) ≡ true
unfolding Feed.new
no_row_lost_example =
    no_row_lost items 8 refl
      (Delivery.Reach.next Delivery.Reach.here (Delivery.Step.event true true 100 8)) refl

-- A full queue of two batches and a row, the first batch being posted.
abbrev first_rows : List ℕ
first_rows = replicate 12 1

abbrev more_rows : List ℕ
more_rows = replicate 12 2

abbrev busy : Items
busy = record items {
  queue = first_rows ++ (more_rows ++ (3 ∷ []));
  feed = record feed { post_in_flight = true };
}

late_delete-loses_example :
    ((Race.between 100 busy first_rows more_rows (3 ∷ [])).1
      ≡ some (Race.worker 100 busy first_rows more_rows (3 ∷ [])))
    × ((Race.resumed 100 busy first_rows more_rows (3 ∷ [])).queue ≡ more_rows ++ (3 ∷ []))
    × ((Items.finish
          (Race.worker 100 busy first_rows more_rows (3 ∷ []))
          true
          (Race.resumed 100 busy first_rows more_rows (3 ∷ []))).queue
        ≡ 3 ∷ [])
late_delete-loses_example =
    Race.late_delete-loses 100 busy first_rows more_rows (3 ∷ []) refl refl refl refl

-- The session feed: one row comes in.
abbrev session : Session
session = record { queue = []; warned = false; acks = []; feed = feed; cvar_disabled = false }

abbrev with_event : Rows.System
with_event = record (Rows.fresh session) {
  session = Session.enqueue true 8 session;
  offered = 8 ∷ [];
  evicted = Rows.pushed_out true [] ++ [];
}

row_accounted_example :
    (mem 8 with_event.session.queue || (mem 8 with_event.settled || mem 8 with_event.evicted))
    ≡ true
row_accounted_example =
    row_accounted session 8 refl (Rows.Reach.next Rows.Reach.here (Rows.Step.event true 8)) refl

-- A batch that the hub rejects for good, on each attempt.
abbrev refusals : List Items.Answer
refusals = Items.answer 422 opaque ∷ Items.raised ∷ Items.answer 500 opaque ∷ []

abbrev one_row : Items.Post
one_row = record { generation = 0; batch = 8 ∷ [] }

-- The second attempt is accepted.
abbrev second_chance : List Items.Answer
second_chance = Items.raised ∷ Items.answer 202 opaque ∷ []

abbrev two_rows : Items
two_rows = record busy { queue = 8 ∷ 9 ∷ [] }

worker-queue_example :
    (Items.finish one_row (Items.attempts Items.max_retries second_chance) two_rows).queue ≡ (
      if Retries.any_accepted (take Items.max_retries second_chance)
        && (0 == two_rows.feed.post_generation)
      then 9 ∷ []
      else 8 ∷ 9 ∷ [])
worker-queue_example = Retries.worker-queue one_row second_chance two_rows (9 ∷ []) refl

refused-stays_example :
    (Items.finish one_row (Items.attempts Items.max_retries refusals) busy).queue ≡ busy.queue
refused-stays_example = Retries.refused-stays one_row refusals busy (omega arith, (omega arith, tt))

-- Two samples of two servers; every post fails but the fourth from the end.
abbrev two_servers : Forwarder
two_servers = (enqueue (some 6) 30 (enqueue (some 5) 20 idle).0).0

abbrev fourth : ℕ → Bool
fourth n = n == 3

two_servers-Reach : Relay.Reach idle two_servers
two_servers-Reach =
    Relay.Reach.next (Relay.Reach.next Relay.Reach.here (Relay.Step.accept (some 5) 20))
      (Relay.Step.accept (some 6) 30)

drain-Drained_example :
    Drained two_servers (drain fourth (attempts_left two_servers.queue) two_servers)
unfolding enqueue any_key Relay.same_key
drain-Drained_example = drain-Drained two_servers-Reach refl fourth
