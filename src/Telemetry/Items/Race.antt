-- ===== src/Telemetry/Items/Race.antt =====
-- What happens when a frame runs between the two halves of a worker's end: `complete` has freed the
-- slot, and the delivered rows still stand in the queue.
use qlsm_extra.Base.{
  ℕ, suc, ◌≡◌, ◌≢◌, refl, true, false, Option, some, List, [], ◌∷◌, ◌++◌, arith, length, take, drop,
  drop-length_append,
}
use qlsm_extra.Telemetry.Feed.{begin_post, complete, record_result}
use qlsm_extra.Telemetry.Items.{
  Items, Post, batch_size, flush, drive, drive_enabled, sync_feed, settle, wind_up, finish,
  record_post_result,
}
use qlsm_extra.Telemetry.Items.Slots.{sync_feed_slot, finish-queue}

take-length_append : (batch rest : List ℕ) → take (length batch) (batch ++ rest) ≡ batch
take-length_append [] rest = refl
take-length_append (x ∷ batch) rest = rw (take-length_append batch rest)

settle_frees :
    (p : Post) (s : Items)
    → p.generation ≡ s.feed.post_generation
    → let after = (settle p true s).0 in
      (after.feed.post_in_flight ≡ false)
      × (after.feed.post_generation ≡ s.feed.post_generation)
      × (after.queue ≡ s.queue)
unfolding settle complete
settle_frees p s e = ground arith

flush_free :
    (now : ℕ) (s : Items)
    → s.feed.post_in_flight ≡ false
    → s.queue ≢ []
    → let (after, post) = flush true now s in
      (post
        ≡ some (record { generation = s.feed.post_generation; batch = take batch_size s.queue }))
      × (after.feed.post_generation ≡ s.feed.post_generation)
      × (after.queue ≡ s.queue)
unfolding flush begin_post
flush_free now s free some_rows = ground arith

drive_free :
    (now : ℕ) (s : Items)
    → s.feed.post_in_flight ≡ false
    → s.queue ≢ []
    → let (after, post) = drive true true now s in
      (post
        ≡ some (record { generation = s.feed.post_generation; batch = take batch_size s.queue }))
      × (after.feed.post_generation ≡ s.feed.post_generation)
      × (after.queue ≡ s.queue)
unfolding drive drive_enabled
drive_free now s free some_rows =
    ground (
      arith,
      sync_feed_slot true s.feed,
      flush_free now (record s { feed = sync_feed true s.feed }),
    )

wind_up_drops :
    (p : Post) (s : Items)
    → ((wind_up p true s).queue ≡ drop (length p.batch) s.queue)
      × ((wind_up p true s).feed.post_generation ≡ s.feed.post_generation)
unfolding wind_up record_post_result record_result
wind_up_drops p s = (refl, refl)

append-ne-nil : (n : ℕ) (xs ys : List ℕ) → length xs ≡ suc n → xs ++ ys ≢ []
append-ne-nil n [] ys h = absurd (omega arith)
append-ne-nil n (x ∷ xs) ys h = λ e. cc

module _ (now : ℕ) (s : Items) (sent next rest : List ℕ) where
  -- The worker of the rows `sent` completes, a frame runs, and the worker goes on.
  abbrev pub worker : Post
  worker = record { generation = s.feed.post_generation; batch = sent }

  abbrev pub completed : Items
  completed = (settle worker true s).0

  abbrev pub between : Items × Option Post
  between = drive true true now completed

  abbrev pub resumed : Items
  resumed = wind_up worker true between.0

  -- The frame posts the delivered rows a second time. When that worker ends too, the rows behind
  -- them are taken off the queue as well: as many as a batch has, and in no batch that was posted.
  pub late_delete-loses :
      s.queue ≡ sent ++ (next ++ rest)
      → length sent ≡ batch_size
      → length next ≡ batch_size
      → s.feed.post_in_flight ≡ true
      → (between.1 ≡ some worker)
        × (resumed.queue ≡ next ++ rest)
        × ((finish worker true resumed).queue ≡ rest)
  late_delete-loses q n m busy =
      let (freed, gen, same) = settle_frees worker s refl in
      let (posted, gen', same') =
        drive_free now completed freed (rw (same, q) (append-ne-nil 11 sent (next ++ rest) n)) in
      let (dropped, gen'') = wind_up_drops worker between.0 in
      let queue : resumed.queue ≡ next ++ rest =
        ground (arith, drop-length_append sent (next ++ rest)) in
      (
        ground (arith, take-length_append sent (next ++ rest)),
        queue,
        ground (arith, finish-queue worker true resumed, drop-length_append next rest),
      )
