-- ===== src/Telemetry/Items/Slots.antt =====
-- The slot of the item feed: its owner's batch is the front of the queue, under every operation.
use qlsm_extra.Base.{
  ℕ, zero, suc, ◌+◌, ◌≤◌, ◌≡◌, refl, Bool, true, false, ◌&&◌, Option, none, some, List, [], ◌∷◌,
  ◌++◌, arith, ◌==◌, if◌then◌else◌, length, take, drop, take-append-drop,
}
use qlsm_extra.Telemetry.Feed.{
  FeedState, sync_enabled, reset_circuit, record_result, check_stuck, begin_post, complete,
}
use qlsm_extra.Telemetry.Items.{
  Items, Post, batch_size, record_post_result, warn_pressure, flush, on_item_event, sync_feed,
  drive_enabled, drive, settle, wind_up, finish,
}

abbrev pub owners : ℕ → List Post → ℕ
owners g [] = 0
owners g (p ∷ ps) = if p.generation == g then owners g ps + 1 else owners g ps

abbrev pub NoneAbove : ℕ → List Post → Type 0
NoneAbove n [] = Unit
NoneAbove n (p ∷ ps) = (p.generation ≤ n) × NoneAbove n ps

-- The batch of the worker that owns the slot is the front of the queue.
abbrev pub FrontOk : ℕ → List ℕ → List Post → Type 0
FrontOk g queue [] = Unit
FrontOk g queue (p ∷ ps) =
    (p.generation ≡ g → take (length p.batch) queue ≡ p.batch) × FrontOk g queue ps

pub record IsOk (s : Items) (ps : List Post) : Type 0 where
  pub old : NoneAbove s.feed.post_generation ps
  pub owned : owners s.feed.post_generation ps ≡ (if s.feed.post_in_flight then 1 else 0)
  pub front : FrontOk s.feed.post_generation s.queue ps

NoneAbove-suc : (n : ℕ) (ps : List Post) → NoneAbove n ps → NoneAbove (n + 1) ps
NoneAbove-suc n [] h = tt
NoneAbove-suc n (p ∷ ps) h = (omega arith, NoneAbove-suc n ps h.1)

owners-above : (n : ℕ) (ps : List Post) → NoneAbove n ps → owners (n + 1) ps ≡ 0
owners-above n [] h = refl
owners-above n (p ∷ ps) h = ground (arith, owners-above n ps h.1)

FrontOk-no_owner : (g : ℕ) (queue : List ℕ) (ps : List Post) → owners g ps ≡ 0 → FrontOk g queue ps
FrontOk-no_owner g queue [] h = tt
FrontOk-no_owner g queue (p ∷ ps) h = ground (arith, FrontOk-no_owner g queue ps)

take-append_prefix :
    (batch queue more : List ℕ)
    → take (length batch) queue ≡ batch
    → take (length batch) (queue ++ more) ≡ batch
take-append_prefix [] queue more h = refl
take-append_prefix (x ∷ batch) [] more h = cc
take-append_prefix (x ∷ batch) (y ∷ queue) more h =
    ground (arith, take-append_prefix batch queue more)

FrontOk-append :
    (g : ℕ) (queue more : List ℕ) (ps : List Post)
    → FrontOk g queue ps
    → FrontOk g (queue ++ more) ps
FrontOk-append g queue more [] h = tt
FrontOk-append g queue more (p ∷ ps) h =
    (λ e. take-append_prefix p.batch queue more (h.0 e), FrontOk-append g queue more ps h.1)

take-length-take : (n : ℕ) (queue : List ℕ) → take (length (take n queue)) queue ≡ take n queue
take-length-take zero queue = refl
take-length-take (suc n) [] = refl
take-length-take (suc n) (x ∷ queue) = rw (take-length-take n queue)

abbrev pub started : Option Post → List Post → List Post
started none ps = ps
started (some p) ps = p ∷ ps

flush-IsOk :
    (has_url : Bool) (now : ℕ) (s : Items) (ps : List Post)
    → IsOk s ps
    → let (s', post) = flush has_url now s in IsOk s' (started post ps) × (s'.queue ≡ s.queue)
unfolding flush begin_post
flush-IsOk has_url now s ps o = ground (arith, take-length-take batch_size s.queue)

record_post_result-IsOk :
    (ok : Bool) (s : Items) (ps : List Post)
    → IsOk s ps
    → IsOk (record_post_result ok s) ps × ((record_post_result ok s).queue ≡ s.queue)
unfolding record_post_result record_result
record_post_result-IsOk true s ps o = ground arith
record_post_result-IsOk false s ps o = ground arith

-- The state in which `on_item_event` calls `_flush_items_async`.
abbrev appended : ℕ → Items → Items
appended row s = warn_pressure (record s { queue = s.queue ++ (row ∷ []) })

appended-IsOk : (row : ℕ) (s : Items) (ps : List Post) → IsOk s ps → IsOk (appended row s) ps
unfolding warn_pressure
appended-IsOk row s ps o =
    ground (arith, FrontOk-append s.feed.post_generation s.queue (row ∷ []) ps o.front)

pub on_item_event-IsOk :
    (eligible has_url : Bool) (now row : ℕ) (s : Items) (ps : List Post)
    → IsOk s ps
    → let (s', post) = on_item_event eligible has_url now row s in IsOk s' (started post ps)
unfolding on_item_event
on_item_event-IsOk eligible has_url now row s ps o =
    ground (arith, flush-IsOk has_url now (appended row s) ps (appended-IsOk row s ps o))

pub sync_feed_slot :
    (enabled : Bool) (feed : FeedState)
    → ((sync_feed enabled feed).post_generation ≡ feed.post_generation)
      × ((sync_feed enabled feed).post_in_flight ≡ feed.post_in_flight)
unfolding sync_feed sync_enabled reset_circuit
sync_feed_slot true feed = ground arith
sync_feed_slot false feed = ground arith

check_stuck-IsOk :
    (now : ℕ) (s : Items) (ps : List Post)
    → IsOk s ps
    → IsOk (record s { feed = (check_stuck now s.feed).0 }) ps
unfolding check_stuck
check_stuck-IsOk now s ps o = ground (
  arith,
  NoneAbove-suc s.feed.post_generation ps o.old,
  owners-above s.feed.post_generation ps o.old,
  FrontOk-no_owner (s.feed.post_generation + 1) s.queue ps,
)

drive_enabled-IsOk :
    (has_url : Bool) (now : ℕ) (s : Items) (ps : List Post)
    → IsOk s ps
    → let (s', post) = drive_enabled has_url now s in
      IsOk s' (started post ps) × (s'.queue ≡ s.queue)
unfolding drive_enabled
drive_enabled-IsOk has_url now s ps o =
    let checked = record s { feed = (check_stuck now s.feed).0 } in
    ground (
      arith,
      flush-IsOk has_url now s ps o,
      check_stuck-IsOk now s ps o,
      record_post_result-IsOk false checked ps,
    )

pub drive-IsOk :
    (enabled has_url : Bool) (now : ℕ) (s : Items) (ps : List Post)
    → IsOk s ps
    → let (s', post) = drive enabled has_url now s in
      IsOk s' (started post ps) × (s'.queue ≡ s.queue)
unfolding drive
drive-IsOk enabled has_url now s ps o =
    let synced = record s { feed = sync_feed enabled s.feed } in
    ground (arith, sync_feed_slot enabled s.feed, drive_enabled-IsOk has_url now synced ps)

-- The list without one of its posts.
pub data Taken (p : Post) : List Post → List Post → Type 0 where
  first : {ps : List Post} → Taken p (p ∷ ps) ps
  later : (q : Post) {ps rest : List Post} → Taken p ps rest → Taken p (q ∷ ps) (q ∷ rest)

Taken-NoneAbove :
    (n : ℕ) {p : Post} {ps rest : List Post} → Taken p ps rest → NoneAbove n ps → NoneAbove n rest
Taken-NoneAbove n first h = h.1
Taken-NoneAbove n (later q t) h = (h.0, Taken-NoneAbove n t h.1)

Taken-owners :
    (g : ℕ) {p : Post} {ps rest : List Post}
    → Taken p ps rest
    → owners g ps ≡ (if p.generation == g then owners g rest + 1 else owners g rest)
Taken-owners g first = refl
Taken-owners g (later q t) = ground (arith, Taken-owners g t)

Taken-FrontOk :
    (g : ℕ) (queue : List ℕ) {p : Post} {ps rest : List Post}
    → Taken p ps rest
    → FrontOk g queue ps
    → (p.generation ≡ g → take (length p.batch) queue ≡ p.batch) × FrontOk g queue rest
Taken-FrontOk g queue first h = h
Taken-FrontOk g queue (later q t) h =
    let (own, others) = Taken-FrontOk g queue t h.1 in (own, (h.0, others))

-- Whether the end of a worker takes its rows off the queue.
abbrev pub takes : Post → Bool → Items → Bool
takes p delivered s = delivered && (p.generation == s.feed.post_generation)

pub finish-queue :
    (p : Post) (delivered : Bool) (s : Items)
    → (finish p delivered s).queue
      ≡ (if takes p delivered s then drop (length p.batch) s.queue else s.queue)
unfolding finish settle wind_up complete record_post_result
finish-queue p true s = ground arith
finish-queue p false s = ground arith

settle-IsOk :
    (delivered : Bool) (queue : List ℕ) (s : Items) {p : Post} {ps rest : List Post}
    → Taken p ps rest
    → IsOk s ps
    → p.generation ≡ s.feed.post_generation
    → IsOk (record (settle p delivered s).0 { queue = queue }) rest
unfolding settle complete
settle-IsOk delivered queue s {p} {ps} {rest} t o e = ground (
  arith,
  Taken-NoneAbove s.feed.post_generation t o.old,
  Taken-owners s.feed.post_generation t,
  FrontOk-no_owner s.feed.post_generation queue rest,
)

-- A late worker that no longer owns the slot can go without a trace.
Taken-IsOk :
    {s : Items} {p : Post} {ps rest : List Post}
    → Taken p ps rest
    → IsOk s ps
    → (p.generation == s.feed.post_generation) ≡ false
    → IsOk s rest
Taken-IsOk {s} t o stale = ground (
  arith,
  Taken-NoneAbove s.feed.post_generation t o.old,
  Taken-owners s.feed.post_generation t,
  Taken-FrontOk s.feed.post_generation s.queue t o.front,
)

settle_owned :
    (delivered : Bool) (s : Items) (p : Post)
    → ((settle p delivered s).1 ≡ (p.generation == s.feed.post_generation))
      × ((settle p delivered s).0.queue ≡ s.queue)
      × ((p.generation == s.feed.post_generation) ≡ false → (settle p delivered s).0 ≡ s)
unfolding settle complete
settle_owned delivered s p = ground arith

wind_up-IsOk :
    (delivered : Bool) (s : Items) {p : Post} {ps rest : List Post}
    → Taken p ps rest
    → IsOk s ps
    → p.generation ≡ s.feed.post_generation
    → IsOk (wind_up p delivered (settle p delivered s).0) rest
unfolding wind_up
wind_up-IsOk true s {p} {ps} {rest} t o e =
    (record_post_result-IsOk true _ rest
      (settle-IsOk true (drop (length p.batch) (settle p true s).0.queue) s t o e)).0
wind_up-IsOk false s {p} {ps} {rest} t o e =
    (record_post_result-IsOk false _ rest (settle-IsOk false (settle p false s).0.queue s t o e)).0

pub finish-IsOk :
    (delivered : Bool) (s : Items) {p : Post} {ps rest : List Post}
    → Taken p ps rest
    → IsOk s ps
    → IsOk (finish p delivered s) rest
unfolding finish
finish-IsOk delivered s {p} {ps} {rest} t o =
    ground (arith, settle_owned delivered s p, wind_up-IsOk delivered s t o, Taken-IsOk t o)

-- The rows that a worker takes off are those that it posted.
pub finish_rows :
    (delivered : Bool) (s : Items) {p : Post} {ps rest : List Post}
    → Taken p ps rest
    → IsOk s ps
    → takes p delivered s ≡ true
    → p.batch ++ (finish p delivered s).queue ≡ s.queue
finish_rows delivered s {p} {ps} {rest} t o h = ground (
  arith,
  finish-queue p delivered s,
  Taken-FrontOk s.feed.post_generation s.queue t o.front,
  take-append-drop (length p.batch) s.queue,
)
