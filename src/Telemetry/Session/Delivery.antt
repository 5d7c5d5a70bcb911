-- ===== src/Telemetry/Session/Delivery.antt =====
-- What takes a row off the session queue, in every interleaving of the game thread and the workers.
use qlsm_extra.Base.{
  ℕ, ◌≡◌, refl, Bool, true, false, not, ◌&&◌, ◌||◌, Option, none, some, List, [], ◌∷◌, ◌++◌, arith,
  leb, ◌==◌, if◌then◌else◌, length,
}
use qlsm_extra.Telemetry.Sched.{mem, ack_batch, ack_batch_lem}
use qlsm_extra.Telemetry.Status.{Outcome, post_outcome}
use qlsm_extra.Telemetry.Session.{
  Session, Post, max_queue, record_post_result, enqueue, ack_all, apply_acks, drive_start,
  sync_feed, drive_check, drive_post, hand_over, finish,
}

-- The feed, the workers that run, and three records of the past: the rows that entered the queue,
-- the rows of batches that the relay accepted or rejected for good, and the rows that the bound of
-- the queue pushed out.
pub record System : Type 0 where
  pub session : Session
  pub posts : List Post
  pub offered : List ℕ
  pub settled : List ℕ
  pub evicted : List ℕ

-- The row that `enqueue` pushes out.
abbrev pub pushed_out : Bool → List ℕ → List ℕ
pushed_out eligible [] = []
pushed_out eligible (oldest ∷ queue) =
    if eligible && leb max_queue (length (oldest ∷ queue)) then oldest ∷ [] else []

abbrev pub settles : ℕ → List ℕ → List ℕ
settles status batch = elim (post_outcome status) [ Outcome.retry ↦ [] | _ ↦ batch ]

abbrev pub started : Option Post → List Post → List Post
started none ps = ps
started (some p) ps = p ∷ ps

pub data Taken (p : Post) : List Post → List Post → Type 0 where
  first : {ps : List Post} → Taken p (p ∷ ps) ps
  later : (q : Post) {ps rest : List Post} → Taken p ps rest → Taken p (q ∷ ps) (q ∷ rest)

-- The parts of the frame hook come in any order and number here, which covers the order of the hook;
-- a worker hands over before it ends, and may also end without an answer.
pub data Step (y : System) : System → Type 0 where
  event :
      (eligible : Bool) (row : ℕ)
      → Step y (record y {
        session = enqueue eligible row y.session;
        offered = if eligible then row ∷ y.offered else y.offered;
        evicted = pushed_out eligible y.session.queue ++ y.evicted;
      })
  frame_start : (enabled : Bool) → Step y (record y { session = (drive_start enabled y.session).0 })
  frame_check :
      (frame_tick now : ℕ)
      → Step y (record y { session = (drive_check frame_tick now y.session).0 })
  frame_post :
      (now : ℕ)
      → Step y (record y {
        session = (drive_post now y.session).0;
        posts = started (drive_post now y.session).1 y.posts;
      })
  answer :
      (status : ℕ) {p : Post} {rest : List Post}
      → Taken p y.posts rest
      → Step y (record y {
        session = hand_over p status y.session;
        settled = settles status p.batch ++ y.settled;
      })
  done :
      (ok : Bool) {p : Post} {rest : List Post}
      → Taken p y.posts rest
      → Step y (record y { session = finish p ok y.session; posts = rest })

pub data Reach (y : System) : System → Type 0 where
  here : Reach y y
  next : {z w : System} → Reach y z → Step z w → Reach y w

-- Whether a row is in one of the batches.
abbrev pub mem_any : ℕ → List (List ℕ) → Bool
mem_any row [] = false
mem_any row (batch ∷ acks) = mem row batch || mem_any row acks

-- For one row: it is accounted for, and a batch that waits to be taken off is settled.
pub record IsKept (row : ℕ) (y : System) : Type 0 where
  pub kept :
      mem row y.offered ≡ true
      → (mem row y.session.queue || (mem row y.settled || mem row y.evicted)) ≡ true
  pub acked : mem_any row y.session.acks ≡ true → mem row y.settled ≡ true

mem-append : (row : ℕ) (xs ys : List ℕ) → mem row (xs ++ ys) ≡ (mem row xs || mem row ys)
mem-append row [] ys = refl
mem-append row (x ∷ xs) ys = ground (arith, mem-append row xs ys)

mem_any-snoc :
    (row : ℕ) (acks : List (List ℕ)) (batch : List ℕ)
    → mem_any row (acks ++ (batch ∷ [])) ≡ (mem_any row acks || mem row batch)
mem_any-snoc row [] batch = ground arith
mem_any-snoc row (b ∷ acks) batch = ground (arith, mem_any-snoc row acks batch)

ack_all-mem :
    (row : ℕ) (acks : List (List ℕ)) (queue : List ℕ)
    → mem row (ack_all acks queue) ≡ (mem row queue && not (mem_any row acks))
unfolding ack_all
ack_all-mem row [] queue = ground arith
ack_all-mem row (batch ∷ acks) queue =
    ground
      (arith, ack_all-mem row acks (ack_batch queue batch).0, (ack_batch_lem queue batch row).0)

apply_acks-IsKept :
    (row : ℕ) (y : System) → IsKept row y → IsKept row (record y { session = apply_acks y.session })
unfolding apply_acks
apply_acks-IsKept row y k = ground (arith, ack_all-mem row y.session.acks y.session.queue)

-- The parts that touch neither the queue nor the acknowledgements.
same-IsKept :
    (row : ℕ) (y : System) (s : Session) (ps : List Post)
    → s.queue ≡ y.session.queue
    → s.acks ≡ y.session.acks
    → IsKept row y
    → IsKept row (record y { session = s; posts = ps })
same-IsKept row y s ps e e' k = ground arith

finish_same :
    (p : Post) (ok : Bool) (s : Session)
    → ((finish p ok s).queue ≡ s.queue) × ((finish p ok s).acks ≡ s.acks)
unfolding finish record_post_result
finish_same p ok s = ground arith

drive_check_same :
    (t now : ℕ) (s : Session)
    → ((drive_check t now s).0.queue ≡ s.queue) × ((drive_check t now s).0.acks ≡ s.acks)
unfolding drive_check record_post_result
drive_check_same t now s = ground arith

drive_post_same :
    (now : ℕ) (s : Session)
    → ((drive_post now s).0.queue ≡ (apply_acks s).queue)
      × ((drive_post now s).0.acks ≡ (apply_acks s).acks)
unfolding drive_post
drive_post_same now s = ground arith

enqueue-mem :
    (eligible : Bool) (row r : ℕ) (queue : List ℕ) (s : Session)
    → s.queue ≡ queue
    → ((enqueue eligible r s).acks ≡ s.acks)
      × ((mem row (enqueue eligible r s).queue || mem row (pushed_out eligible queue))
          ≡ (mem row queue || (eligible && (row == r))))
unfolding enqueue
enqueue-mem false row r [] s e = ground arith
enqueue-mem false row r (oldest ∷ queue) s e = ground arith
enqueue-mem true row r [] s e = ground arith
enqueue-mem true row r (oldest ∷ queue) s e =
    ground (arith, mem-append row queue (r ∷ []), mem-append row (oldest ∷ queue) (r ∷ []))

event-IsKept :
    (row : ℕ) (eligible : Bool) (r : ℕ) (y : System)
    → IsKept row y
    → IsKept row (record y {
      session = enqueue eligible r y.session;
      offered = if eligible then r ∷ y.offered else y.offered;
      evicted = pushed_out eligible y.session.queue ++ y.evicted;
    })
event-IsKept row eligible r y k = ground (
  arith,
  enqueue-mem eligible row r y.session.queue y.session refl,
  mem-append row (pushed_out eligible y.session.queue) y.evicted,
)

answer-IsKept :
    (row status : ℕ) (p : Post) (y : System)
    → IsKept row y
    → IsKept row (record y {
      session = hand_over p status y.session;
      settled = settles status p.batch ++ y.settled;
    })
unfolding hand_over
answer-IsKept row status p y k =
    ground (arith, mem_any-snoc row y.session.acks p.batch, mem-append row p.batch y.settled)

Step-IsKept : {y z : System} (row : ℕ) → Step y z → IsKept row y → IsKept row z
unfolding drive_start
Step-IsKept {y} row (event eligible r) k = event-IsKept row eligible r y k
Step-IsKept {y} row (frame_start enabled) k = ground (
  arith,
  apply_acks-IsKept row
      (record y { session = record y.session { feed = sync_feed enabled y.session.feed } }),
)
Step-IsKept {y} row (frame_check t now) k =
    same-IsKept row y _ y.posts (drive_check_same t now y.session).0
      (drive_check_same t now y.session).1 k
Step-IsKept {y} row (frame_post now) k =
    same-IsKept row (record y { session = apply_acks y.session }) _ _
      (drive_post_same now y.session).0 (drive_post_same now y.session).1
      (apply_acks-IsKept row y k)
Step-IsKept {y} row (answer status {p = p} t) k = answer-IsKept row status p y k
Step-IsKept {y} row (done ok {p = p} {rest = rest} t) k =
    same-IsKept row y _ rest (finish_same p ok y.session).0 (finish_same p ok y.session).1 k

-- The feed with no row queued, no batch to take off and no worker.
abbrev pub fresh : Session → System
fresh s = record { session = s; posts = []; offered = []; settled = []; evicted = [] }

Reach-IsKept : (row : ℕ) (s : Session) {y : System} → s.acks ≡ [] → Reach (fresh s) y → IsKept row y
Reach-IsKept row s e here = ground arith
Reach-IsKept row s e (next path step) = Step-IsKept row step (Reach-IsKept row s e path)

-- In every interleaving of events, frames and workers, late and stuck ones included: a session row
-- leaves the queue only if a batch with it was accepted or rejected for good, or if the bound of the
-- queue pushed it out.
pub row_accounted :
    (s : Session) {y : System} (row : ℕ)
    → s.acks ≡ []
    → Reach (fresh s) y
    → mem row y.offered ≡ true
    → (mem row y.session.queue || (mem row y.settled || mem row y.evicted)) ≡ true
row_accounted s row none_left path h = (Reach-IsKept row s none_left path).kept h
