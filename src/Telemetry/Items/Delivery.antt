-- ===== src/Telemetry/Items/Delivery.antt =====
-- No item event is lost while nothing runs between the two halves of a worker's end (`finish`).
use mathlib.Core.List.{append-nil}
use qlsm_extra.Base.{
  ℕ, ◌≡◌, refl, ap, Bool, true, false, not, ◌&&◌, ◌||◌, Bool-cases, inl, inr, List, [], ◌∷◌, ◌++◌,
  arith, leb, if◌then◌else◌, length,
}
use qlsm_extra.Telemetry.Feed.{begin_post}
use qlsm_extra.Telemetry.Sched.{mem}
use qlsm_extra.Telemetry.Items.{
  Items, Post, max_queue, warn_pressure, flush, on_item_event, drive, finish,
}
use qlsm_extra.Telemetry.Items.Slots.{
  IsOk, Taken, started, takes, on_item_event-IsOk, drive-IsOk, finish-IsOk, finish-queue,
  finish_rows,
}

-- The feed with its running workers, and two records of the past: the rows that entered the queue,
-- and those of the batches that were delivered.
pub record System : Type 0 where
  pub items : Items
  pub posts : List Post
  pub offered : List ℕ
  pub delivered : List ℕ

-- The row of an event, if it enters the queue.
abbrev pub entered : Bool → ℕ → Items → List ℕ
entered eligible row s = if eligible && not (leb max_queue (length s.queue)) then row ∷ [] else []

pub data Step (y : System) : System → Type 0 where
  event :
      (eligible has_url : Bool) (now row : ℕ)
      → Step y (record y {
        items = (on_item_event eligible has_url now row y.items).0;
        posts = started (on_item_event eligible has_url now row y.items).1 y.posts;
        offered = entered eligible row y.items ++ y.offered;
      })
  frame :
      (enabled has_url : Bool) (now : ℕ)
      → Step y (record y {
        items = (drive enabled has_url now y.items).0;
        posts = started (drive enabled has_url now y.items).1 y.posts;
      })
  done :
      (ok : Bool) {p : Post} {rest : List Post}
      → Taken p y.posts rest
      → Step y (record y {
        items = finish p ok y.items;
        posts = rest;
        delivered = if ok then p.batch ++ y.delivered else y.delivered;
      })

pub data Reach (y : System) : System → Type 0 where
  here : Reach y y
  next : {z w : System} → Reach y z → Step z w → Reach y w

mem-append : (row : ℕ) (xs ys : List ℕ) → mem row (xs ++ ys) ≡ (mem row xs || mem row ys)
mem-append row [] ys = refl
mem-append row (x ∷ xs) ys = ground (arith, mem-append row xs ys)

on_item_event-queue :
    (eligible has_url : Bool) (now row : ℕ) (s : Items)
    → (on_item_event eligible has_url now row s).0.queue ≡ s.queue ++ entered eligible row s
unfolding on_item_event warn_pressure flush begin_post
on_item_event-queue eligible has_url now row s = ground (arith, append-nil s.queue)

Step-kept :
    {y z : System} (row : ℕ)
    → Step y z
    → IsOk y.items y.posts
    → (mem row y.offered ≡ true → (mem row y.items.queue || mem row y.delivered) ≡ true)
    → mem row z.offered ≡ true
    → (mem row z.items.queue || mem row z.delivered) ≡ true
Step-kept {y} row (event eligible has_url now r) o kept h = ground (
  arith,
  on_item_event-queue eligible has_url now r y.items,
  mem-append row y.items.queue (entered eligible r y.items),
  mem-append row (entered eligible r y.items) y.offered,
)
Step-kept {y} row (frame enabled has_url now) o kept h =
    ground (arith, drive-IsOk enabled has_url now y.items y.posts o)
Step-kept {y} row (done ok {p = p} {rest = rest} t) o kept h =
    elim (Bool-cases (takes p ok y.items)) [
      | inl e ↦ ground (
        arith,
        ap (mem row) (finish_rows ok y.items t o e),
        mem-append row p.batch (finish p ok y.items).queue,
        mem-append row p.batch y.delivered,
      )
      | inr e ↦ ground (arith, finish-queue p ok y.items, mem-append row p.batch y.delivered)
    ]

Step-IsOk : {y z : System} → Step y z → IsOk y.items y.posts → IsOk z.items z.posts
Step-IsOk {y} (event eligible has_url now row) o =
    on_item_event-IsOk eligible has_url now row y.items y.posts o
Step-IsOk {y} (frame enabled has_url now) o = (drive-IsOk enabled has_url now y.items y.posts o).0
Step-IsOk {y} (done ok t) o = finish-IsOk ok y.items t o

-- The feed with an empty queue and no post in flight.
abbrev pub fresh : Items → System
fresh s = record { items = s; posts = []; offered = []; delivered = [] }

Reach-kept :
    {s : Items} {y : System}
    → s.feed.post_in_flight ≡ false
    → Reach (fresh s) y
    → IsOk y.items y.posts
      × ((row : ℕ)
          → mem row y.offered ≡ true
          → (mem row y.items.queue || mem row y.delivered) ≡ true)
Reach-kept free here = (record { old = tt; owned = rw free; front = tt }, λ row h. cc)
Reach-kept free (next path step) =
    let (o, kept) = Reach-kept free path in
    (Step-IsOk step o, λ row h. Step-kept row step o (kept row) h)

-- In every interleaving of pickups, frames and ending workers, stuck and late ones included: a row
-- that entered the queue is still queued or was part of a delivered batch. (The end of a worker is
-- one step here.)
pub no_row_lost :
    (s : Items) {y : System} (row : ℕ)
    → s.feed.post_in_flight ≡ false
    → Reach (fresh s) y
    → mem row y.offered ≡ true
    → (mem row y.items.queue || mem row y.delivered) ≡ true
no_row_lost s row free path h = (Reach-kept free path).1 row h
