-- ===== src/Telemetry/Feed/Slot.antt =====
-- Who owns the slot of a feed while workers finish late: the game thread begins posts and takes
-- back stuck ones, each worker completes once, in any order. The source takes no lock: a `complete` is
-- two steps, its test and its writes, and a `check_stuck` between the two is left out, since the late
-- worker then frees the slot of the next one.
use qlsm_extra.Base.{
  ℕ, ◌+◌, ◌≤◌, ◌≡◌, refl, Bool, true, false, List, [], ◌∷◌, arith, ◌==◌, if◌then◌else◌,
}
use qlsm_extra.Telemetry.Feed.{FeedState, begin_post, check_stuck, complete}

-- A feed with the generations of the workers that still run, and the number of those that have
-- passed the test of `complete` and not yet written.
pub record Running : Type 0 where
  pub feed : FeedState
  pub workers : List ℕ
  pub passed : ℕ

-- The second half of `complete`: what it writes when the generation is the current one.
unfoldable pub written : Bool → FeedState → FeedState
written ok s = record s {
  posts_ok = if ok then s.posts_ok + 1 else s.posts_ok;
  posts_fail = if ok then s.posts_fail else s.posts_fail + 1;
  post_in_flight = false;
  post_in_flight_since = 0;
}

-- `complete` is its test and its writes.
complete_halves :
    (generation : ℕ) (ok : Bool) (s : FeedState)
    → complete generation ok s
      ≡ (if generation == s.post_generation then (written ok s, true) else (s, false))
unfolding complete written
complete_halves generation ok s = ground arith

-- The list without the worker at a position, and that worker's generation.
pub data Taken : List ℕ → ℕ → List ℕ → Type 0 where
  first : (g : ℕ) (ws : List ℕ) → Taken (g ∷ ws) g ws
  later : (v : ℕ) {g : ℕ} {ws rest : List ℕ} → Taken ws g rest → Taken (v ∷ ws) g (v ∷ rest)

pub data Step (r : Running) : Running → Type 0 where
  -- `begin_post` stands behind a test of `post_in_flight` everywhere.
  begin :
      (now : ℕ)
      → r.feed.post_in_flight ≡ false
      → Step r (record {
        feed = (begin_post now r.feed).0;
        workers = (begin_post now r.feed).1 ∷ r.workers;
        passed = r.passed;
      })
  -- Not between the two halves of a `complete`.
  stuck : (now : ℕ) → r.passed ≡ 0 → Step r (record r { feed = (check_stuck now r.feed).0 })
  -- The two ends of the test.
  not_owned :
      {g : ℕ} {rest : List ℕ}
      → Taken r.workers g rest
      → (g == r.feed.post_generation) ≡ false
      → Step r (record r { workers = rest })
  pass :
      {g : ℕ} {rest : List ℕ}
      → Taken r.workers g rest
      → (g == r.feed.post_generation) ≡ true
      → Step r (record r { workers = rest; passed = r.passed + 1 })
  write :
      (ok : Bool) (others : ℕ)
      → r.passed ≡ others + 1
      → Step r (record r { feed = written ok r.feed; passed = others })

pub data Reach (r : Running) : Running → Type 0 where
  here : Reach r r
  next : {s t : Running} → Reach r s → Step s t → Reach r t

-- How many of the workers hold the generation `g`.
abbrev pub owners : ℕ → List ℕ → ℕ
owners g [] = 0
owners g (w ∷ ws) = if w == g then owners g ws + 1 else owners g ws

abbrev pub NoneAbove : ℕ → List ℕ → Type 0
NoneAbove n [] = Unit
NoneAbove n (w ∷ ws) = (w ≤ n) × NoneAbove n ws

-- No worker is ahead of the feed, and the workers of the current generation, with those that have
-- passed the test, are one while a post is in flight and none otherwise.
pub record IsOwned (r : Running) : Type 0 where
  pub old : NoneAbove r.feed.post_generation r.workers
  pub owned :
      owners r.feed.post_generation r.workers + r.passed ≡ (if r.feed.post_in_flight then 1 else 0)

NoneAbove-suc : (n : ℕ) (ws : List ℕ) → NoneAbove n ws → NoneAbove (n + 1) ws
NoneAbove-suc n [] h = tt
NoneAbove-suc n (w ∷ ws) h = (omega arith, NoneAbove-suc n ws h.1)

owners-above : (n : ℕ) (ws : List ℕ) → NoneAbove n ws → owners (n + 1) ws ≡ 0
owners-above n [] h = refl
owners-above n (w ∷ ws) h = ground (arith, owners-above n ws h.1)

Taken-old :
    (n : ℕ) {ws rest : List ℕ} {g : ℕ}
    → Taken ws g rest
    → NoneAbove n ws
    → (g ≤ n) × NoneAbove n rest
Taken-old n (first g ws) h = h
Taken-old n (later v t) h = let (p, q) = Taken-old n t h.1 in (p, (h.0, q))

Taken-owners :
    (n : ℕ) {ws rest : List ℕ} {g : ℕ}
    → Taken ws g rest
    → owners n ws ≡ (if g == n then owners n rest + 1 else owners n rest)
Taken-owners n (first g ws) = refl
Taken-owners n (later v t) = ground (arith, Taken-owners n t)

Step-IsOwned : {r s : Running} → Step r s → IsOwned r → IsOwned s
unfolding begin_post check_stuck written
Step-IsOwned {r} (begin now free) o = ground arith
Step-IsOwned {r} (stuck now none_passed) o = ground (
  arith,
  NoneAbove-suc r.feed.post_generation r.workers o.old,
  owners-above r.feed.post_generation r.workers o.old,
)
Step-IsOwned {r} (not_owned t e) o =
    ground (arith, Taken-old r.feed.post_generation t o.old, Taken-owners r.feed.post_generation t)
Step-IsOwned {r} (pass t e) o =
    ground (arith, Taken-old r.feed.post_generation t o.old, Taken-owners r.feed.post_generation t)
Step-IsOwned {r} (write ok others e) o = ground arith

Reach-IsOwned : {r s : Running} → IsOwned r → Reach r s → IsOwned s
Reach-IsOwned o here = o
Reach-IsOwned o (next path step) = Step-IsOwned step (Reach-IsOwned o path)

abbrev pub at_rest : FeedState → Running
at_rest feed = record { feed = feed; workers = []; passed = 0 }

-- From a feed at rest, in every interleaving of `begin_post`, `check_stuck` and the two halves of
-- `complete`, its test and its writes, in which no `check_stuck` falls between the two halves: the
-- workers of the current generation that still run or have passed the test are exactly one while a
-- post is in flight and none otherwise. So a worker whose `complete` answers True had its post in
-- flight and leaves no other worker of its generation behind, and one whose `complete` answers False
-- changes nothing.
pub complete_owner :
    (feed : FeedState) {r : Running} {g : ℕ} {rest : List ℕ} (ok : Bool)
    → feed.post_in_flight ≡ false
    → Reach (at_rest feed) r
    → Taken r.workers g rest
    → let (after, owned) = complete g ok r.feed in
      (owners r.feed.post_generation r.workers + r.passed
        ≡ (if r.feed.post_in_flight then 1 else 0))
      × (owned ≡ true → (r.feed.post_in_flight ≡ true) × (owners after.post_generation rest ≡ 0))
      × (owned ≡ false → after ≡ r.feed)
unfolding complete
complete_owner feed {r} ok rest_state path t =
    let o = Reach-IsOwned (record { old = tt; owned = rw rest_state }) path in
    ground (arith, o.owned, Taken-owners r.feed.post_generation t)
