-- ===== src/Telemetry/Relay.antt =====
-- `class _StreamForwarder` of addons/telemetry-relay/assets/relay.py: the queue of telemetry samples
-- with its worker thread. A job's url, token, body and timeout are one number, its `sample`. A round of
-- the worker is one call of `_forward_post`, which may send its body a second time when the hub has
-- dropped the connection that is kept open.
pub mod Invariant
pub mod Drain
pub mod Place
pub mod Tries
use qlsm_extra.Base.{
  ℕ, ◌+◌, ◌<◌, ◌≡◌, max, Bool, true, false, Option, none, some, List, [], ◌∷◌, ◌++◌, ltb, ◌==◌,
  if◌then◌else◌, length,
}

pub record Job : Type 0 where
  pub key : Option ℕ
  pub sample : ℕ
  pub retries : ℕ

pub record Forwarder : Type 0 where
  pub queue : List Job
  -- `_worker is not None and _worker.is_alive()`, and the job that it has popped.
  pub alive : Bool
  pub sending : Option Job
  pub coalesced : ℕ
  pub queue_depth_max : ℕ
  pub forwarded : ℕ
  pub forward_errors : ℕ

-- `key is not None and queued["key"] == key`
unfoldable pub same_key : Option ℕ → Job → Bool
same_key none queued = false
same_key (some key) queued = elim queued.key [ none ↦ false | some k ↦ key == k ]

unfoldable pub any_key : Option ℕ → List Job → Bool
any_key key [] = false
any_key key (queued ∷ queue) = if same_key key queued then true else any_key key queue

-- The loop of `enqueue`: the first queued job with the key gives way to the new one.
unfoldable pub replace : Job → List Job → List Job
replace job [] = []
replace job (queued ∷ queue) =
    if same_key job.key queued then job ∷ queue else queued ∷ replace job queue

pub data Status : Type 0 where
  replaced queued : Status

unfoldable pub enqueue : Option ℕ → ℕ → Forwarder → Forwarder × Status
enqueue key sample f =
    let job : Job = record { key = key; sample = sample; retries = 0 } in
    if any_key key f.queue
    then (record f { queue = replace job f.queue; coalesced = f.coalesced + 1 }, replaced)
    else let queue = f.queue ++ (job ∷ []) in
      (
        record f {
          queue = queue;
          queue_depth_max =
              if ltb 1 (length queue)
              then max f.queue_depth_max (length queue)
              else f.queue_depth_max;
          alive = true;
        },
        queued,
      )

take_first : List Job → Forwarder → Forwarder
take_first [] f = record f { alive = false }
take_first (job ∷ queue) f = record f { queue = queue; sending = some job }

-- The head of the loop of `_run`: the worker ends at an empty queue, or pops a job.
unfoldable pub pop : Forwarder → Forwarder
unfolding take_first
pop f = take_first f.queue f

-- The rest of a round of `_run`, when `_forward_post` returned.
unfoldable pub sent : Forwarder → Forwarder
sent f = record f { sending = none; forwarded = f.forwarded + 1 }

-- The same when it raised, for the job that was being sent.
unfoldable pub failed : Job → Forwarder → Forwarder
failed job f =
    let done = record f { sending = none } in
    if ltb job.retries 2
    then (if any_key job.key f.queue then done else record done {
      queue = record job { retries = job.retries + 1 } ∷ f.queue;
      alive = true;
    })
    else record done { forward_errors = f.forward_errors + 1 }

-- What the HTTP threads and the worker do, in any order.
pub data Step (f : Forwarder) : Forwarder → Type 0 where
  accept : (key : Option ℕ) (sample : ℕ) → Step f (enqueue key sample f).0
  round : f.alive ≡ true → f.sending ≡ none → Step f (pop f)
  success : {job : Job} → f.sending ≡ some job → Step f (sent f)
  failure : {job : Job} → f.sending ≡ some job → Step f (failed job f)

pub data Reach (f : Forwarder) : Forwarder → Type 0 where
  here : Reach f f
  next : {g h : Forwarder} → Reach f g → Step g h → Reach f h

abbrev pub idle : Forwarder
idle = record {
  queue = [];
  alive = false;
  sending = none;
  coalesced = 0;
  queue_depth_max = 0;
  forwarded = 0;
  forward_errors = 0;
}
