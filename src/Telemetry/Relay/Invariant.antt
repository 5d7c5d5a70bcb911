-- ===== src/Telemetry/Relay/Invariant.antt =====
-- The relay's telemetry queue in every interleaving of its threads.
use qlsm_extra.Base.{
  ℕ, ◌≤◌, ◌≡◌, refl, Bool, true, false, Option, none, some, List, [], ◌∷◌, ◌++◌, arith,
  if◌then◌else◌,
}
use qlsm_extra.Telemetry.Relay.{
  Job, Forwarder, same_key, any_key, replace, enqueue, pop, sent, failed, Step, Reach, idle,
}

-- No two queued jobs have the same key, and no counter of retries is above two.
abbrev pub QueueOk : List Job → Type 0
QueueOk [] = Unit
QueueOk (job ∷ queue) = (any_key job.key queue ≡ false) × (job.retries ≤ 2) × QueueOk queue

abbrev pub WorkedOk : List Job → Bool → Type 0
WorkedOk [] alive = Unit
WorkedOk (job ∷ queue) alive = alive ≡ true

abbrev pub SenderOk : Option Job → Bool → Type 0
SenderOk none alive = Unit
SenderOk (some job) alive = (alive ≡ true) × (job.retries ≤ 2)

-- The queue, and the promise that somebody works on it.
pub record IsSound (f : Forwarder) : Type 0 where
  pub queue_ok : QueueOk f.queue
  pub worked : WorkedOk f.queue f.alive
  pub sender : SenderOk f.sending f.alive

any_key-none : (queue : List Job) → any_key none queue ≡ false
unfolding any_key same_key
any_key-none [] = refl
any_key-none (q ∷ queue) = any_key-none queue

same_key-eq : (key : Option ℕ) (q : Job) → same_key key q ≡ true → key ≡ q.key
unfolding same_key
same_key-eq none q h = cc
same_key-eq (some k) q h = ground arith

same_key_comm : (p q : Job) → same_key p.key q ≡ same_key q.key p
unfolding same_key
same_key_comm p q = ground arith

same_key-as :
    (key : Option ℕ) (p q : Job) → same_key p.key q ≡ true → same_key key p ≡ same_key key q
unfolding same_key
same_key-as key p q h = ground (arith, same_key-eq p.key q h)

-- A replaced job has the key of the one that it replaces, so no key comes or goes.
any_key-replace :
    (key : Option ℕ) (job : Job) (queue : List Job)
    → any_key key (replace job queue) ≡ any_key key queue
unfolding any_key replace
any_key-replace key job [] = refl
any_key-replace key job (q ∷ queue) =
    ground (arith, any_key-replace key job queue, same_key-as key job q)

replace-QueueOk :
    (job : Job) (queue : List Job) → job.retries ≤ 2 → QueueOk queue → QueueOk (replace job queue)
unfolding replace
replace-QueueOk job [] r h = tt
replace-QueueOk job (q ∷ queue) r h =
    ground (
      arith,
      same_key-eq job.key q,
      any_key-replace q.key job queue,
      replace-QueueOk job queue r h.2,
    )

any_key-snoc :
    (key : Option ℕ) (job : Job) (queue : List Job)
    → any_key key (queue ++ (job ∷ [])) ≡ (if any_key key queue then true else same_key key job)
unfolding any_key
any_key-snoc key job [] = ground arith
any_key-snoc key job (q ∷ queue) = ground (arith, any_key-snoc key job queue)

snoc-QueueOk :
    (job : Job) (queue : List Job)
    → job.retries ≤ 2
    → any_key job.key queue ≡ false
    → QueueOk queue
    → QueueOk (queue ++ (job ∷ []))
unfolding any_key
snoc-QueueOk job [] r fresh h = (refl, r, tt)
snoc-QueueOk job (q ∷ queue) r fresh h =
    ground (arith, any_key-snoc q.key job queue, same_key_comm job q, snoc-QueueOk job queue r)

WorkedOk-replace :
    (job : Job) (queue : List Job) (alive : Bool)
    → WorkedOk queue alive
    → WorkedOk (replace job queue) alive
unfolding replace
WorkedOk-replace job [] alive h = tt
WorkedOk-replace job (q ∷ queue) alive h = ground arith

SenderOk-alive : (o : Option Job) (alive : Bool) → SenderOk o alive → SenderOk o true
SenderOk-alive none alive h = tt
SenderOk-alive (some job) alive h = (refl, h.1)

WorkedOk-alive : (queue : List Job) → WorkedOk queue true
WorkedOk-alive [] = tt
WorkedOk-alive (q ∷ queue) = refl

enqueue-IsSound :
    (key : Option ℕ) (sample : ℕ) (f : Forwarder) → IsSound f → IsSound (enqueue key sample f).0
unfolding enqueue
enqueue-IsSound key sample f s =
    let job : Job = record { key = key; sample = sample; retries = 0 } in
    ground (
      arith,
      replace-QueueOk job f.queue (omega arith) s.queue_ok,
      snoc-QueueOk job f.queue (omega arith),
      WorkedOk-replace job f.queue f.alive s.worked,
      WorkedOk-alive (f.queue ++ (job ∷ [])),
      SenderOk-alive f.sending f.alive s.sender,
    )

pop-IsSound :
    (queue : List Job) (f : Forwarder)
    → f.queue ≡ queue
    → f.alive ≡ true
    → f.sending ≡ none
    → IsSound f
    → IsSound (pop f)
unfolding pop
pop-IsSound [] f e alive free s = ground arith
pop-IsSound (q ∷ queue) f e alive free s = ground (arith, WorkedOk-alive queue)

failed-IsSound :
    (job : Job) (f : Forwarder) → f.sending ≡ some job → IsSound f → IsSound (failed job f)
unfolding failed
failed-IsSound job f busy s = ground arith

sent-IsSound : (f : Forwarder) → IsSound f → IsSound (sent f)
unfolding sent
sent-IsSound f s = ground arith

Step-IsSound : {f g : Forwarder} → Step f g → IsSound f → IsSound g
Step-IsSound {f} (Step.accept key sample) s = enqueue-IsSound key sample f s
Step-IsSound {f} (Step.round alive free) s = pop-IsSound f.queue f refl alive free s
Step-IsSound {f} (Step.success busy) s = sent-IsSound f s
Step-IsSound {f} (Step.failure {job = job} busy) s = failed-IsSound job f busy s

-- So is the forwarder in every interleaving of the HTTP threads and the worker.
pub Reach-IsSound : {f : Forwarder} → Reach idle f → IsSound f
Reach-IsSound Reach.here = record { queue_ok = tt; worked = tt; sender = tt }
Reach-IsSound (Reach.next path step) = Step-IsSound step (Reach-IsSound path)
