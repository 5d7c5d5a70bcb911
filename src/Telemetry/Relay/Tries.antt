-- ===== src/Telemetry/Relay/Tries.antt =====
-- How often the relay's telemetry queue posts a sample, in every interleaving of its threads.
use qlsm_extra.Base.{
  ℕ, ◌+◌, ◌*◌, ◌-◌, ◌≤◌, ◌≡◌, refl, Option, none, some, List, [], ◌∷◌, ◌++◌, arith, ◌==◌,
  if◌then◌else◌,
}
use qlsm_extra.Telemetry.Relay.{
  Job, Forwarder, replace, enqueue, pop, sent, failed, Step, Reach, idle,
}
use qlsm_extra.Telemetry.Relay.Invariant.{QueueOk, IsSound, Reach-IsSound}

-- 1 for a job with the sample.
abbrev pub one_if : ℕ → Job → ℕ
one_if sample job = if job.sample == sample then 1 else 0

abbrev pub head_is : ℕ → List Job → ℕ
head_is sample [] = 0
head_is sample (job ∷ queue) = one_if sample job

-- How often a sample came in, and how often the worker popped a job with it to post it. The steps
-- are counted, and not the counter that the jobs carry.
unfoldable pub accepts : {f g : Forwarder} → ℕ → Reach f g → ℕ
accepts sample Reach.here = 0
accepts sample (Reach.next path (Step.accept key x)) =
    accepts sample path + (if x == sample then 1 else 0)
accepts sample (Reach.next path (Step.round alive free)) = accepts sample path
accepts sample (Reach.next path (Step.success busy)) = accepts sample path
accepts sample (Reach.next path (Step.failure busy)) = accepts sample path

unfoldable pub posts : {f g : Forwarder} → ℕ → Reach f g → ℕ
posts sample Reach.here = 0
posts sample (Reach.next path (Step.accept key x)) = posts sample path
posts sample (Reach.next {g = g} path (Step.round alive free)) =
    posts sample path + head_is sample g.queue
posts sample (Reach.next path (Step.success busy)) = posts sample path
posts sample (Reach.next path (Step.failure busy)) = posts sample path

-- The posts that the queued jobs with the sample may still have, and those of the job being sent.
unfoldable left : ℕ → List Job → ℕ
left sample [] = 0
left sample (job ∷ queue) = one_if sample job * (3 - job.retries) + left sample queue

abbrev left_sending : ℕ → Option Job → ℕ
left_sending sample none = 0
left_sending sample (some job) = one_if sample job * (2 - job.retries)

abbrev left_in : ℕ → Forwarder → ℕ
left_in sample f = left sample f.queue + left_sending sample f.sending

left-replace :
    (sample : ℕ) (job : Job) (queue : List Job)
    → left sample (replace job queue) ≤ left sample queue + one_if sample job * (3 - job.retries)
unfolding left replace
left-replace sample job [] = omega arith
left-replace sample job (q ∷ queue) = ground (arith, left-replace sample job queue)

left-snoc :
    (sample : ℕ) (job : Job) (queue : List Job)
    → left sample (queue ++ (job ∷ [])) ≡ left sample queue + one_if sample job * (3 - job.retries)
unfolding left
left-snoc sample job [] = omega arith
left-snoc sample job (q ∷ queue) = ground (arith, left-snoc sample job queue)

enqueue-left :
    (sample : ℕ) (key : Option ℕ) (x : ℕ) (f : Forwarder)
    → left_in sample (enqueue key x f).0 ≤ left_in sample f + 3 * (if x == sample then 1 else 0)
unfolding enqueue
enqueue-left sample key x f =
    let job : Job = record { key = key; sample = x; retries = 0 } in
    ground (arith, left-replace sample job f.queue, left-snoc sample job f.queue)

pop-left :
    (sample : ℕ) (queue : List Job) (f : Forwarder)
    → f.queue ≡ queue
    → f.sending ≡ none
    → QueueOk f.queue
    → left_in sample (pop f) + head_is sample f.queue ≤ left_in sample f
unfolding pop left
pop-left sample [] f e free q = ground (arith, e, free)
pop-left sample (job ∷ queue) f e free q = ground (arith, e, free)

failed-left :
    (sample : ℕ) (job : Job) (f : Forwarder)
    → f.sending ≡ some job
    → left_in sample (failed job f) ≤ left_in sample f
unfolding failed left
failed-left sample job f busy = ground (arith, busy)

sent-left : (sample : ℕ) (f : Forwarder) → left_in sample (sent f) ≤ left_in sample f
unfolding sent
sent-left sample f = ground arith

-- Every time that a sample comes in pays for three posts of it.
posts-accepts :
    {f : Forwarder} (sample : ℕ) (path : Reach idle f)
    → posts sample path + left_in sample f ≤ 3 * accepts sample path
unfolding posts accepts left
posts-accepts sample Reach.here = omega arith
posts-accepts sample (Reach.next {g = g} path (Step.accept key x)) =
    omega (arith, posts-accepts sample path, enqueue-left sample key x g)
posts-accepts sample (Reach.next {g = g} path (Step.round alive free)) = omega (
  arith,
  posts-accepts sample path,
  pop-left sample g.queue g refl free (Reach-IsSound path).queue_ok,
)
posts-accepts sample (Reach.next {g = g} path (Step.success busy)) =
    omega (arith, posts-accepts sample path, sent-left sample g)
posts-accepts sample (Reach.next {g = g} path (Step.failure {job = job} busy)) =
    omega (arith, posts-accepts sample path, failed-left sample job g busy)

-- In every interleaving of the HTTP threads and the worker: at most one sample per key is queued, so
-- that a slow link builds no backlog; whenever a job is queued or being sent there is a live worker
-- for it; and a sample is posted at most three times for each time that it came in, counted by the
-- rounds of the worker that post it, each of which is one call of `_forward_post`.
pub interleaved-IsSound :
    {f : Forwarder} (path : Reach idle f)
    → IsSound f × ((sample : ℕ) → posts sample path ≤ 3 * accepts sample path)
interleaved-IsSound path = (Reach-IsSound path, λ sample. omega (arith, posts-accepts sample path))
