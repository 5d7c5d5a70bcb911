-- ===== src/Telemetry/Relay/Place.antt =====
-- Where `enqueue` of the relay's telemetry queue puts a sample.
use qlsm_extra.Base.{
  ℕ, ◌≡◌, refl, Bool, true, false, Option, none, some, List, [], ◌∷◌, ◌++◌, arith, if◌then◌else◌,
  Bool-cases, inl, inr, length,
}
use qlsm_extra.Telemetry.Relay.{Job, Forwarder, same_key, any_key, replace, enqueue}

-- The sample of the first queued job with a key.
pub newest : Option ℕ → List Job → Option ℕ
newest key [] = none
newest key (q ∷ queue) = if same_key key q then some q.sample else newest key queue

newest-replace :
    (k : ℕ) (job : Job) (queue : List Job)
    → job.key ≡ some k
    → any_key (some k) queue ≡ true
    → (newest (some k) (replace job queue) ≡ some job.sample)
      × (length (replace job queue) ≡ length queue)
unfolding newest replace any_key same_key
newest-replace k job [] e h = cc
newest-replace k job (q ∷ queue) e h = ground (arith, newest-replace k job queue e)

newest-snoc :
    (k : ℕ) (job : Job) (queue : List Job)
    → job.key ≡ some k
    → any_key (some k) queue ≡ false
    → newest (some k) (queue ++ (job ∷ [])) ≡ some job.sample
unfolding newest any_key same_key
newest-snoc k job [] e h = ground arith
newest-snoc k job (q ∷ queue) e h = ground (arith, newest-snoc k job queue e)

-- The queue before the first job with a key, and the queue behind it.
unfoldable pub before : Option ℕ → List Job → List Job
before key [] = []
before key (q ∷ queue) = if same_key key q then [] else q ∷ before key queue

unfoldable pub behind : Option ℕ → List Job → List Job
behind key [] = []
behind key (q ∷ queue) = if same_key key q then queue else behind key queue

replace-place :
    (job : Job) (queue : List Job)
    → any_key job.key queue ≡ true
    → replace job queue ≡ before job.key queue ++ (job ∷ behind job.key queue)
unfolding replace any_key before behind
replace-place job [] h = cc
replace-place job (q ∷ queue) h = ground (arith, replace-place job queue)

-- Every queue is what stands before the first job with a key, that job if there is one, and the rest.
before-place :
    (key : Option ℕ) (queue : List Job)
    → any_key key queue ≡ true
    → (old : Job) × (queue ≡ before key queue ++ (old ∷ behind key queue))
      × (same_key key old ≡ true)
      × (any_key key (before key queue) ≡ false)
unfolding any_key before behind
before-place key [] h = cc
before-place key (q ∷ queue) h = elim (Bool-cases (same_key key q)) [
  | inl e ↦ (q, ground (arith, e), e, ground (arith, e))
  | inr e ↦
      let (old, place, same, fresh) = before-place key queue (ground (arith, e)) in
      (old, ground (arith, e, place), same, ground (arith, e, fresh))
]

-- How the queue `to` comes from the queue `from`: the job has taken the place of the first one with
-- its key, or it stands at the end.
abbrev pub Placed : Job → Bool → List Job → List Job → Type 0
Placed job true from to =
    (front : List Job) × (old : Job) × (back : List Job) × (from ≡ front ++ (old ∷ back))
    × (same_key job.key old ≡ true)
    × (any_key job.key front ≡ false)
    × (to ≡ front ++ (job ∷ back))
Placed job false from to = to ≡ from ++ (job ∷ [])

enqueue-Placed :
    (key : Option ℕ) (sample : ℕ) (f : Forwarder) (b : Bool)
    → any_key key f.queue ≡ b
    → Placed
        (record { key = key; sample = sample; retries = 0 })
        b
        f.queue
        (enqueue key sample f).0.queue
unfolding enqueue
enqueue-Placed key sample f true e =
    let job : Job = record { key = key; sample = sample; retries = 0 } in
    let (old, place, same, fresh) = before-place key f.queue e in
    (
      before key f.queue,
      old,
      behind key f.queue,
      place,
      same,
      fresh,
      rw (enqueue, e) (replace-place job f.queue e),
    )
enqueue-Placed key sample f false e = rw (enqueue, e) refl

-- A sample with a key is the one that the queue holds for that key from then on. If a job with the
-- key is queued, then the sample takes the place of the first one, and all the other jobs stay where
-- they are; otherwise it goes to the end of the queue.
pub enqueue-newest :
    (k sample : ℕ) (f : Forwarder)
    → let g = (enqueue (some k) sample f).0 in
      (newest (some k) g.queue ≡ some sample)
      × Placed
          (record { key = some k; sample = sample; retries = 0 })
          (any_key (some k) f.queue)
          f.queue
          g.queue
unfolding enqueue
enqueue-newest k sample f =
    let job : Job = record { key = some k; sample = sample; retries = 0 } in
    (
      ground (arith, newest-replace k job f.queue refl, newest-snoc k job f.queue refl),
      enqueue-Placed (some k) sample f (any_key (some k) f.queue) refl,
    )
