-- ===== src/Telemetry/Relay/Drain.antt =====
-- The worker of the relay's telemetry queue, left to itself: `_run` of `class _StreamForwarder`.
use qlsm_extra.Base.{
  ℕ, suc, zero, ◌+◌, ◌-◌, ◌≤◌, ◌≡◌, refl, Bool, true, false, Bool-cases, Option, none, some, List,
  [], ◌∷◌, arith, inl, inr, ltb, ap, if◌then◌else◌, length,
}
use qlsm_extra.Telemetry.Relay.{Job, Forwarder, take_first, pop, sent, failed, Reach, idle}
use qlsm_extra.Telemetry.Relay.Invariant.{QueueOk, Reach-IsSound}

abbrev after : Bool → Forwarder → Option Job → Forwarder
after ok popped none = popped
after ok popped (some job) = if ok then sent popped else failed job popped

-- One round of the loop, where `ok` tells whether the post goes through.
unfoldable pub turn : Bool → Forwarder → Forwarder
turn ok f = after ok (pop f) (pop f).sending

-- The loop for `n` posts; `ok` tells of each whether it goes through, the last one first.
unfoldable pub drain : (ℕ → Bool) → ℕ → Forwarder → Forwarder
drain ok zero f = pop f
drain ok (suc n) f = drain ok n (turn (ok n) f)

-- The attempts that are left for the jobs of a queue.
unfoldable pub attempts_left : List Job → ℕ
attempts_left [] = 0
attempts_left (job ∷ queue) = 3 - job.retries + attempts_left queue

-- How a worker leaves the forwarder that it found: nothing is queued, no worker runs, and every job
-- was forwarded or counted as an error.
pub record Drained (f g : Forwarder) : Type 0 where
  pub empty : g.queue ≡ []
  pub stopped : g.alive ≡ false
  pub idle : g.sending ≡ none
  pub counted : g.forwarded + g.forward_errors ≡ f.forwarded + (f.forward_errors + length f.queue)

no_attempts : (queue : List Job) → QueueOk queue → attempts_left queue ≤ 0 → queue ≡ []
unfolding attempts_left
no_attempts [] q o = refl
no_attempts (job ∷ queue) q o = absurd (omega (arith, q.1, o))

at_end : (f : Forwarder) → f.queue ≡ [] → f.sending ≡ none → Drained f (pop f)
unfolding pop
at_end f e s = record {
  empty = ground (arith, e);
  stopped = ground (arith, e);
  idle = ground (arith, e, s);
  counted = ground (arith, e);
}

-- A round that starts with a job leaves fewer attempts, and a job less exactly when it is counted.
record Turned (f g : Forwarder) : Type 0 where
  ok : QueueOk g.queue
  idle : g.sending ≡ none
  fewer : attempts_left g.queue + 1 ≤ attempts_left f.queue
  counted :
      g.forwarded + (g.forward_errors + length g.queue)
      ≡ f.forwarded + (f.forward_errors + length f.queue)

abbrev popped : Job → List Job → Forwarder → Forwarder
popped job queue f = record f { queue = queue; sending = some job }

turn-popped :
    (ok : Bool) (job : Job) (queue : List Job) (f : Forwarder)
    → f.queue ≡ job ∷ queue
    → turn ok f ≡ (if ok then sent (popped job queue f) else failed job (popped job queue f))
unfolding turn pop take_first
turn-popped ok job queue f e = ap (λ q. let p = take_first q f in after ok p p.sending) e

failed-Turned :
    (job : Job) (queue : List Job) (f : Forwarder)
    → f.queue ≡ job ∷ queue
    → QueueOk (job ∷ queue)
    → Turned f (failed job (popped job queue f))
unfolding failed attempts_left
failed-Turned job queue f e q = elim (Bool-cases (ltb job.retries 2)) [
  | inl b ↦
      rw (failed, b, q.0)
        (record {
          ok = ground (arith, b, q);
          idle = refl;
          fewer = ground (arith, e, b);
          counted = ground (arith, e);
        })
  | inr b ↦
      rw (failed, b)
        (record {
          ok = q.2;
          idle = refl;
          fewer = ground (arith, e, q.1);
          counted = ground (arith, e);
        })
]

turn-Turned :
    (ok : Bool) (job : Job) (queue : List Job) (f : Forwarder)
    → f.queue ≡ job ∷ queue
    → QueueOk (job ∷ queue)
    → Turned f (turn ok f)
unfolding sent attempts_left
turn-Turned true job queue f e q =
    rw (turn-popped true job queue f e) (record {
      ok = q.2;
      idle = refl;
      fewer = ground (arith, e, q.1);
      counted = ground (arith, e);
    })
turn-Turned false job queue f e q =
    rw (turn-popped false job queue f e) (failed-Turned job queue f e q)

-- At an empty queue the round only ends the worker.
turn_empty : (ok : Bool) (f : Forwarder) → (pop f).sending ≡ none → turn ok f ≡ pop f
unfolding turn
turn_empty ok f e = ap (λ o. after ok (pop f) o) e

fuel-Drained :
    (ok : ℕ → Bool) (n : ℕ) (f : Forwarder)
    → QueueOk f.queue
    → f.sending ≡ none
    → attempts_left f.queue ≤ n
    → Drained f (drain ok n f)
unfolding drain attempts_left
fuel-Drained ok zero f q s o = at_end f (no_attempts f.queue q o) s
fuel-Drained ok (suc n) f q s o = from f.queue refl q (λ g r t a. fuel-Drained ok n g r t a)
  where
    from :
        (queue : List Job)
        → f.queue ≡ queue
        → QueueOk queue
        → ((g : Forwarder)
            → QueueOk g.queue
            → g.sending ≡ none
            → attempts_left g.queue ≤ n
            → Drained g (drain ok n g))
        → Drained f (drain ok n (turn (ok n) f))
    from [] e r on =
        let t = at_end f e s in
        let q : QueueOk (pop f).queue = rw t.empty tt in
        let o : attempts_left (pop f).queue ≤ n = rw t.empty (omega arith) in
        let d = on (pop f) q t.idle o in
        rw (turn_empty (ok n) f t.idle) (record {
          empty = d.empty;
          stopped = d.stopped;
          idle = d.idle;
          counted = ground (arith, d.counted, t.counted, t.empty, e);
        })
    from (job ∷ queue) e r on =
        let t = turn-Turned (ok n) job queue f e r in
        let d = on (turn (ok n) f) t.ok t.idle (omega (arith, t.fewer, o)) in
        record {
          empty = d.empty;
          stopped = d.stopped;
          idle = d.idle;
          counted = omega (arith, d.counted, t.counted);
        }

-- Between two rounds, a worker that is left to itself ends, whatever posts fail: after as many posts as
-- there are attempts left for the queued jobs, nothing is queued, no worker runs, and every queued job
-- was forwarded or counted as an error.
pub drain-Drained :
    {f : Forwarder}
    → Reach idle f
    → f.sending ≡ none
    → (ok : ℕ → Bool) → Drained f (drain ok (attempts_left f.queue) f)
drain-Drained {f} path s ok =
    fuel-Drained ok (attempts_left f.queue) f (Reach-IsSound path).queue_ok s (omega arith)
