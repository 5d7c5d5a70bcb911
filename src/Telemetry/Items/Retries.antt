-- ===== src/Telemetry/Items/Retries.antt =====
-- A whole item worker: the attempts of `_post_items_batch`, and what becomes of the batch.
use qlsm_extra.Base.{
  ℕ, zero, suc, ◌≤◌, ◌≡◌, refl, Bool, true, false, ◌&&◌, List, [], ◌∷◌, arith, ◌==◌, if◌then◌else◌,
  take, ◌++◌, drop-length_append,
}
use qlsm_extra.Telemetry.Status.{Body, items_relay_accepted}
use qlsm_extra.Telemetry.Items.{
  Items, Post, Answer, answer, raised, accepted, attempts, max_retries, finish,
}
use qlsm_extra.Telemetry.Items.Slots.{finish-queue}

abbrev pub any_accepted : List Answer → Bool
any_accepted [] = false
any_accepted (a ∷ answers) = if accepted a then true else any_accepted answers

attempts-any : (n : ℕ) (answers : List Answer) → attempts n answers ≡ any_accepted (take n answers)
unfolding attempts
attempts-any zero [] = refl
attempts-any (suc n) [] = refl
attempts-any zero (a ∷ answers) = refl
attempts-any (suc n) (a ∷ answers) = ground (arith, attempts-any n answers)

-- A worker whose batch stands at the head of the queue takes exactly that batch off when one of its
-- first three answers was accepted and it still owns the slot; otherwise the queue stays as it is.
pub worker-queue :
    (post : Post) (answers : List Answer) (s : Items) (rest : List ℕ)
    → s.queue ≡ post.batch ++ rest
    → (finish post (attempts max_retries answers) s).queue ≡ (
        if any_accepted (take max_retries answers) && (post.generation == s.feed.post_generation)
        then rest
        else post.batch ++ rest)
worker-queue post answers s rest e =
    rw
      (
        attempts-any max_retries answers,
        finish-queue post (any_accepted (take max_retries answers)) s,
        e,
        drop-length_append post.batch rest,
      )
      refl

-- Exceptions, and answers from 400 on.
abbrev pub AllRefused : List Answer → Type 0
AllRefused [] = Unit
AllRefused (answer status body ∷ answers) = (400 ≤ status) × AllRefused answers
AllRefused (raised ∷ answers) = AllRefused answers

items_relay_accepted-refused :
    (status : ℕ) (body : Body) → 400 ≤ status → items_relay_accepted status body ≡ false
unfolding items_relay_accepted
items_relay_accepted-refused status body h = ground arith

attempts-refused : (n : ℕ) (answers : List Answer) → AllRefused answers → attempts n answers ≡ false
unfolding attempts accepted
attempts-refused zero [] h = refl
attempts-refused (suc n) [] h = refl
attempts-refused zero (a ∷ answers) h = refl
attempts-refused (suc n) (answer status body ∷ answers) h =
    ground (arith, items_relay_accepted-refused status body h.0, attempts-refused n answers h.1)
attempts-refused (suc n) (raised ∷ answers) h = attempts-refused n answers h

-- A batch that is refused on every attempt, also for good (a 4xx answer), stays at the head of the
-- queue.
pub refused-stays :
    (post : Post) (answers : List Answer) (s : Items)
    → AllRefused answers
    → (finish post (attempts max_retries answers) s).queue ≡ s.queue
refused-stays post answers s h =
    rw (attempts-refused max_retries answers h) (finish-queue post false s)
