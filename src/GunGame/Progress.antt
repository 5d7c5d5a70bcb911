-- ===== src/GunGame/Progress.antt =====
-- How far a player is: the frags that the ladder has asked for up to a state. Each event moves this
-- number in one way.
use qlsm_extra.Base.{
  ℕ, zero, suc, ◌+◌, ◌-◌, ◌≤◌, ◌<◌, ◌≡◌, ◌≢◌, ◌↔◌, refl, ap, true, Option, none, some, [], ◌∷◌,
  arith, length,
}
use native.Mathlib.Numerals.{add-one}
use qlsm_extra.GunGame.{Ladder, Needs, State, Event, Outcome, need, is_last, advance}

-- The frags that the first `step` steps ask for.
unfoldable pub before : Ladder → ℕ → ℕ
before [] step = 0
before (_ ∷ ladder) zero = 0
before ((weapon, n) ∷ ladder) (suc step) = n + before ladder step

abbrev pub progress : Ladder → State → ℕ
progress ladder s = before ladder s.step + s.frags

-- The frags of a whole game.
abbrev pub goal : Ladder → ℕ
goal ladder = before ladder (length ladder)

-- On a step of the ladder, with fewer frags than it asks for.
abbrev pub Below : Option ℕ → ℕ → Type 0
Below none frags = ⊥
Below (some n) frags = frags < n

abbrev pub Fits : Ladder → State → Type 0
Fits ladder s = Below (need ladder s.step) s.frags

before-suc :
    (ladder : Ladder) (step n : ℕ)
    → need ladder step ≡ some n
    → (before ladder (suc step) ≡ before ladder step + n) × (step < length ladder)
unfolding before need
before-suc [] step n h = cc
before-suc ((w, m) ∷ []) zero n h = ground arith
before-suc ((w, m) ∷ (v, k) ∷ ladder) zero n h = ground arith
before-suc ((w, m) ∷ ladder) (suc step) n h = ground (arith, before-suc ladder step n h)

pub need-positive :
    (ladder : Ladder) (step n : ℕ) → Needs ladder → need ladder step ≡ some n → 1 ≤ n
unfolding need
need-positive [] step n l h = cc
need-positive ((w, m) ∷ ladder) zero n l h = ground arith
need-positive ((w, m) ∷ ladder) (suc step) n l h = ground (arith, need-positive ladder step n l.1)

need-lt_length :
    (ladder : Ladder) (step : ℕ) → step < length ladder → (n : ℕ) × (need ladder step ≡ some n)
unfolding need
need-lt_length [] step h = elim h [ ]
need-lt_length ((w, m) ∷ ladder) zero h = (m, refl)
need-lt_length ((w, m) ∷ ladder) (suc step) h = need-lt_length ladder step (omega arith)

before-zero : (ladder : Ladder) → before ladder 0 ≡ 0
unfolding before
before-zero [] = refl
before-zero (x ∷ ladder) = refl

before-le-goal : (ladder : Ladder) (step : ℕ) → before ladder step ≤ goal ladder
unfolding before
before-le-goal [] step = omega arith
before-le-goal ((w, n) ∷ ladder) zero = omega arith
before-le-goal ((w, n) ∷ ladder) (suc step) = ground (arith, before-le-goal ladder step)

Fits-need :
    (ladder : Ladder) (s : State)
    → Fits ladder s
    → (n : ℕ) × (need ladder s.step ≡ some n) × (s.frags < n)
Fits-need ladder s h = from (need ladder s.step) refl h
  where
    from :
        (o : Option ℕ)
        → need ladder s.step ≡ o
        → Below o s.frags
        → (n : ℕ) × (need ladder s.step ≡ some n) × (s.frags < n)
    from none e k = absurd k
    from (some n) e k = (n, e, k)

-- What holds of the state and the outcome that `advance` returns; nothing holds of an exception.
abbrev pub Returns : Option (State × Outcome) → (State → Outcome → Type 0) → Type 0
Returns none P = ⊥
Returns (some (t, o)) P = P t o

-- The facts about the step of a state, and about the one after it.
module _ (ladder : Ladder) (s : State) (l : Needs ladder) (f : Fits ladder s) where
  step_facts :
      (n : ℕ) × (need ladder s.step ≡ some n)
      × (s.frags < n)
      × (before ladder (s.step + 1) ≡ before ladder s.step + n)
      × (s.step < length ladder)
      × (before ladder (s.step + 1) ≤ goal ladder)
  step_facts =
      let (n, e, k) = Fits-need ladder s f in
      let (sum, inside) = before-suc ladder s.step n e in
      (n, e, k, rw add-one sum, inside, before-le-goal ladder (s.step + 1))

  next_facts :
      s.step + 1 < length ladder
      → Below (need ladder (s.step + 1)) 0 × (before ladder (s.step + 1) < goal ladder)
  next_facts inside =
      let (m, e) = need-lt_length ladder (s.step + 1) inside in
      let positive = need-positive ladder (s.step + 1) m l e in
      let (sum, _) = before-suc ladder (s.step + 1) m e in
      (rw e positive, omega (arith, sum, before-le-goal ladder (suc (s.step + 1))))

  at_goal : is_last ladder s.step ≡ true → before ladder (s.step + 1) ≡ goal ladder
  at_goal last = ap (before ladder) (ground arith)

  -- A frag moves its player on by exactly one, and wins exactly when that reaches the goal; short of
  -- it the new state is again one of the ladder.
  pub advance-frag : Returns (advance s ladder Event.frag) (λ t o.
      (progress ladder t ≡ progress ladder s + 1)
      × ((o ≡ Outcome.win) ↔ (progress ladder t ≡ goal ladder))
      × (o ≢ Outcome.win → Fits ladder t))
  unfolding advance
  advance-frag =
      let (n, e, k, sum, inside, bound) = step_facts in
      rw (e, advance) (ground (arith, next_facts, at_goal))

  prev_facts :
      s.step ≢ 0
      → (n : ℕ) × (need ladder (s.step - 1) ≡ some n)
        × (1 ≤ n)
        × (before ladder s.step ≡ before ladder (s.step - 1) + n)
  prev_facts later =
      let (_, _, _, _, inside, _) = step_facts in
      let (n, e) = need-lt_length ladder (s.step - 1) (omega arith) in
      let (sum, _) = before-suc ladder (s.step - 1) n e in
      let same : suc (s.step - 1) ≡ s.step = omega arith in
      (n, e, need-positive ladder (s.step - 1) n l e, rw same at sum)

  -- A suicide takes exactly one frag back, across steps too, and nothing from a player at the start.
  pub advance-back :
      Returns
        (advance s ladder Event.back)
        (λ t o. (progress ladder t ≡ progress ladder s - 1) × (o ≢ Outcome.win) × Fits ladder t)
  unfolding advance
  advance-back = from s.step refl
    where
      from :
          (k : ℕ)
          → s.step ≡ k
          → Returns (advance s ladder Event.back) (λ t o.
            (progress ladder t ≡ progress ladder s - 1) × (o ≢ Outcome.win) × Fits ladder t)
      from zero start =
          let (m, e, less, _, _, _) = step_facts in
          ground (arith, before-zero ladder, ap (before ladder) start, ap (need ladder) start)
      from (suc k) later =
          let (n, e, positive, sum) = prev_facts (omega arith) in
          let (m, e', less, _, _, _) = step_facts in rw (e, advance) (ground arith)

  -- A gauntlet death takes its victim to the beginning of the step before, or of the first step.
  pub advance-demote :
      Returns (advance s ladder Event.demote) (λ t o.
        (progress ladder t ≡ before ladder (s.step - 1)) × (o ≢ Outcome.win) × Fits ladder t)
  unfolding advance
  advance-demote = from s.step refl
    where
      from :
          (k : ℕ)
          → s.step ≡ k
          → Returns (advance s ladder Event.demote) (λ t o.
            (progress ladder t ≡ before ladder (s.step - 1)) × (o ≢ Outcome.win) × Fits ladder t)
      from zero start =
          let (m, e, less, _, _, _) = step_facts in
          ground (
            arith,
            before-zero ladder,
            ap (λ k. before ladder (k - 1)) start,
            ap (need ladder) start,
          )
      from (suc k) later = let (n, e, positive, sum) = prev_facts (omega arith) in ground arith

  -- A gauntlet frag takes its player to the beginning of the next step, and wins on the last one.
  pub advance-skip : Returns (advance s ladder Event.skip) (λ t o.
      ((o ≡ Outcome.win) ↔ (s.step + 1 ≡ length ladder))
      × (o ≢ Outcome.win → (progress ladder t ≡ before ladder (s.step + 1)) × Fits ladder t))
  unfolding advance
  advance-skip = let (n, e, k, sum, inside, bound) = step_facts in ground (arith, next_facts)
