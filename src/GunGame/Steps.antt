-- ===== src/GunGame/Steps.antt =====
-- The step machine of gungame.py: `advance`, `loadout` and `pick_leader`.
use qlsm_extra.Base.{
  ℕ, suc, ◌+◌, ◌-◌, Bool, false, not, Option, none, some, [], ◌∷◌, ltb, ◌==◌, if◌then◌else◌, length,
  get_elem?, max,
}
use qlsm_extra.Base.Dict.{Dict, lookup}
use qlsm_extra.GunGame.Parse.{Ladder}

-- (step, frags_on_step)
pub record State : Type 0 where
  pub step : ℕ
  pub frags : ℕ

pub data Event : Type 0 where
  frag skip back demote : Event

-- `same` is the source's "none".
pub data Outcome : Type 0 where
  same up down back win : Outcome

-- `ladder[step][1]`, with `none` for the IndexError.
unfoldable pub need : Ladder → ℕ → Option ℕ
need ladder step = elim (get_elem? ladder step) [ none ↦ none | some (weapon, n) ↦ some n ]

abbrev pub at : ℕ → ℕ → Outcome → State × Outcome
at step frags outcome = (record { step = step; frags = frags }, outcome)

-- `step == len(ladder) - 1`
abbrev pub is_last : Ladder → ℕ → Bool
is_last ladder step = suc step == length ladder

-- `advance`; `none` is an IndexError.
unfoldable pub advance : State → Ladder → Event → Option (State × Outcome)
advance s ladder Event.back =
    if not (s.frags == 0)
    then some (at s.step (s.frags - 1) Outcome.back)
    else if s.step == 0
    then some (at 0 0 Outcome.same)
    else elim (need ladder (s.step - 1)) [
      | none ↦ none
      | some n ↦ some (at (s.step - 1) (n - 1) Outcome.down)
    ]
advance s ladder Event.skip =
    if is_last ladder s.step
    then some (at s.step (s.frags + 1) Outcome.win)
    else some (at (s.step + 1) 0 Outcome.up)
advance s ladder Event.frag = elim (need ladder s.step) [
  | none ↦ none
  | some n ↦
      if ltb (s.frags + 1) n
      then some (at s.step (s.frags + 1) Outcome.same)
      else if is_last ladder s.step
      then some (at s.step (s.frags + 1) Outcome.win)
      else some (at (s.step + 1) 0 Outcome.up)
]
advance s ladder Event.demote =
    if s.step == 0
    then some (at 0 0 (if s.frags == 0 then Outcome.same else Outcome.down))
    else some (at (s.step - 1) 0 Outcome.down)

-- `max(step for step, _ in states.values())`
unfoldable pub top_step : Dict State → ℕ
top_step [] = 0
top_step ((_, s) ∷ states) = max s.step (top_step states)

-- `next(key for key, (step, _) in states.items() if step == top)`
unfoldable pub first_at : ℕ → Dict State → Option ℕ
first_at top [] = none
first_at top ((key, s) ∷ states) = if s.step == top then some key else first_at top states

unfoldable pub keeps_tie : ℕ → Option ℕ → Dict State → Bool
keeps_tie top none states = false
keeps_tie top (some current) states = elim (lookup current states) [
  | none ↦ false
  | some s ↦ s.step == top
]

-- `pick_leader`: the current leader keeps a tie, and below step 1 there is none.
unfoldable pub pick_leader : Dict State → Option ℕ → Option ℕ
unfolding keeps_tie
pick_leader states current =
    let top = top_step states in
    if top == 0 then none else if keeps_tie top current states then current else first_at top states
