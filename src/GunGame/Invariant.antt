-- ===== src/GunGame/Invariant.antt =====
-- What the handlers of gungame.py keep: the states fit the ladder, and the leader is right.
use qlsm_extra.Base.{
  ℕ, ◌≤◌, ◌≡◌, ◌≢◌, refl, ap, ◌∙◌, Bool, true, false, Option, none, some, [], ◌∷◌, arith, ◌==◌,
  Bool-cases, inl, inr,
}
use qlsm_extra.Base.Dict.{Dict, lookup, insert, Distinct, lookup-insert}
use qlsm_extra.GunGame.{Ladder, Needs, IsLadder, State, Event, Outcome, need, advance}
use qlsm_extra.GunGame.Progress.{
  Fits, Below, Returns, advance-frag, advance-back, advance-demote, advance-skip,
}
use qlsm_extra.GunGame.Leader.{NoneAbove, Leads, Ahead, NoneAbove-lookup}
use qlsm_extra.GunGame.Plugin.{GunGame, state_of}

-- Every state is on a step of the ladder, with fewer frags than it asks for.
abbrev pub AllFit : Ladder → Dict State → Type 0
AllFit ladder [] = Unit
AllFit ladder ((key, s) ∷ states) = Fits ladder s × AllFit ladder states

-- Once the match is won nothing counts, and the winner's state is past its step.
abbrev pub FitUntil : Bool → Ladder → Dict State → Type 0
FitUntil true ladder states = Unit
FitUntil false ladder states = AllFit ladder states

pub record IsGame (g : GunGame) : Type 0 where
  pub distinct : Distinct g.states
  pub ladder_ok : IsLadder g.ladder
  pub fit : FitUntil g.won g.ladder g.states
  pub leads : Leads g.leader g.states

-- Whether a state moved to another step.
abbrev pub moves : Outcome → Bool
moves Outcome.up = true
moves Outcome.down = true
moves _ = false

abbrev pub is_win : Outcome → Bool
is_win Outcome.win = true
is_win _ = false

abbrev pub FitsUntil : Bool → Ladder → State → Type 0
FitsUntil true ladder s = Unit
FitsUntil false ladder s = Fits ladder s

-- What `advance` returns for a state on the ladder.
abbrev pub Advanced : Ladder → State → Option (State × Outcome) → Type 0
Advanced ladder s none = ⊥
Advanced ladder s (some (t, o)) =
    FitsUntil (is_win o) ladder t × (moves o ≡ false → t.step ≡ s.step)

abbrev Moved : State → Option (State × Outcome) → Type 0
Moved s none = Unit
Moved s (some (t, o)) = moves o ≡ false → t.step ≡ s.step

advance-Moved : (s : State) (ladder : Ladder) (event : Event) → Moved s (advance s ladder event)
unfolding advance
advance-Moved s ladder Event.frag = ground arith
advance-Moved s ladder Event.skip = ground arith
advance-Moved s ladder Event.back = ground arith
advance-Moved s ladder Event.demote = ground arith

-- Short of a win the state that comes out fits.
Advanced-from :
    (ladder : Ladder) (s : State) (r : Option (State × Outcome))
    → Returns r (λ t o. o ≢ Outcome.win → Fits ladder t)
    → Moved s r
    → Advanced ladder s r
Advanced-from ladder s none h m = absurd h
Advanced-from ladder s (some (t, Outcome.win)) h m = (tt, m)
Advanced-from ladder s (some (t, Outcome.same)) h m = (h (λ e. cc), m)
Advanced-from ladder s (some (t, Outcome.up)) h m = (h (λ e. cc), m)
Advanced-from ladder s (some (t, Outcome.down)) h m = (h (λ e. cc), m)
Advanced-from ladder s (some (t, Outcome.back)) h m = (h (λ e. cc), m)

pub advance-Advanced :
    (ladder : Ladder) (s : State) (event : Event)
    → Needs ladder
    → Fits ladder s
    → Advanced ladder s (advance s ladder event)
advance-Advanced ladder s event l f =
    Advanced-from ladder s (advance s ladder event) (short event) (advance-Moved s ladder event)
  where
    short :
        (event : Event) → Returns (advance s ladder event) (λ t o. o ≢ Outcome.win → Fits ladder t)
    short Event.frag = ground (arith, advance-frag ladder s l f)
    short Event.skip = ground (arith, advance-skip ladder s l f)
    short Event.back = ground (arith, advance-back ladder s l f)
    short Event.demote = ground (arith, advance-demote ladder s l f)

AllFit-lookup :
    (ladder : Ladder) (key : ℕ) (s : State) (states : Dict State)
    → AllFit ladder states
    → lookup key states ≡ some s
    → Fits ladder s
AllFit-lookup ladder key s [] h e = cc
AllFit-lookup ladder key s (x ∷ states) h e = ground (arith, AllFit-lookup ladder key s states h.1)

pub AllFit-insert :
    (ladder : Ladder) (key : ℕ) (t : State) (states : Dict State)
    → AllFit ladder states
    → Fits ladder t
    → AllFit ladder (insert key t states)
AllFit-insert ladder key t [] h f = (f, tt)
AllFit-insert ladder key t (x ∷ states) h f =
    ground (arith, AllFit-insert ladder key t states h.1 f)

pub IsLadder-Needs : (ladder : Ladder) → IsLadder ladder → Needs ladder
IsLadder-Needs [] h = tt
IsLadder-Needs (step ∷ ladder) h = h

pub start_fits : (ladder : Ladder) → IsLadder ladder → Below (need ladder 0) 0
unfolding need
start_fits [] h = absurd h
start_fits ((w, n) ∷ ladder) h = omega (arith, h.0)

pub state_of-Fits :
    (player : ℕ) (g : GunGame)
    → IsLadder g.ladder
    → AllFit g.ladder g.states
    → Fits g.ladder (state_of player g)
unfolding state_of
state_of-Fits player g l f = from (lookup player g.states) refl
  where
    from : (o : Option State) → lookup player g.states ≡ o → Fits g.ladder (state_of player g)
    from none e = rw (state_of, e) (start_fits g.ladder l)
    from (some s) e = rw (state_of, e) (AllFit-lookup g.ladder player s g.states f e)

NoneAbove-insert :
    (n key : ℕ) (t : State) (states : Dict State)
    → NoneAbove n states
    → t.step ≤ n
    → NoneAbove n (insert key t states)
NoneAbove-insert n key t [] h k = (k, tt)
NoneAbove-insert n key t (x ∷ states) h k = ground (arith, NoneAbove-insert n key t states h.1 k)

state_of-le : (n player : ℕ) (g : GunGame) → NoneAbove n g.states → (state_of player g).step ≤ n
unfolding state_of
state_of-le n player g h = from (lookup player g.states) refl
  where
    from : (o : Option State) → lookup player g.states ≡ o → (state_of player g).step ≤ n
    from none k = rw (state_of, k) (omega arith)
    from (some s) k = rw (state_of, k) (NoneAbove-lookup n player s g.states h k)

state_of-lookup :
    (player : ℕ) (g : GunGame) (s : State) → lookup player g.states ≡ some s → state_of player g ≡ s
unfolding state_of
state_of-lookup player g s k = rw (state_of, k)

-- A state that changes within its step does not change who leads.
pub same_step-Leads :
    (player : ℕ) (t : State) (g : GunGame) (leader : Option ℕ)
    → Leads leader g.states
    → t.step ≡ (state_of player g).step
    → Leads leader (insert player t g.states)
same_step-Leads player t g none h e =
    NoneAbove-insert 0 player t g.states h (omega (arith, e, state_of-le 0 player g h))
same_step-Leads player t g (some key) h e = from (lookup key g.states) refl h
  where
    from :
        (o : Option State)
        → lookup key g.states ≡ o
        → Ahead o g.states
        → Leads (some key) (insert player t g.states)
    from none k h = absurd h
    from (some s) k h = elim (Bool-cases (key == player)) [
      | inl same ↦
          let there : lookup player g.states ≡ some s = ground (arith, k) in
          let level : t.step ≡ s.step = e ∙ ap (λ r. r.step) (state_of-lookup player g s there) in
          rw (lookup-insert, same)
            (
              omega (arith, level, h.0),
              NoneAbove-insert t.step player t g.states (rw level h.1) (omega arith),
            )
      | inr other ↦
          rw (lookup-insert, other, k)
            (
              h.0,
              NoneAbove-insert s.step player t g.states h.1
                  (omega (arith, e, state_of-le s.step player g h.1)),
            )
    ]
