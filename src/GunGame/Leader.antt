-- ===== src/GunGame/Leader.antt =====
-- Who leads: `pick_leader` of gungame.py.
use qlsm_extra.Base.{
  ℕ, ◌≤◌, ◌≡◌, refl, Bool, true, false, Option, none, some, [], ◌∷◌, arith, ◌==◌, max, Bool-cases,
  inl, inr,
}
use qlsm_extra.Base.Dict.{Dict, lookup, contains, Distinct}
use qlsm_extra.GunGame.{State, top_step, first_at, keeps_tie, pick_leader}

-- No player is on a later step than the first player in the dict order that the option names, if one
-- is named; without a leader every player is on the first step.
abbrev pub NoneAbove : ℕ → Dict State → Type 0
NoneAbove top [] = Unit
NoneAbove top ((key, s) ∷ states) = (s.step ≤ top) × NoneAbove top states

pub NoneAbove-le : (m n : ℕ) (states : Dict State) → m ≤ n → NoneAbove m states → NoneAbove n states
NoneAbove-le m n [] h a = tt
NoneAbove-le m n (e ∷ states) h a = (omega arith, NoneAbove-le m n states h a.1)

top_step-NoneAbove : (states : Dict State) → NoneAbove (top_step states) states
unfolding top_step
top_step-NoneAbove [] = tt
top_step-NoneAbove ((key, s) ∷ states) = (
  omega arith,
  NoneAbove-le (top_step states) (max s.step (top_step states)) states (omega arith)
      (top_step-NoneAbove states),
)

-- Whether the option names a player on the step.
abbrev pub stands_on : ℕ → Option State → Bool
stands_on top none = false
stands_on top (some s) = s.step == top

lookup-contains :
    (key : ℕ) (states : Dict State) → contains key states ≡ false → lookup key states ≡ none
lookup-contains key [] h = refl
lookup-contains key (e ∷ states) h = ground (arith, lookup-contains key states)

-- What `first_at` finds: an entry of the dict on the step, if there is one at all.
abbrev pub Found : ℕ → Option ℕ → Dict State → Type 0
Found top none states = ⊥
Found top (some key) states =
    (stands_on top (lookup key states) ≡ true) × (contains key states ≡ true)

first_at-Found :
    (top : ℕ) (states : Dict State)
    → Distinct states
    → NoneAbove top states
    → top ≤ top_step states
    → 1 ≤ top
    → Found top (first_at top states) states
unfolding first_at top_step
first_at-Found top [] d a h p = absurd (omega arith)
first_at-Found top ((key, s) ∷ states) d a h p = ground (arith, first_at-Found top states d.1 a.1)

-- The leader is right: on a later step than the first, with nobody ahead; and there is none only
-- while every player is on the first step.
abbrev pub Ahead : Option State → Dict State → Type 0
Ahead none states = ⊥
Ahead (some s) states = (1 ≤ s.step) × NoneAbove s.step states

abbrev pub Leads : Option ℕ → Dict State → Type 0
Leads none states = NoneAbove 0 states
Leads (some key) states = Ahead (lookup key states) states

top_step-le : (n : ℕ) (states : Dict State) → NoneAbove n states → top_step states ≤ n
unfolding top_step
top_step-le n [] h = omega arith
top_step-le n ((key, s) ∷ states) h = omega (arith, top_step-le n states h.1)

pub NoneAbove-lookup :
    (n key : ℕ) (s : State) (states : Dict State)
    → NoneAbove n states
    → lookup key states ≡ some s
    → s.step ≤ n
NoneAbove-lookup n key s [] h e = cc
NoneAbove-lookup n key s (x ∷ states) h e = ground (arith, NoneAbove-lookup n key s states h.1)

-- A player on the top step leads.
stands_on-Leads :
    (key : ℕ) (states : Dict State)
    → 1 ≤ top_step states
    → stands_on (top_step states) (lookup key states) ≡ true
    → Leads (some key) states
stands_on-Leads key states p h = from (lookup key states) refl h
  where
    from :
        (o : Option State)
        → lookup key states ≡ o
        → stands_on (top_step states) o ≡ true
        → Ahead o states
    from none e k = cc
    from (some s) e k = (
      ground arith,
      NoneAbove-le (top_step states) s.step states (ground arith) (top_step-NoneAbove states),
    )

keeps_tie-Leads :
    (current : Option ℕ) (states : Dict State)
    → 1 ≤ top_step states
    → keeps_tie (top_step states) current states ≡ true
    → Leads current states
unfolding keeps_tie
keeps_tie-Leads none states p h = cc
keeps_tie-Leads (some key) states p h = stands_on-Leads key states p h

first_at-Leads :
    (states : Dict State)
    → Distinct states
    → 1 ≤ top_step states
    → Leads (first_at (top_step states) states) states
first_at-Leads states d p =
    from (first_at (top_step states) states)
      (first_at-Found (top_step states) states d (top_step-NoneAbove states) (omega arith) p)
  where
    from : (o : Option ℕ) → Found (top_step states) o states → Leads o states
    from none h = absurd h
    from (some key) h = stands_on-Leads key states p h.0

-- The player that `pick_leader` picks leads, and none is picked only when nobody does.
pub pick_leader-Leads :
    (states : Dict State) (current : Option ℕ)
    → Distinct states
    → Leads (pick_leader states current) states
unfolding pick_leader keeps_tie
pick_leader-Leads states current d = elim (Bool-cases (top_step states == 0)) [
  | inl e ↦
      rw (pick_leader, e)
        (NoneAbove-le (top_step states) 0 states (ground arith) (top_step-NoneAbove states))
  | inr e ↦ elim (Bool-cases (keeps_tie (top_step states) current states)) [
    | inl tie ↦ rw (pick_leader, e, tie) (keeps_tie-Leads current states (ground arith) tie)
    | inr tie ↦ rw (pick_leader, e, tie) (first_at-Leads states d (ground arith))
  ]
]

-- A leader who still leads stays the leader, also when others have caught up.
pub pick_leader-keeps :
    (states : Dict State) (current : Option ℕ)
    → Leads current states
    → pick_leader states current ≡ current
unfolding pick_leader keeps_tie
pick_leader-keeps states none h = ground (arith, top_step-le 0 states h)
pick_leader-keeps states (some key) h = from (lookup key states) refl h
  where
    from :
        (o : Option State)
        → lookup key states ≡ o
        → Ahead o states
        → pick_leader states (some key) ≡ some key
    from none e k = absurd k
    from (some s) e k =
        rw (pick_leader, keeps_tie, e)
          (ground (
            arith,
            top_step-le s.step states k.1,
            NoneAbove-lookup (top_step states) key s states (top_step-NoneAbove states) e,
          ))
