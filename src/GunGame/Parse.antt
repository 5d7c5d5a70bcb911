-- ===== src/GunGame/Parse.antt =====
-- The ladder of gungame.py: `parse_ladder`, `parse_ms`, `parse_channels`.
use qlsm_extra.Base.{
  ℕ, ◌+◌, ◌≤◌, ◌≡◌, refl, not, Option, none, some, List, [], ◌∷◌, arith, ltb, if◌then◌else◌,
}
use qlsm_extra.Base.Int.{pos, negsuc}
use qlsm_extra.Base.Text.{Text, codes, text_eq, split, partition, int}

-- The place of a weapon in WEAPON_FIELDS, and the frags on its step.
abbrev pub Ladder : Type 0
Ladder = List (ℕ × ℕ)

-- LADDER_KEYS in the order of WEAPON_FIELDS: all but "hands".
abbrev pub ladder_keys : List Text
ladder_keys =
    codes "g"
    ∷ codes "mg"
    ∷ codes "sg"
    ∷ codes "gl"
    ∷ codes "rl"
    ∷ codes "lg"
    ∷ codes "rg"
    ∷ codes "pg"
    ∷ codes "bfg"
    ∷ codes "gh"
    ∷ codes "ng"
    ∷ codes "pl"
    ∷ codes "cg"
    ∷ codes "hmg"
    ∷ []

unfoldable pub index_of : Text → List Text → ℕ → Option ℕ
index_of key [] i = none
index_of key (k ∷ keys) i = if text_eq key k then some i else index_of key keys (i + 1)

-- The messages of the ValueErrors, without the token that they quote.
pub data BadLadder : Type 0 where
  bad_step bad_count low_count empty : BadLadder

pub data Parsed (A : Type 0) : Type 0 where
  ok : A → Parsed A
  value_error : BadLadder → Parsed A

-- One round of the loop of `parse_ladder`.
unfoldable pub parse_step : Text → Parsed (ℕ × ℕ)
parse_step token =
    let (key, sep, frags) = partition b':' token in
    elim (index_of key ladder_keys 0) [
      | none ↦ value_error bad_step
      | some weapon ↦ if not sep then value_error bad_step else elim (int frags) [
        | none ↦ value_error bad_count
        | some (negsuc n) ↦ value_error low_count
        | some (pos n) ↦ if ltb n 1 then value_error low_count else ok (weapon, n)
      ]
    ]

parse_steps : List Text → Parsed Ladder
parse_steps [] = ok []
parse_steps (token ∷ tokens) = elim (parse_step token) [
  | value_error e ↦ value_error e
  | ok step ↦ elim (parse_steps tokens) [
    | value_error e ↦ value_error e
    | ok ladder ↦ ok (step ∷ ladder)
  ]
]

-- `parse_ladder`. An error of a token comes before one of a later token, as in the loop.
unfoldable pub parse_ladder : Text → Parsed Ladder
unfolding parse_steps
parse_ladder text = elim (parse_steps (split text)) [
  | value_error e ↦ value_error e
  | ok [] ↦ value_error empty
  | ok (step ∷ ladder) ↦ ok (step ∷ ladder)
]

abbrev pub default_text : Text
default_text = codes "rl:2 rg:2 lg:2 pg:2 sg:2 gl:2 mg:2 g:1"

abbrev pub default_ladder : Ladder
default_ladder = (4, 2) ∷ (6, 2) ∷ (5, 2) ∷ (7, 2) ∷ (2, 2) ∷ (3, 2) ∷ (1, 2) ∷ (0, 1) ∷ []

pub default_ladder_parsed : parse_ladder default_text ≡ ok default_ladder
unfolding parse_ladder parse_step split partition index_of int
default_ladder_parsed = refl

-- Every step asks for a frag at least.
abbrev pub Needs : Ladder → Type 0
Needs [] = Unit
Needs ((weapon, need) ∷ ladder) = (1 ≤ need) × Needs ladder

abbrev pub IsLadder : Ladder → Type 0
IsLadder [] = ⊥
IsLadder (step ∷ ladder) = Needs (step ∷ ladder)

abbrev StepOk : Parsed (ℕ × ℕ) → Type 0
StepOk (ok step) = 1 ≤ step.1
StepOk (value_error e) = Unit

abbrev StepsOk : Parsed Ladder → Type 0
StepsOk (ok ladder) = Needs ladder
StepsOk (value_error e) = Unit

abbrev pub ParsedOk : Parsed Ladder → Type 0
ParsedOk (ok ladder) = IsLadder ladder
ParsedOk (value_error e) = Unit

parse_step-StepOk : (token : Text) → StepOk (parse_step token)
unfolding parse_step
parse_step-StepOk token = ground arith

parse_steps-StepsOk : (tokens : List Text) → StepsOk (parse_steps tokens)
unfolding parse_steps
parse_steps-StepsOk [] = tt
parse_steps-StepsOk (token ∷ tokens) =
    ground (arith, parse_step-StepOk token, parse_steps-StepsOk tokens)

-- A text that is accepted as a ladder has a step at least, and asks for a frag at least on each.
pub parse_ladder-ParsedOk : (text : Text) → ParsedOk (parse_ladder text)
unfolding parse_ladder
parse_ladder-ParsedOk text = ground (arith, parse_steps-StepsOk (split text))
