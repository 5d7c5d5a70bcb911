-- ===== src/Roulette/Table.antt =====
-- A Python dict keyed by text, in insertion order.
use qlsm_extra.Base.{Option, none, some, List, [], ◌∷◌, if◌then◌else◌}
use qlsm_extra.Base.Text.{Text, text_eq}

abbrev pub Table {ℓ} : Type ℓ → Type ℓ
Table V = List (Text × V)

module _ {ℓ} {V : Type ℓ} where
  -- `d.get(key)`
  abbrev pub find : Text → Table V → Option V
  find key [] = none
  find key ((k, value) ∷ rest) = if text_eq key k then some value else find key rest

  -- `d[key] = value`
  abbrev pub set : Text → V → Table V → Table V
  set key value [] = (key, value) ∷ []
  set key value ((k, old) ∷ rest) =
      if text_eq key k then (k, value) ∷ rest else (k, old) ∷ set key value rest

-- `d.get(key, default)`
abbrev pub or_else {ℓ} : {A : Type ℓ} → A → Option A → A
or_else a none = a
or_else a (some b) = b
