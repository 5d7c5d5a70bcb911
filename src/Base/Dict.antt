-- ===== src/Base/Dict.antt =====
-- A Python dict keyed by numbers, in insertion order.
use Prim.Native.Nat.{ℕ}
use mathlib.Core.Path.{◌≡◌, refl}
use mathlib.Core.Bool.{Bool, true, false}
use mathlib.Core.Option.{Option, none, some}
use mathlib.Core.List.{List, [], ◌∷◌}
use native.Mathlib.Omega.{arith}
use qlsm_extra.Base.Tests.{◌==◌, if◌then◌else◌}
use qlsm_extra.Base.Lists.{All}

-- The entries from the oldest to the newest.
abbrev pub Dict {ℓ} : Type ℓ → Type ℓ
Dict V = List (ℕ × V)

module _ {ℓ} {V : Type ℓ} where
  -- `k in d`
  abbrev pub contains : ℕ → Dict V → Bool
  contains k [] = false
  contains k ((key, _) ∷ rest) = if k == key then true else contains k rest

  -- `d.get(k)`
  abbrev pub lookup : ℕ → Dict V → Option V
  lookup k [] = none
  lookup k ((key, value) ∷ rest) = if k == key then some value else lookup k rest

  -- `d.pop(k, None)`
  abbrev pub erase : ℕ → Dict V → Dict V
  erase k [] = []
  erase k ((key, value) ∷ rest) = if k == key then rest else (key, value) ∷ erase k rest

  -- `d[k] = v`: an old key keeps its place.
  abbrev pub insert : ℕ → V → Dict V → Dict V
  insert k v [] = (k, v) ∷ []
  insert k v ((key, value) ∷ rest) =
      if k == key then (k, v) ∷ rest else (key, value) ∷ insert k v rest

  -- `list(d)`
  abbrev pub keys : Dict V → List ℕ
  keys [] = []
  keys ((key, _) ∷ rest) = key ∷ keys rest

  -- No key stands twice.
  abbrev pub Distinct : Dict V → Type 0
  Distinct [] = Unit
  Distinct ((k, v) ∷ d) = (contains k d ≡ false) × Distinct d

  pub contains-insert :
      (j k : ℕ) (v : V) (d : Dict V)
      → contains j (insert k v d) ≡ (if j == k then true else contains j d)
  contains-insert j k v [] = refl
  contains-insert j k v (e ∷ d) = ground (arith, contains-insert j k v d)

  pub insert-Distinct : (k : ℕ) (v : V) (d : Dict V) → Distinct d → Distinct (insert k v d)
  insert-Distinct k v [] h = (refl, tt)
  insert-Distinct k v (e ∷ d) h =
      ground (arith, insert-Distinct k v d h.1, contains-insert e.0 k v d)

  pub lookup-insert :
      (j k : ℕ) (v : V) (d : Dict V)
      → lookup j (insert k v d) ≡ (if j == k then some v else lookup j d)
  lookup-insert j k v [] = refl
  lookup-insert j k v (e ∷ d) = ground (arith, lookup-insert j k v d)

  pub lookup_missing : (k : ℕ) (d : Dict V) → contains k d ≡ false → lookup k d ≡ none
  lookup_missing k [] h = refl
  lookup_missing k (e ∷ d) h = ground (arith, lookup_missing k d)

  pub lookup-erase :
      (d : Dict V) (j k : ℕ)
      → Distinct d
      → lookup j (erase k d) ≡ (if j == k then none else lookup j d)
  lookup-erase [] j k h = ground arith
  lookup-erase (e ∷ d) j k h = ground (arith, lookup-erase d j k h.1, lookup_missing j d)

  pub contains-erase :
      (d : Dict V) (j k : ℕ)
      → Distinct d
      → contains j (erase k d) ≡ (if j == k then false else contains j d)
  contains-erase [] j k h = ground arith
  contains-erase (e ∷ d) j k h = ground (arith, contains-erase d j k h.1)

  pub erase-Distinct : (d : Dict V) (k : ℕ) → Distinct d → Distinct (erase k d)
  erase-Distinct [] k h = tt
  erase-Distinct (e ∷ d) k h = ground (arith, erase-Distinct d k h.1, contains-erase d e.0 k h.1)

-- Predicates on the entries of a dict.
module _ {ℓ κ} {V : Type ℓ} (P : ℕ × V → Type κ) where
  pub All-lookup : (k : ℕ) (v : V) (d : Dict V) → All P d → lookup k d ≡ some v → P (k, v)
  All-lookup k v [] h e = cc
  All-lookup k v (x ∷ d) h e = ground (arith, All-lookup k v d h.1)

  pub All-insert : (k : ℕ) (v : V) (d : Dict V) → All P d → P (k, v) → All P (insert k v d)
  All-insert k v [] h p = (p, tt)
  All-insert k v (x ∷ d) h p = ground (arith, All-insert k v d h.1 p)

  pub All-erase : (k : ℕ) (d : Dict V) → All P d → All P (erase k d)
  All-erase k [] h = tt
  All-erase k (x ∷ d) h = ground (arith, All-erase k d h.1)
