-- ===== src/Restore/Drops.antt =====
-- The rows of dropped items: `canonicalize_drop_row` of restore/codec.py.
use qlsm_extra.Base.{
  ℕ, ◌≤◌, ◌≡◌, refl, Bool, true, false, Bool-cases, Option, none, some, [], ◌∷◌, arith, ltb, ◌==◌,
  if◌then◌else◌, min, max, inl, inr,
}
use qlsm_extra.Base.Int.{ℤ, pos, negsuc, pos_part}
use qlsm_extra.Base.Text.{Text, strip}

-- A field of a row that `int` is tried on: not there, there but false (None, ""), a value that `int` refuses, or
-- a number.
pub data Field : Type 0 where
  absent falsy bad : Field
  number : ℤ → Field

-- A row, with its coordinates as numbers in the unit of `C` or none where `float` refuses them.
pub record Row (C : Type 0) : Type 0 where
  pub i : Field
  pub item_id : Field
  pub x : Option C
  pub y : Option C
  pub z : Option C
  pub ttl : Field
  pub ttl_ms : Field
  pub cn : Option Text

-- What comes out of it.
pub record Drop (C : Type 0) : Type 0 where
  pub i : ℕ
  pub x : C
  pub y : C
  pub z : C
  pub ttl : ℕ
  pub cn : Option Text

-- DROP_LIFETIME_MS and DROP_MIN_TTL_MS
abbrev pub drop_lifetime_ms : ℕ
drop_lifetime_ms = 30000

abbrev pub drop_min_ttl_ms : ℕ
drop_min_ttl_ms = 250

-- `row.get(key, row.get(other, ...))`
abbrev pub get_or : Field → Field → Field
get_or Field.absent other = other
get_or field other = field

-- `idx`: `none` where the row is refused.
unfoldable pub index_of : Field → Option ℕ
index_of (Field.number (pos n)) = if n == 0 then none else some n
index_of _ = none

-- `ttl`, within its limits.
unfoldable pub ttl_of : Field → ℕ
ttl_of (Field.number ttl) = max 0 (min drop_lifetime_ms (pos_part ttl))
ttl_of _ = drop_lifetime_ms

abbrev is_blank : Text → Bool
is_blank [] = true
is_blank (_ ∷ _) = false

-- `cn` of the result.
unfoldable pub name_of : Option Text → Option Text
name_of none = none
name_of (some cn) = if is_blank (strip cn) then none else some (strip cn)

module _ {C : Type 0} (round : C → C) where
  -- The row, once its number and its coordinates are read. `round` is `_coord_val`.
  unfoldable pub drop_of : Row C → Option ℕ → Option C → Option C → Option C → Option (Drop C)
  drop_of row (some i) (some x) (some y) (some z) =
      let ttl = ttl_of (get_or row.ttl row.ttl_ms) in
      if ltb ttl drop_min_ttl_ms
      then none
      else some
          (record { i = i; x = round x; y = round y; z = round z; ttl = ttl; cn = name_of row.cn })
  drop_of row _ _ _ _ = none

  -- `canonicalize_drop_row` of a dict.
  unfoldable pub canonicalize_drop_row : Row C → Option (Drop C)
  canonicalize_drop_row row = drop_of row (index_of (get_or row.i row.item_id)) row.x row.y row.z

-- The row that a checkpoint holds for a drop.
abbrev pub row_of : {C : Type 0} → Drop C → Row C
row_of d = record {
  i = Field.number (pos d.i);
  item_id = Field.absent;
  x = some d.x;
  y = some d.y;
  z = some d.z;
  ttl = Field.number (pos d.ttl);
  ttl_ms = Field.absent;
  cn = d.cn;
}

-- What holds of a row that is kept.
pub record IsDrop {C : Type 0} (d : Drop C) : Type 0 where
  pub item : 1 ≤ d.i
  pub lives : (drop_min_ttl_ms ≤ d.ttl) × (d.ttl ≤ drop_lifetime_ms)

abbrev pub Kept : {C : Type 0} → Option (Drop C) → Type 0
Kept none = Unit
Kept (some d) = IsDrop d

-- What comes out again when the row of a drop is read once more: the drop, its name stripped again.
abbrev pub Again : {C : Type 0} → (C → C) → Option (Drop C) → Type 0
Again round none = Unit
Again round (some d) =
    canonicalize_drop_row round (row_of d) ≡ some (record d { cn = name_of d.cn })

abbrev Positive : Option ℕ → Type 0
Positive none = Unit
Positive (some n) = 1 ≤ n

index_of-Positive : (f : Field) → Positive (index_of f)
unfolding index_of
index_of-Positive Field.absent = tt
index_of-Positive Field.falsy = tt
index_of-Positive Field.bad = tt
index_of-Positive (Field.number (negsuc n)) = tt
index_of-Positive (Field.number (pos n)) = elim (Bool-cases (n == 0)) [
  | inl e ↦ rw e tt
  | inr e ↦ rw e (ground (arith, e))
]

ttl_of_le : (f : Field) → ttl_of f ≤ drop_lifetime_ms
unfolding ttl_of
ttl_of_le Field.absent = omega arith
ttl_of_le Field.falsy = omega arith
ttl_of_le Field.bad = omega arith
ttl_of_le (Field.number n) = omega arith

module _ {C : Type 0} (round : C → C) where
  drop_of-Kept :
      (row : Row C) (i : Option ℕ) (x y z : Option C)
      → Positive i
      → Kept (drop_of round row i x y z)
  unfolding drop_of
  drop_of-Kept row none x y z p = tt
  drop_of-Kept row (some i) none y z p = tt
  drop_of-Kept row (some i) (some x) none z p = tt
  drop_of-Kept row (some i) (some x) (some y) none p = tt
  drop_of-Kept row (some i) (some x) (some y) (some z) p =
      let f = get_or row.ttl row.ttl_ms in
      elim (Bool-cases (ltb (ttl_of f) drop_min_ttl_ms)) [
        | inl e ↦ rw e tt
        | inr e ↦ rw e (record { item = p; lives = (ground (arith, e), ttl_of_le f) })
      ]

  drop_of-Again :
      (row : Row C) (i : Option ℕ) (x y z : Option C)
      → ((c : C) → round (round c) ≡ round c)
      → Positive i
      → Again round (drop_of round row i x y z)
  unfolding drop_of canonicalize_drop_row index_of ttl_of
  drop_of-Again row none x y z r p = tt
  drop_of-Again row (some i) none y z r p = tt
  drop_of-Again row (some i) (some x) none z r p = tt
  drop_of-Again row (some i) (some x) (some y) none r p = tt
  drop_of-Again row (some i) (some x) (some y) (some z) r p =
      let f = get_or row.ttl row.ttl_ms in
      elim (Bool-cases (ltb (ttl_of f) drop_min_ttl_ms)) [
        | inl e ↦ rw e tt
        | inr e ↦
            let n : (i == 0) ≡ false = ground (arith, p) in
            let t : max 0 (min drop_lifetime_ms (ttl_of f)) ≡ ttl_of f =
              omega (arith, ttl_of_le f) in
            rw (e, n, t, e, r x, r y, r z) refl
      ]

-- A row that is kept addresses a real item, and lives between a quarter of a second and half a minute.
pub canonicalize_drop_row-Kept :
    {C : Type 0} (round : C → C) (row : Row C) → Kept (canonicalize_drop_row round row)
unfolding canonicalize_drop_row
canonicalize_drop_row-Kept round row =
    drop_of-Kept round row (index_of (get_or row.i row.item_id)) row.x row.y row.z
      (index_of-Positive (get_or row.i row.item_id))

-- A row that was kept is kept when it is read from a checkpoint again, with the same item, place and time to
-- live; rounding a coordinate twice is rounding it once.
pub canonicalize_drop_row-Again :
    {C : Type 0} (round : C → C) (row : Row C)
    → ((c : C) → round (round c) ≡ round c)
    → Again round (canonicalize_drop_row round row)
unfolding canonicalize_drop_row
canonicalize_drop_row-Again round row r =
    drop_of-Again round row (index_of (get_or row.i row.item_id)) row.x row.y row.z r
      (index_of-Positive (get_or row.i row.item_id))
