-- ===== src/Roulette/Plan.antt =====
-- The pure decisions of item_roulette.py.
use qlsm_extra.Base.{
  ℕ, ◌+◌, ◌-◌, ◌*◌, ◌/◌, Bool, false, not, ◌&&◌, ◌||◌, Option, none, some, List, [], ◌∷◌, ltb, leb,
  ◌==◌, if◌then◌else◌, min, max,
}
use qlsm_extra.Base.Int.{ℤ}

-- `outcome`
pub data Outcome : Type 0 where
  gives takes : Outcome

-- ARMOR_MAX and AMMO_MAX
abbrev pub armor_max : ℕ
armor_max = 200

abbrev pub ammo_max : ℕ
ammo_max = 200

-- `roll_take`, for `rnd` in the unit 1/n.
unfoldable pub roll_take : ℕ → ℕ → ℕ → Bool
roll_take chance_percent n rnd = ltb (rnd * 100) (chance_percent * n)

abbrev same : ℕ → Option ℕ → Bool
same n none = false
same n (some m) = n == m

-- `plan_amount`; `none` keeps the engine's result.
unfoldable pub plan_amount : ℕ → Option ℕ → Option ℕ → Option ℕ → Outcome → ℕ → ℕ → Option ℕ
plan_amount pre stock none take Outcome.gives most least = none
plan_amount pre stock (some give) take Outcome.gives most least =
    if same give stock then none else some (min (pre + give) most)
plan_amount pre stock give none Outcome.takes most least = some pre
plan_amount pre stock give (some take) Outcome.takes most least = some (max (pre - take) least)

-- `l[i]` and `l[i] = x` for an index in range; out of range the lists have 0, False and no place.
abbrev pub at : List ℕ → ℕ → ℕ
at [] i = 0
at (x ∷ xs) i = if i == 0 then x else at xs (i - 1)

abbrev pub flag_at : List Bool → ℕ → Bool
flag_at [] i = false
flag_at (x ∷ xs) i = if i == 0 then x else flag_at xs (i - 1)

abbrev pub put_at {ℓ} : {A : Type ℓ} → List A → ℕ → A → List A
put_at [] i y = []
put_at (x ∷ xs) i y = if i == 0 then y ∷ xs else x ∷ put_at xs (i - 1) y

-- `plan_ammo`
unfoldable pub plan_ammo : List ℕ → ℕ → Option ℕ → Option ℕ → Outcome → Option (List ℕ)
plan_ammo pre_ammo i give take outcome =
    elim (plan_amount (at pre_ammo i) none give take outcome ammo_max 0) [
      | none ↦ none
      | some new ↦ some (put_at pre_ammo i new)
    ]

-- `plan_weapon`: the weapons and the ammo, where `none` keeps the engine's result, and whether the player
-- had the weapon.
unfoldable pub plan_weapon :
    List Bool → List ℕ → ℕ → Option ℕ → Outcome → Option (List Bool) × Option (List ℕ) × Bool
plan_weapon pre_weapons pre_ammo i none Outcome.gives = (none, none, flag_at pre_weapons i)
plan_weapon pre_weapons pre_ammo i (some give) Outcome.gives =
    (none, some (put_at pre_ammo i (min (at pre_ammo i + give) ammo_max)), flag_at pre_weapons i)
plan_weapon pre_weapons pre_ammo i give Outcome.takes =
    (some (put_at pre_weapons i false), some pre_ammo, flag_at pre_weapons i)

-- WEAPON_PREFERENCE, as indices of WEAPON_FIELDS, and the indices of "g" and "hands".
abbrev pub preference : List ℕ
preference = 4 ∷ 5 ∷ 6 ∷ 7 ∷ 2 ∷ 3 ∷ 13 ∷ 12 ∷ 1 ∷ 10 ∷ 11 ∷ 8 ∷ 9 ∷ 0 ∷ 14 ∷ []

abbrev pub gauntlet : ℕ
gauntlet = 0

abbrev pub hands : ℕ
hands = 14

-- Whether `best_weapon` takes the weapon.
abbrev pub is_usable : List Bool → List ℕ → ℕ → ℕ → Bool
is_usable weapons ammo exclude i =
    not (i == exclude)
    && (flag_at weapons i && (ltb 0 (at ammo i) || (i == gauntlet || i == hands)))

abbrev first_usable : List ℕ → List Bool → List ℕ → ℕ → ℕ
first_usable [] weapons ammo exclude = gauntlet
first_usable (i ∷ order) weapons ammo exclude =
    if is_usable weapons ammo exclude i then i else first_usable order weapons ammo exclude

-- `best_weapon`
unfoldable pub best_weapon : List Bool → List ℕ → ℕ → ℕ
best_weapon weapons ammo exclude = first_usable preference weapons ammo exclude

-- What the code reads off the float `factor` of a curse: whether it is below and above 1, `int(round(damage *
-- (1.0 - factor)))` where it is below, `int(round(damage * (factor - 1.0)))` where it is above, and
-- `int(round(factor))`.
pub record Factor : Type 0 where
  pub is_less : Bool
  pub is_more : Bool
  pub less : ℕ → ℕ
  pub more : ℕ → ℕ
  pub whole : ℤ

-- `quad_refund`: armor and health.
unfoldable pub quad_refund : ℕ → Factor → ℕ → ℕ × ℕ
quad_refund damage factor armor_after =
    let refund = factor.less damage in
    let armor = refund * 2 / 3 in
    if not factor.is_less || leb damage 0
    then (0, 0)
    else if ltb 0 armor_after
    then (armor, refund - armor)
    else (0, refund)

-- `battlesuit_extra`: armor and health.
unfoldable pub battlesuit_extra : ℕ → Factor → ℕ → ℕ → ℕ × ℕ
battlesuit_extra damage factor armor health =
    let extra = factor.more damage in
    let from_armor = min armor extra in
    let rest = extra - from_armor in
    if not factor.is_more || leb damage 0
    then (armor, health)
    else (armor - from_armor, max 1 (health - rest))
