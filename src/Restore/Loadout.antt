-- ===== src/Restore/Loadout.antt =====
-- Weapon masks of a checkpoint: the functions on loadouts of restore/codec.py. A loadout is a flag for each
-- of WEAPON_ORDER; bit `i + 1` of a mask is the weapon at index `i`.
use qlsm_extra.Base.{
  ℕ, zero, suc, ◌+◌, ◌*◌, ◌/◌, ◌%◌, ◌≤◌, ◌<◌, ◌≡◌, refl, Bool, true, false, ◌&&◌, Option, none,
  some, List, [], ◌∷◌, arith, leb, ◌==◌, if◌then◌else◌, length,
}
use qlsm_extra.Base.Int.{ℤ, pos, negsuc}

-- `m & (1 << k)` is not 0.
unfoldable pub has_bit : ℕ → ℕ → Bool
has_bit zero m = m % 2 == 1
has_bit (suc k) m = has_bit k (m / 2)

-- `m | (1 << k)`
unfoldable pub set_bit : ℕ → ℕ → ℕ
set_bit zero m = if m % 2 == 1 then m else m + 1
set_bit (suc k) m = set_bit k (m / 2) * 2 + m % 2

-- 0xFFFF + 1
abbrev pub mask_size : ℕ
mask_size = 65536

-- The loop of `loadout_to_mask`, from a bit on.
unfoldable pub set_bits : ℕ → List Bool → ℕ → ℕ
set_bits k [] mask = mask
set_bits k (owned ∷ loadout) mask =
    set_bits (suc k) loadout (if owned then set_bit k mask else mask)

-- What `loadout_to_mask` accepts; `other` is anything else.
pub data Loadout : Type 0 where
  missing other : Loadout
  number : ℕ → Loadout
  flags : List Bool → Loadout

-- `loadout_to_mask`
unfoldable pub loadout_to_mask : Loadout → ℕ
loadout_to_mask Loadout.missing = 0
loadout_to_mask (Loadout.number n) = n % mask_size
loadout_to_mask Loadout.other = 0
loadout_to_mask (Loadout.flags loadout) = set_bits 1 loadout 0 % mask_size

-- The loop of `mask_to_loadout`, for the next weapons.
unfoldable pub bits_from : ℕ → ℕ → ℕ → List Bool
bits_from k zero m = []
bits_from k (suc n) m = has_bit k m ∷ bits_from (suc k) n m

-- `mask_to_loadout`
unfoldable pub mask_to_loadout : ℕ → List Bool
mask_to_loadout mask = bits_from 1 15 (mask % mask_size)

-- `repair_telemetry_loadout_mask`
unfoldable pub repair_mask : ℕ → ℕ
repair_mask mask = let m = mask % mask_size in if m % 2 == 1 then (m * 2) % mask_size else m

-- `ensure_active_weapon_in_loadout`, for a weapon that is a number, or none.
unfoldable pub ensure_active_weapon : ℕ → Option ℤ → ℕ
ensure_active_weapon lo none = lo % mask_size
ensure_active_weapon lo (some (negsuc w)) = lo % mask_size
ensure_active_weapon lo (some (pos w)) =
    if leb 1 w && leb w 14 then set_bit w lo % mask_size else lo % mask_size

-- `normalize_loadout_mask`
unfoldable pub normalize_mask : ℕ → Option ℤ → ℕ
normalize_mask lo weapon = ensure_active_weapon (repair_mask lo) weapon

pub has_bit-set_bit : (j k m : ℕ) → has_bit j (set_bit k m) ≡ (if j == k then true else has_bit j m)
unfolding has_bit set_bit
has_bit-set_bit zero zero m = ground arith
has_bit-set_bit zero (suc k) m = ground arith
has_bit-set_bit (suc j) zero m = ground arith
has_bit-set_bit (suc j) (suc k) m = ground (arith, has_bit-set_bit j k (m / 2))

-- The masks of `n` bits.
unfoldable pub pow2 : ℕ → ℕ
pow2 zero = 1
pow2 (suc n) = pow2 n * 2

pub set_bit_below : (n k m : ℕ) → k < n → m < pow2 n → set_bit k m < pow2 n
unfolding set_bit pow2
set_bit_below zero k m o b = absurd (omega (arith, o))
set_bit_below (suc n) zero m o b = ground (arith, b)
set_bit_below (suc n) (suc k) m o b =
    let s = set_bit_below n k (m / 2) (omega (arith, o)) (omega (arith, b)) in omega (arith, s)

set_bits_below :
    (n k : ℕ) (loadout : List Bool) (m : ℕ)
    → k + length loadout ≤ n
    → m < pow2 n
    → set_bits k loadout m < pow2 n
unfolding set_bits
set_bits_below n k [] m o b = b
set_bits_below n k (true ∷ loadout) m o b =
    set_bits_below n (suc k) loadout (set_bit k m) (omega (arith, o))
      (set_bit_below n k m (omega (arith, o)) b)
set_bits_below n k (false ∷ loadout) m o b = set_bits_below n (suc k) loadout m (omega (arith, o)) b

has_bit-set_bits :
    (j k : ℕ) (loadout : List Bool) (m : ℕ) → j < k → has_bit j (set_bits k loadout m) ≡ has_bit j m
unfolding set_bits
has_bit-set_bits j k [] m o = refl
has_bit-set_bits j k (true ∷ loadout) m o = ground (
  arith,
  o,
  has_bit-set_bits j (suc k) loadout (set_bit k m) (omega (arith, o)),
  has_bit-set_bit j k m,
)
has_bit-set_bits j k (false ∷ loadout) m o = has_bit-set_bits j (suc k) loadout m (omega (arith, o))

has_bit-zero : (j : ℕ) → has_bit j 0 ≡ false
unfolding has_bit
has_bit-zero zero = refl
has_bit-zero (suc j) = has_bit-zero j

bits_from-set_bits :
    (k : ℕ) (loadout : List Bool) (m : ℕ)
    → ((j : ℕ) → k ≤ j → has_bit j m ≡ false)
    → bits_from k (length loadout) (set_bits k loadout m) ≡ loadout
unfolding bits_from set_bits
bits_from-set_bits k [] m z = refl
bits_from-set_bits k (true ∷ loadout) m z =
    let rest =
      bits_from-set_bits (suc k) loadout (set_bit k m)
        (λ j o. ground (arith, o, z j, has_bit-set_bit j k m)) in
    let first = has_bit-set_bits k (suc k) loadout (set_bit k m) (omega arith) in
    ground (arith, rest, first, has_bit-set_bit k k m)
bits_from-set_bits k (false ∷ loadout) m z =
    let rest = bits_from-set_bits (suc k) loadout m (λ j o. z j (omega (arith, o))) in
    let first = has_bit-set_bits k (suc k) loadout m (omega arith) in
    ground (arith, rest, first, z k (omega arith))

-- A loadout with a flag for each of the fifteen weapons comes back from its mask as it is.
pub mask_to_loadout-loadout_to_mask :
    (loadout : List Bool)
    → length loadout ≡ 15
    → mask_to_loadout (loadout_to_mask (Loadout.flags loadout)) ≡ loadout
unfolding mask_to_loadout loadout_to_mask pow2
mask_to_loadout-loadout_to_mask loadout e =
    let m = set_bits 1 loadout 0 in
    let below : m < 65536 = set_bits_below 16 1 loadout 0 (omega (arith, e)) (omega arith) in
    let whole : m % mask_size % mask_size ≡ m = omega (arith, below) in
    let back = bits_from-set_bits 1 loadout 0 (λ j o. has_bit-zero j) in rw (whole, ← e) back

pub set_bit_owned : (k m : ℕ) → has_bit k m ≡ true → set_bit k m ≡ m
unfolding has_bit set_bit
set_bit_owned zero m h = ground (arith, h)
set_bit_owned (suc k) m h = omega (arith, set_bit_owned k (m / 2) h)
