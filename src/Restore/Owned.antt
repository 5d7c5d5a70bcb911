-- ===== src/Restore/Owned.antt =====
-- A weapon mask as a set of weapons.
use qlsm_extra.Base.{
  ℕ, zero, suc, ◌%◌, ◌<◌, ◌≡◌, refl, Bool, true, ◌&&◌, Bool-cases, Option, none, some, arith, leb,
  ◌==◌, if◌then◌else◌, inl, inr,
}
use qlsm_extra.Base.Int.{ℤ, pos, negsuc}
use qlsm_extra.Restore.Loadout.{
  has_bit, set_bit, mask_size, repair_mask, ensure_active_weapon, normalize_mask, pow2,
  set_bit_below, has_bit-set_bit, set_bit_owned,
}

-- The set of weapons that a mask stands for, and the set with the weapon in hand; only 1 to 14 are weapons.
abbrev pub Owned : Type 0
Owned = ℕ → Bool

abbrev pub owned : ℕ → Owned
owned mask weapon = has_bit weapon mask

abbrev pub add : Option ℤ → Owned → Owned
add none set = set
add (some (negsuc w)) set = set
add (some (pos w)) set = λ v. if leb 1 w && (leb w 14 && v == w) then true else set v

set_bit-mask : (w lo : ℕ) → leb w 14 ≡ true → lo < mask_size → set_bit w lo < mask_size
unfolding pow2
set_bit-mask w lo o b = set_bit_below 16 w lo (ground (arith, o)) b

-- On masks, `ensure_active_weapon_in_loadout` adds the weapon in hand to the set of weapons, and gives a mask.
pub ensure_active_weapon-add :
    (lo : ℕ) (weapon : Option ℤ)
    → lo < mask_size
    → (ensure_active_weapon lo weapon < mask_size)
      × ((v : ℕ) → owned (ensure_active_weapon lo weapon) v ≡ add weapon (owned lo) v)
unfolding ensure_active_weapon
ensure_active_weapon-add lo none b =
    let same : lo % mask_size ≡ lo = omega (arith, b) in (omega (arith, b), λ v. rw same refl)
ensure_active_weapon-add lo (some (negsuc w)) b =
    let same : lo % mask_size ≡ lo = omega (arith, b) in (omega (arith, b), λ v. rw same refl)
ensure_active_weapon-add lo (some (pos w)) b = elim (Bool-cases (leb 1 w && leb w 14)) [
  | inl e ↦
      let below = set_bit-mask w lo (ground (arith, e)) b in
      let same : set_bit w lo % mask_size ≡ set_bit w lo = omega (arith, below) in
      rw (ensure_active_weapon, e, same) (below, λ v. ground (arith, e, has_bit-set_bit v w lo))
  | inr e ↦
      let same : lo % mask_size ≡ lo = omega (arith, b) in
      rw (ensure_active_weapon, e, same) (b, λ v. ground (arith, e))
]

repair_mask_even : (mask : ℕ) → (repair_mask mask % 2 ≡ 0) × (repair_mask mask < mask_size)
unfolding repair_mask
repair_mask_even mask = ground arith

repair_mask_same : (m : ℕ) → m % 2 ≡ 0 → m < mask_size → repair_mask m ≡ m
unfolding repair_mask
repair_mask_same m e b = ground (arith, e, b)

set_bit_even : (w m : ℕ) → leb 1 w ≡ true → set_bit w m % 2 ≡ m % 2
unfolding set_bit
set_bit_even zero m o = ground (arith, o)
set_bit_even (suc w) m o = omega arith

ensure_even : (m : ℕ) (weapon : Option ℤ) → m % 2 ≡ 0 → ensure_active_weapon m weapon % 2 ≡ 0
unfolding ensure_active_weapon
ensure_even m none e = omega (arith, e)
ensure_even m (some (negsuc w)) e = omega (arith, e)
ensure_even m (some (pos w)) e = ground (arith, e, set_bit_even w m)

ensure_twice :
    (m : ℕ) (weapon : Option ℤ)
    → m < mask_size
    → ensure_active_weapon (ensure_active_weapon m weapon) weapon ≡ ensure_active_weapon m weapon
unfolding ensure_active_weapon
ensure_twice m none b = omega (arith, b)
ensure_twice m (some (negsuc w)) b = omega (arith, b)
ensure_twice m (some (pos w)) b = elim (Bool-cases (leb 1 w && leb w 14)) [
  | inl e ↦
      let below = set_bit-mask w m (ground (arith, e)) b in
      let same : set_bit w m % mask_size ≡ set_bit w m = omega (arith, below) in
      let has : has_bit w (set_bit w m) ≡ true = ground (arith, has_bit-set_bit w w m) in
      rw (ensure_active_weapon, e, same, set_bit_owned w (set_bit w m) has, same) refl
  | inr e ↦ rw (ensure_active_weapon, e) (omega (arith, b))
]

-- A loadout mask that was normalized once for a weapon in hand stays as it is.
pub normalize_mask_twice :
    (lo : ℕ) (weapon : Option ℤ)
    → normalize_mask (normalize_mask lo weapon) weapon ≡ normalize_mask lo weapon
unfolding normalize_mask
normalize_mask_twice lo weapon =
    let r = repair_mask_even lo in
    let m = ensure_active_weapon (repair_mask lo) weapon in
    let same =
      repair_mask_same m (ensure_even (repair_mask lo) weapon r.0)
        (ensure_active_weapon-add (repair_mask lo) weapon r.1).0 in
    rw same (ensure_twice (repair_mask lo) weapon r.1)
