-- ===== src/Restore/Tests.antt =====
-- A rocket launcher that is picked up at 10 s and restored at 12 s.
use qlsm_extra.Base.Int.{pos}
use qlsm_extra.Restore.Loadout.{
  Loadout, loadout_to_mask, mask_to_loadout, set_bits, set_bit, ensure_active_weapon,
  normalize_mask, mask_size, mask_to_loadout-loadout_to_mask,
}
use qlsm_extra.Restore.Owned.{owned, add, ensure_active_weapon-add, normalize_mask_twice}
use qlsm_extra.Restore.Drops.{Field, Row, Again, canonicalize_drop_row, canonicalize_drop_row-Again}
use qlsm_extra.Base.{
  ℕ, ◌+◌, ◌<◌, ◌≡◌, refl, Bool, true, false, List, ◌∷◌, some, [], arith, ltb, if◌then◌else◌,
}
use qlsm_extra.Base.Dict.{lookup}
use qlsm_extra.Base.Text.{Text, codes}
use qlsm_extra.Restore.{vanilla_respawn, export_item_row, note_item_pickup, plan_item_visible}
use qlsm_extra.Restore.Roundtrip.{note-export-plan}

abbrev launcher : Text
launcher = codes "weapon_rocketlauncher"

abbrev no_rounding : ℕ → ℕ
no_rounding ms = ms

note-export-plan_example :
    plan_item_visible
      (export_item_row no_rounding launcher [] 12000 (lookup 7 (note_item_pickup 7 10000 [])))
      12000
    ≡ some (
        if ltb (12000 + 50) (10000 + vanilla_respawn launcher [])
        then 10000 + vanilla_respawn launcher []
        else 12000)
note-export-plan_example = note-export-plan no_rounding launcher [] 7 10000 12000 [] (omega arith)

-- The rocket launcher and the hands.
abbrev two_weapons : List Bool
two_weapons =
    false ∷ false ∷ false ∷ false ∷ true ∷ false ∷ false ∷ false ∷ false ∷ false ∷ false ∷ false
    ∷ false ∷ false ∷ true ∷ []

two_weapons_mask : loadout_to_mask (Loadout.flags two_weapons) ≡ 32800
unfolding loadout_to_mask set_bits set_bit
two_weapons_mask = refl

mask_to_loadout-loadout_to_mask_example :
    mask_to_loadout (loadout_to_mask (Loadout.flags two_weapons)) ≡ two_weapons
mask_to_loadout-loadout_to_mask_example = mask_to_loadout-loadout_to_mask two_weapons refl

ensure_active_weapon-add_example :
    (ensure_active_weapon 32800 (some (pos 6)) < mask_size)
    × ((v : ℕ)
        → owned (ensure_active_weapon 32800 (some (pos 6))) v ≡ add (some (pos 6)) (owned 32800) v)
ensure_active_weapon-add_example = ensure_active_weapon-add 32800 (some (pos 6)) (omega arith)

normalize_mask_twice_example :
    normalize_mask (normalize_mask 17 (some (pos 6))) (some (pos 6))
    ≡ normalize_mask 17 (some (pos 6))
normalize_mask_twice_example = normalize_mask_twice 17 (some (pos 6))

-- A rocket launcher that lies for a while; coordinates are tenths here.
abbrev dropped : Row ℕ
dropped = record {
  i = Field.absent;
  item_id = Field.number (pos 13);
  x = some 10;
  y = some 20;
  z = some 30;
  ttl = Field.number (pos 90000);
  ttl_ms = Field.absent;
  cn = some (codes " weapon_rocketlauncher");
}

canonicalize_drop_row-Again_example : Again (λ c. c) (canonicalize_drop_row (λ c. c) dropped)
canonicalize_drop_row-Again_example = canonicalize_drop_row-Again (λ c. c) dropped (λ c. refl)
