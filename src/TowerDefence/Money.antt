-- ===== src/TowerDefence/Money.antt =====
-- Team money in `build`, `upgrade` and `sell`.
use qlsm_extra.Base.{
  ℕ, ◌+◌, ◌*◌, ◌/◌, ◌≤◌, ◌<◌, ◌≡◌, refl, false, Option, none, some, [], ◌∷◌, String, arith, inl,
  inr, Option-cases, get_elem?,
}
use qlsm_extra.Base.Dict.{Dict, lookup, contains, insert, erase}
use qlsm_extra.TowerDefence.{
  Turret, PadTurret, Game, prices, turret_named, first_price, build, build_kind, upgrade,
  upgrade_turret, sell,
}

-- What stands on the pads, at the price that was paid for it.
unfoldable pub invested : Dict PadTurret → ℕ
invested [] = 0
invested ((_, t) ∷ pads) = t.spent + invested pads

-- Money in hand and money on the pads.
abbrev pub worth : Game → ℕ
worth g = g.money + invested g.pads

pub invested-insert_new :
    (k : ℕ) (t : PadTurret) (d : Dict PadTurret)
    → contains k d ≡ false
    → invested (insert k t d) ≡ invested d + t.spent
unfolding invested
invested-insert_new k t [] h = omega arith
invested-insert_new k t (e ∷ d) h = ground (arith, invested-insert_new k t d)

pub invested-insert_old :
    (k : ℕ) (t old : PadTurret) (d : Dict PadTurret)
    → lookup k d ≡ some old
    → invested (insert k t d) + old.spent ≡ invested d + t.spent
unfolding invested
invested-insert_old k t old [] h = cc
invested-insert_old k t old (e ∷ d) h = ground (arith, invested-insert_old k t old d)

pub invested-erase :
    (k : ℕ) (old : PadTurret) (d : Dict PadTurret)
    → lookup k d ≡ some old
    → invested (erase k d) + old.spent ≡ invested d
unfolding invested
invested-erase k old [] h = cc
invested-erase k old (e ∷ d) h = ground (arith, invested-erase k old d)

build_kind-worth : (pad : ℕ) (k : Turret) (g : Game) → worth (build_kind pad k g).0 ≡ worth g
unfolding build_kind
build_kind-worth pad k g =
    ground (
      arith,
      invested-insert_new pad (record { kind = k; level = 0; spent = first_price k }) g.pads,
    )

upgrade_turret-worth :
    (pad : ℕ) (t : PadTurret) (g : Game)
    → lookup pad g.pads ≡ some t
    → worth (upgrade_turret pad t g).0 ≡ worth g
unfolding upgrade_turret
upgrade_turret-worth pad t g h = elim (Option-cases (get_elem? (prices t.kind) (t.level + 1))) [
  | inl top ↦ rw (top, upgrade_turret)
  | inr (price, e) ↦
      rw (e, upgrade_turret)
        (ground (
          arith,
          invested-insert_old pad
              (record { kind = t.kind; level = t.level + 1; spent = t.spent + price }) t g.pads h,
        ))
]

-- A purchase moves money onto a pad and loses none: whatever `build` and `upgrade` answer, money
-- in hand and money spent on the standing turrets add up to what they were.
pub purchases-worth :
    (pad : ℕ) (kind : String) (g : Game)
    → (worth (build pad kind g).0 ≡ worth g) × (worth (upgrade pad g).0 ≡ worth g)
unfolding build upgrade
purchases-worth pad kind g = (bought (turret_named kind) refl, raised (lookup pad g.pads) refl)
  where
    bought : (o : Option Turret) → turret_named kind ≡ o → worth (build pad kind g).0 ≡ worth g
    bought none e = rw (e, build)
    bought (some k) e = rw (e, build) (build_kind-worth pad k g)

    raised : (o : Option PadTurret) → lookup pad g.pads ≡ o → worth (upgrade pad g).0 ≡ worth g
    raised none e = rw (e, upgrade)
    raised (some t) e = rw (e, upgrade) (upgrade_turret-worth pad t g e)

abbrev bought : Turret → PadTurret
bought k = record { kind = k; level = 0; spent = first_price k }

erase-insert_new :
    (k : ℕ) (t : PadTurret) (d : Dict PadTurret)
    → contains k d ≡ false
    → (erase k (insert k t d) ≡ d) × (lookup k (insert k t d) ≡ some t)
erase-insert_new k t [] h = ground arith
erase-insert_new k t (e ∷ d) h = ground (arith, erase-insert_new k t d)

-- A turret that is built on a free pad and sold at once leaves the pads as they were and costs the
-- team exactly the part of its price that is not refunded: 30 of 100.
pub build-sell :
    (pad : ℕ) (k : Turret) (g : Game)
    → pad < g.pad_count
    → contains pad g.pads ≡ false
    → first_price k ≤ g.money
    → let after = (sell pad (build_kind pad k g).0).0 in
      (after.pads ≡ g.pads) × (after.money + first_price k * 3 / 10 ≡ g.money)
unfolding build_kind sell
build-sell pad Turret.pg g inside free enough =
    ground (arith, erase-insert_new pad (bought Turret.pg) g.pads free)
build-sell pad Turret.rl g inside free enough =
    ground (arith, erase-insert_new pad (bought Turret.rl) g.pads free)
