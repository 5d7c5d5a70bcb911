-- ===== src/TowerDefence/Invariant.antt =====
-- The states of a game that can be reached, and that no tick runs off the table of waves.
use qlsm_extra.Base.{
  ℕ, suc, ◌+◌, ◌-◌, ◌≤◌, ◌<◌, ◌≡◌, ◌≢◌, refl, Option, none, some, List, [], ◌∷◌, String, arith, inl,
  inr, Option-cases, get_elem?, take, All, get_elem?-lt_length,
}
use native.Mathlib.Numerals.{add-one}
use qlsm_extra.Base.Dict.{lookup, All-lookup, All-insert, All-erase}
use qlsm_extra.TowerDefence.{
  Creep, Turret, PadTurret, Game, Phase, Result, prices, waves, expand, turret_named, first_price,
  new, tick, clear_wave, tick_wave, begin_wave, leaked, build, build_kind, upgrade, upgrade_turret,
  sell, start_lives,
}

sum : List ℕ → ℕ
sum [] = 0
sum (n ∷ ns) = n + sum ns

-- The price of a turret up to and with a level.
unfoldable pub paid : Turret → ℕ → ℕ
unfolding sum prices
paid kind level = sum (take (suc level) (prices kind))

-- A turret stands on a pad of the map, at a level that has a price, and `spent` is what the levels
-- up to its own cost.
abbrev pub PadOk : ℕ → ℕ × PadTurret → Type 0
PadOk pad_count (pad, t) = (pad < pad_count) × (t.level < 3) × (t.spent ≡ paid t.kind t.level)

-- What the phase says of the wave number and of the result.
abbrev pub PhaseOk : Phase → ℕ → Option Result → Type 0
PhaseOk Phase.idle w r = (w ≡ 0) × (r ≡ none)
PhaseOk Phase.pause w r = (w < 15) × (r ≡ none)
PhaseOk Phase.wave w r = (1 ≤ w) × (w ≤ 15) × (r ≡ none)
PhaseOk Phase.over w r = (w ≤ 15) × (r ≢ none)

pub record IsValid (g : Game) : Type 0 where
  pub pads_ok : All (PadOk g.pad_count) g.pads
  pub phase_ok : PhaseOk g.phase g.wave_no g.result
  pub lives_ok : g.lives ≤ start_lives

pub new-IsValid : (pads : ℕ) → IsValid (new pads)
unfolding new
new-IsValid pads = ground arith

clear_wave-IsValid :
    (now : ℕ) (g : Game) → g.phase ≡ Phase.wave → IsValid g → IsValid (clear_wave now g)
unfolding clear_wave waves
clear_wave-IsValid now g e v = ground arith

tick_wave-IsValid :
    (queue : List Creep) (now alive : ℕ) (g : Game)
    → g.phase ≡ Phase.wave
    → IsValid g
    → IsValid (tick_wave queue now alive g).0
unfolding tick_wave
tick_wave-IsValid [] now alive g e v = ground (arith, clear_wave-IsValid now g e v)
tick_wave-IsValid (x ∷ q) now alive g e v = ground arith

cancel : (n : ℕ) → n + 1 - 1 ≡ n
cancel n = omega arith

waves-get : (w : ℕ) → w < 15 → (groups : List (Creep × ℕ)) × (get_elem? waves w ≡ some groups)
unfolding waves
waves-get w h = get_elem?-lt_length waves w h

-- A wave below 15 has an entry in the table, so the start of it raises nothing.
begin_wave-IsValid :
    (now alive : ℕ) (g : Game)
    → g.phase ≡ Phase.pause
    → IsValid g
    → IsValid (begin_wave now alive g).0 × ((begin_wave now alive g).1 ≢ none)
unfolding begin_wave
begin_wave-IsValid now alive g e v =
    let (groups, found) = waves-get g.wave_no (ground arith) in
    let found' : get_elem? waves (g.wave_no + 1 - 1) ≡ some groups = rw (cancel g.wave_no) found in
    rw (found', begin_wave)
      (ground (
        arith,
        tick_wave-IsValid (expand groups) now alive (record g {
          wave_no = g.wave_no + 1;
          phase = Phase.wave;
          to_spawn = expand groups;
          next_at = now;
        }),
      ))

-- A tick keeps a valid game valid and never raises: it does not read past the table of waves.
pub tick-IsValid :
    (now alive : ℕ) (g : Game)
    → IsValid g
    → IsValid (tick now alive g).0 × ((tick now alive g).1 ≢ none)
unfolding tick
tick-IsValid now alive g v = dispatch g.phase refl
  where
    dispatch :
        (p : Phase) → g.phase ≡ p → IsValid (tick now alive g).0 × ((tick now alive g).1 ≢ none)
    dispatch Phase.idle e = ground arith
    dispatch Phase.over e = ground arith
    dispatch Phase.pause e = ground (arith, begin_wave-IsValid now alive g e v)
    dispatch Phase.wave e = ground (arith, tick_wave-IsValid g.to_spawn now alive g e v)

paid-zero : (k : Turret) → first_price k ≡ paid k 0
unfolding paid first_price
paid-zero Turret.pg = refl
paid-zero Turret.rl = refl

paid-suc :
    (k : Turret) (level price : ℕ)
    → get_elem? (prices k) (suc level) ≡ some price
    → (suc level < 3) × (paid k level + price ≡ paid k (suc level))
unfolding paid
paid-suc Turret.pg level price h = ground arith
paid-suc Turret.rl level price h = ground arith

build_kind-IsValid : (pad : ℕ) (k : Turret) (g : Game) → IsValid g → IsValid (build_kind pad k g).0
unfolding build_kind
build_kind-IsValid pad k g v =
    let t : PadTurret = record { kind = k; level = 0; spent = first_price k } in
    ground (arith, paid-zero k, All-insert (PadOk g.pad_count) pad t g.pads v.pads_ok)

upgrade_turret-IsValid :
    (pad : ℕ) (t : PadTurret) (g : Game)
    → lookup pad g.pads ≡ some t
    → IsValid g
    → IsValid (upgrade_turret pad t g).0
unfolding upgrade_turret
upgrade_turret-IsValid pad t g e v = elim (Option-cases (get_elem? (prices t.kind) (t.level + 1))) [
  | inl top ↦ rw (top, upgrade_turret) v
  | inr (price, found) ↦
      let t' : PadTurret = record { kind = t.kind; level = t.level + 1; spent = t.spent + price } in
      let found' : get_elem? (prices t.kind) (suc t.level) ≡ some price = rw add-one at found in
      rw (found, upgrade_turret)
        (ground (
          arith,
          paid-suc t.kind t.level price found',
          add-one t.level,
          All-lookup (PadOk g.pad_count) pad t g.pads v.pads_ok e,
          All-insert (PadOk g.pad_count) pad t' g.pads v.pads_ok,
        ))
]

pub sell-IsValid : (pad : ℕ) (g : Game) → IsValid g → IsValid (sell pad g).0
unfolding sell
sell-IsValid pad g v = ground (arith, All-erase (PadOk g.pad_count) pad g.pads v.pads_ok)

pub leaked-IsValid : (c : Creep) (g : Game) → IsValid g → IsValid (leaked c g)
unfolding leaked
leaked-IsValid c g v = ground arith

pub build-IsValid : (pad : ℕ) (kind : String) (g : Game) → IsValid g → IsValid (build pad kind g).0
unfolding build
build-IsValid pad kind g v = elim (Option-cases (turret_named kind)) [
  | inl unknown ↦ rw (unknown, build) v
  | inr (k, known) ↦ rw (known, build) (build_kind-IsValid pad k g v)
]

pub upgrade-IsValid : (pad : ℕ) (g : Game) → IsValid g → IsValid (upgrade pad g).0
unfolding upgrade
upgrade-IsValid pad g v = elim (Option-cases (lookup pad g.pads)) [
  | inl free ↦ rw (free, upgrade) v
  | inr (t, found) ↦ rw (found, upgrade) (upgrade_turret-IsValid pad t g found v)
]
