-- ===== src/TowerDefence/Tests.antt =====
-- Runs of the tower defence on concrete games.
use qlsm_extra.Base.{◌+◌, ◌*◌, ◌/◌, ◌≡◌, refl, some, List, [], ◌∷◌, arith}
use qlsm_extra.TowerDefence.{
  Creep, Turret, Game, Phase, new, build, build_kind, upgrade, sell, first_price,
}
use qlsm_extra.TowerDefence.Calls.{Call}
use qlsm_extra.TowerDefence.Invariant.{IsValid}
use qlsm_extra.TowerDefence.Runs.{run, run-IsValid}
use qlsm_extra.TowerDefence.Money.{worth, purchases-worth, build-sell}

-- A turret, the first wave, a kill and a leak, and an upgrade that is too dear.
abbrev first_wave : List Call
first_wave =
    Call.start 0
    ∷ Call.build 1 "pg"
    ∷ Call.tick 25000 0
    ∷ Call.tick 25000 0
    ∷ Call.killed Creep.normal
    ∷ Call.leaked Creep.normal
    ∷ Call.upgrade 1
    ∷ Call.sell 1
    ∷ []

run-IsValid_example : (g : Game) × (run first_wave (new 3) ≡ some g) × IsValid g
run-IsValid_example = run-IsValid first_wave 3

abbrev one_pad : Game
one_pad = (build 0 "rl" (new 1)).0

purchases-worth_example :
    (worth (build 0 "pg" one_pad).0 ≡ worth one_pad) × (worth (upgrade 0 one_pad).0 ≡ worth one_pad)
purchases-worth_example = purchases-worth 0 "pg" one_pad

build-sell_example :
    let after = (sell 2 (build_kind 2 Turret.rl (new 3)).0).0 in
    (after.pads ≡ (new 3).pads) × (after.money + first_price Turret.rl * 3 / 10 ≡ (new 3).money)
unfolding new first_price
build-sell_example = build-sell 2 Turret.rl (new 3) (omega arith) refl (omega arith)

abbrev two_waiting : Game
two_waiting = record (new 1) { phase = Phase.wave; to_spawn = Creep.fast ∷ Creep.heavy ∷ [] }
