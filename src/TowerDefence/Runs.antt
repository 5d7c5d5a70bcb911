-- ===== src/TowerDefence/Runs.antt =====
-- A whole game: the calls that tower_defence.py makes on it, in any order.
use qlsm_extra.Base.{
  ℕ, ◌≡◌, ◌≢◌, refl, ◌&&◌, Option, none, some, List, [], ◌∷◌, arith, leb, if◌then◌else◌, length,
}
use qlsm_extra.TowerDefence.{
  Creep, Game, waves, new, reset, start, jump, tick, killed, leaked, build, upgrade, sell,
}
use qlsm_extra.TowerDefence.Calls.{Call}
use qlsm_extra.TowerDefence.Invariant.{
  IsValid, new-IsValid, tick-IsValid, leaked-IsValid, sell-IsValid, build-IsValid, upgrade-IsValid,
}

-- The guard of `cmd_tdwave`: another wave number is answered with the usage line.
unfoldable pub tdwave : ℕ → ℕ → Game → Game
unfolding waves jump
tdwave target now g = if leb 1 target && leb target (length waves) then jump target now g else g

-- One call; `none` when it raises.
unfoldable pub perform : Call → Game → Option Game
perform Call.reset g = some (reset g)
perform (Call.start now) g = some (start now g)
perform (Call.tdwave target now) g = some (tdwave target now g)
perform (Call.tick now alive) g =
    let (g', spawned) = tick now alive g in elim spawned [ none ↦ none | some _ ↦ some g' ]
perform (Call.killed name) g = some (killed name g)
perform (Call.leaked name) g = some (leaked name g)
perform (Call.build pad kind) g = some (build pad kind g).0
perform (Call.upgrade pad) g = some (upgrade pad g).0
perform (Call.sell pad) g = some (sell pad g).0

unfoldable pub run : List Call → Game → Option Game
run [] g = some g
run (call ∷ calls) g = elim (perform call g) [ none ↦ none | some g' ↦ run calls g' ]

reset-IsValid : (g : Game) → IsValid (reset g)
unfolding reset
reset-IsValid g = new-IsValid g.pad_count

start-IsValid : (now : ℕ) (g : Game) → IsValid (start now g)
unfolding start
start-IsValid now g = record {
  pads_ok = tt;
  phase_ok = (omega arith, refl);
  lives_ok = omega arith;
}

tdwave-IsValid : (target now : ℕ) (g : Game) → IsValid g → IsValid (tdwave target now g)
unfolding tdwave
tdwave-IsValid target now g v = ground arith

killed-IsValid : (name : Creep) (g : Game) → IsValid g → IsValid (killed name g)
unfolding killed
killed-IsValid name g v = ground arith

perform-IsValid :
    (call : Call) (g : Game) → IsValid g → (g' : Game) × (perform call g ≡ some g') × IsValid g'
unfolding perform
perform-IsValid Call.reset g v = (_, refl, reset-IsValid g)
perform-IsValid (Call.start now) g v = (_, refl, start-IsValid now g)
perform-IsValid (Call.tdwave target now) g v = (_, refl, tdwave-IsValid target now g v)
perform-IsValid (Call.tick now alive) g v = after (tick now alive g) (tick-IsValid now alive g v)
  where
    after :
        (r : Game × Option (List Creep))
        → IsValid r.0 × (r.1 ≢ none)
        → (g' : Game) × ((elim r.1 as (λ _. Option Game) [ none ↦ none | some _ ↦ some r.0 ])
            ≡ some g')
          × IsValid g'
    after (g', none) h = absurd (h.1 refl)
    after (g', some sent) h = (g', refl, h.0)
perform-IsValid (Call.killed name) g v = (_, refl, killed-IsValid name g v)
perform-IsValid (Call.leaked name) g v = (_, refl, leaked-IsValid name g v)
perform-IsValid (Call.build pad kind) g v = (_, refl, build-IsValid pad kind g v)
perform-IsValid (Call.upgrade pad) g v = (_, refl, upgrade-IsValid pad g v)
perform-IsValid (Call.sell pad) g v = (_, refl, sell-IsValid pad g v)

run_from-IsValid :
    (calls : List Call) (g : Game) → IsValid g → (g' : Game) × (run calls g ≡ some g') × IsValid g'
unfolding run
run_from-IsValid [] g v = (g, refl, v)
run_from-IsValid (call ∷ calls) g v =
    let (g', done, v') = perform-IsValid call g v in
    let (g'', rest, v'') = run_from-IsValid calls g' v' in (g'', rw (done, run) rest, v'')

-- Whatever is called on a new game and in whatever order, no call raises, and the game that comes
-- out is valid: every turret stands on a pad of the map at a level that exists and at the price
-- that was paid for it, the wave number fits the phase and the table of waves, there is a result
-- exactly when the game is over, and no more lives than at the start.
pub run-IsValid :
    (calls : List Call) (pads : ℕ) → (g : Game) × (run calls (new pads) ≡ some g) × IsValid g
run-IsValid calls pads = run_from-IsValid calls (new pads) (new-IsValid pads)
