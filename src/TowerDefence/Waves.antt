-- ===== src/TowerDefence/Waves.antt =====
-- What a wave sends, in which order and when.
use qlsm_extra.Base.{
  ℕ, ◌+◌, ◌≤◌, ◌<◌, ◌≡◌, ◌≢◌, Option, none, some, List, [], ◌∷◌, ◌++◌, arith, length,
}
use qlsm_extra.TowerDefence.{
  Creep, Game, max_creeps, spawn_interval_ms, clear_wave, tick_wave, tick,
}

-- The creeps of a tick and those that still wait, after `tick_wave`.
abbrev sent_and_waiting : Game × List Creep → List Creep
sent_and_waiting (g, sent) = sent ++ g.to_spawn

clear_wave-to_spawn : (now : ℕ) (g : Game) → (clear_wave now g).to_spawn ≡ g.to_spawn
unfolding clear_wave
clear_wave-to_spawn now g = ground arith

-- In a wave a tick takes creeps from the head of the queue, at most one, and only while fewer
-- than 60 are alive and the last one left a second ago.
pub tick_wave_lem :
    (queue : List Creep) (now alive : ℕ) (g : Game)
    → g.to_spawn ≡ queue
    → let (g', sent) = tick_wave queue now alive g in
      (sent ++ g'.to_spawn ≡ queue)
      × (length sent ≤ 1)
      × (sent ≢ []
          → (alive + length sent ≤ max_creeps)
            × (g.next_at ≤ now)
            × (g'.next_at ≡ now + spawn_interval_ms))
unfolding tick_wave
tick_wave_lem [] now alive g e = ground (arith, clear_wave-to_spawn now g)
tick_wave_lem (name ∷ rest) now alive g e = ground arith

abbrev joined : Option (List Creep) → Option (List Creep) → Option (List Creep)
joined none more = none
joined (some sent) none = none
joined (some sent) (some more) = some (sent ++ more)

-- All the creeps that ticks send, each at its time and with the number of creeps that are alive
-- then, while nothing else is called on the game; `none` is an exception.
unfoldable pub ticks : List (ℕ × ℕ) → Game → Game × Option (List Creep)
ticks [] g = (g, some [])
ticks ((now, alive) ∷ calls) g =
    let (g', sent) = tick now alive g in let (g'', more) = ticks calls g' in (g'', joined sent more)

-- Times that are each at least a second after the one before, the first not before `from`.
abbrev pub Spaced : ℕ → List (ℕ × ℕ) → Type 0
Spaced from [] = Unit
Spaced from ((now, alive) ∷ calls) = (from ≤ now) × Spaced (now + spawn_interval_ms) calls

-- At each of the ticks fewer than 60 creeps are alive.
abbrev pub Few : List (ℕ × ℕ) → Type 0
Few [] = Unit
Few ((now, alive) ∷ calls) = (alive < max_creeps) × Few calls
