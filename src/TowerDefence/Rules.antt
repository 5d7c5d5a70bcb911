-- ===== src/TowerDefence/Rules.antt =====
-- `class Game` of td_rules.py.
use qlsm_extra.Base.{
  ℕ, ◌+◌, ◌-◌, ◌*◌, ◌/◌, Bool, true, false, ◌&&◌, Option, none, some, List, [], ◌∷◌, String, ltb,
  leb, ◌==◌, if◌then◌else◌, length, get_elem?,
}
use qlsm_extra.Base.Dict.{Dict, lookup, contains, insert, erase}
use qlsm_extra.TowerDefence.Tables.{
  Creep, Turret, start_money, start_lives, pause_ms, spawn_interval_ms, over_ms, max_creeps, reward,
  lives_cost, prices, turret_named, waves, expand, wave_bonus,
}

pub data Phase : Type 0 where
  idle pause wave over : Phase

pub data Result : Type 0 where
  win loss : Result

pub record PadTurret : Type 0 where
  pub kind : Turret
  pub level : ℕ
  pub spent : ℕ

pub record Game : Type 0 where
  pub pad_count : ℕ
  pub phase : Phase
  pub wave_no : ℕ
  pub lives : ℕ
  pub money : ℕ
  pub pads : Dict PadTurret
  pub result : Option Result
  pub to_spawn : List Creep
  pub next_at : ℕ
  pub over_at : Option ℕ

-- `Game.__init__` with its call of `reset`.
unfoldable pub new : ℕ → Game
new pad_count = record {
  pad_count = pad_count;
  phase = Phase.idle;
  wave_no = 0;
  lives = start_lives;
  money = start_money;
  pads = [];
  result = none;
  to_spawn = [];
  next_at = 0;
  over_at = none;
}

unfoldable pub reset : Game → Game
unfolding new
reset g = new g.pad_count

unfoldable pub start : ℕ → Game → Game
unfolding reset
start now g = record (reset g) { phase = Phase.pause; next_at = now + pause_ms }

unfoldable pub jump : ℕ → ℕ → Game → Game
jump target now g = record g {
  phase = Phase.pause;
  wave_no = target - 1;
  result = none;
  to_spawn = [];
  next_at = now;
  over_at = none;
}

-- The branch of `tick` for a game that is over.
unfoldable pub tick_over : ℕ → Game → Game
unfolding reset
tick_over now g = elim g.over_at [
  | none ↦ record g { over_at = some now }
  | some since ↦ if leb (since + over_ms) now then reset g else g
]

-- What `tick` does when the last creep of a wave is gone.
unfoldable pub clear_wave : ℕ → Game → Game
unfolding wave_bonus waves
clear_wave now g =
    let paid = record g { money = g.money + wave_bonus g.wave_no } in
    if leb (length waves) g.wave_no
    then record paid { phase = Phase.over; result = some Result.win }
    else record paid { phase = Phase.pause; next_at = now + pause_ms }

-- The branch of `tick` from `if self._to_spawn` on: `queue` is `self._to_spawn`.
unfoldable pub tick_wave : List Creep → ℕ → ℕ → Game → Game × List Creep
unfolding clear_wave
tick_wave (name ∷ rest) now alive g =
    if leb g.next_at now && ltb alive max_creeps
    then (record g { next_at = now + spawn_interval_ms; to_spawn = rest }, name ∷ [])
    else (g, [])
tick_wave [] now alive g = if alive == 0 then (clear_wave now g, []) else (g, [])

-- The start of a wave. `WAVES[self.wave - 1]` past the end is an IndexError, which leaves the
-- wave number and the phase written: the second part is then `none`.
unfoldable pub begin_wave : ℕ → ℕ → Game → Game × Option (List Creep)
unfolding waves expand tick_wave
begin_wave now alive g =
    let begun = record g { wave_no = g.wave_no + 1; phase = Phase.wave } in
    elim (get_elem? waves (begun.wave_no - 1)) [
      | none ↦ (begun, none)
      | some groups ↦
          let queue = expand groups in
          let (g', spawned) =
            tick_wave queue now alive (record begun { to_spawn = queue; next_at = now }) in
          (g', some spawned)
    ]

tick_in : Phase → ℕ → ℕ → Game → Game × Option (List Creep)
unfolding tick_over tick_wave begin_wave
tick_in Phase.over now alive g = (tick_over now g, some [])
tick_in Phase.idle now alive g = (g, some [])
tick_in Phase.pause now alive g = if leb g.next_at now then begin_wave now alive g else (g, some [])
tick_in Phase.wave now alive g =
    let (g', spawned) = tick_wave g.to_spawn now alive g in (g', some spawned)

-- `Game.tick`: the new state and the creeps to spawn, `none` for an exception.
unfoldable pub tick : ℕ → ℕ → Game → Game × Option (List Creep)
unfolding tick_in
tick now alive g = tick_in g.phase now alive g

unfoldable pub killed : Creep → Game → Game
unfolding reward
killed name g = record g { money = g.money + reward name }

-- `self.phase != "over"`
unfoldable pub is_over : Phase → Bool
is_over Phase.over = true
is_over _ = false

-- `max(0, self.lives - n)` is the subtraction of ℕ.
unfoldable pub leaked : Creep → Game → Game
unfolding lives_cost is_over
leaked name g =
    let left = g.lives - lives_cost name in
    let hit = record g { lives = left } in
    if left == 0
    then (if is_over g.phase
        then hit
        else record hit { phase = Phase.over; result = some Result.loss })
    else hit

-- The messages of `build`, `upgrade` and `sell`.
pub data Reply : Type 0 where
  unknown_turret no_such_pad pad_taken nothing_to_upgrade top_level nothing_to_sell : Reply
  not_enough : ℕ → ℕ → Reply
  built : Turret → ℕ → ℕ → Reply
  upgraded : Turret → ℕ → ℕ → ℕ → Reply
  sold : Turret → ℕ → ℕ → ℕ → Reply

-- `TURRETS[kind].prices[0]`
unfoldable pub first_price : Turret → ℕ
unfolding prices
first_price kind = elim (prices kind) [ [] ↦ 0 | price ∷ _ ↦ price ]

-- `build` once the kind is known.
unfoldable pub build_kind : ℕ → Turret → Game → Game × Reply
unfolding first_price
build_kind pad kind g =
    let price = first_price kind in
    if leb g.pad_count pad
    then (g, no_such_pad)
    else if contains pad g.pads
    then (g, pad_taken)
    else if ltb g.money price
    then (g, not_enough price g.money)
    else (
      record g {
        money = g.money - price;
        pads = insert pad (record { kind = kind; level = 0; spent = price }) g.pads;
      },
      built kind pad (g.money - price),
    )

unfoldable pub build : ℕ → String → Game → Game × Reply
build pad kind g = elim (turret_named kind) [
  | none ↦ (g, unknown_turret)
  | some k ↦ build_kind pad k g
]

-- `upgrade` of the turret that stands on the pad. `len(prices) <= level + 1` is the top level.
unfoldable pub upgrade_turret : ℕ → PadTurret → Game → Game × Reply
unfolding prices
upgrade_turret pad t g = elim (get_elem? (prices t.kind) (t.level + 1)) [
  | none ↦ (g, top_level)
  | some price ↦ if ltb g.money price then (g, not_enough price g.money) else (
    record g {
      money = g.money - price;
      pads =
          insert pad (record { kind = t.kind; level = t.level + 1; spent = t.spent + price })
            g.pads;
    },
    upgraded t.kind pad (t.level + 2) (g.money - price),
  )
]

unfoldable pub upgrade : ℕ → Game → Game × Reply
upgrade pad g = elim (lookup pad g.pads) [
  | none ↦ (g, nothing_to_upgrade)
  | some t ↦ upgrade_turret pad t g
]

-- `int(turret.spent * REFUND)`: 0.7 of a multiple of 100 is exact as a double.
unfoldable pub refund : ℕ → ℕ
refund spent = spent * 7 / 10

unfoldable pub sell : ℕ → Game → Game × Reply
unfolding refund
sell pad g = elim (lookup pad g.pads) [
  | none ↦ (g, nothing_to_sell)
  | some t ↦
      let back = refund t.spent in
      (
        record g { money = g.money + back; pads = erase pad g.pads },
        sold t.kind pad back (g.money + back),
      )
]
