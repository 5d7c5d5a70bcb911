-- ===== src/Roulette/Curses.antt =====
-- The curses at work: `handle_damage`, `handle_frame` and the hooks that end them, of
-- `class item_roulette`.
use qlsm_extra.Base.{
  ℕ, ◌+◌, ◌-◌, Bool, true, false, not, ◌&&◌, Option, none, some, List, [], ◌∷◌, ltb, leb, ◌==◌,
  if◌then◌else◌, min, max,
}
use qlsm_extra.Base.Dict.{Dict, lookup, insert, erase}
use qlsm_extra.Base.Int.{ℤ, pos, negsuc}
use qlsm_extra.Roulette.Plan.{Factor, quad_refund, battlesuit_extra, armor_max}
use qlsm_extra.Roulette.State.{Player, Kind, Curse, Roulette, Settings, unhook_damage, drop_curse}

abbrev is_quad : Kind → Bool
is_quad Kind.quad = true
is_quad _ = false

abbrev pub is_battlesuit : Kind → Bool
is_battlesuit Kind.battlesuit = true
is_battlesuit _ = false

-- `_active_curse` for a test on the kind: the factor of the curse. A curse of the two kinds has one.
unfoldable pub active_curse : (Kind → Bool) → ℕ → ℕ → Roulette → Option Factor
active_curse is_kind id now s = elim (lookup id s.curses) [
  | none ↦ none
  | some curse ↦ if is_kind curse.kind && ltb now curse.until then curse.factor else none
]

-- A hit by a cursed quad.
unfoldable pub refund : ℕ → Option Factor → Player → Player
refund damage none target = target
refund damage (some factor) target =
    let (armor, health) = quad_refund damage factor target.armor in
    record target {
      armor = if armor == 0 then target.armor else min (target.armor + armor) armor_max;
      health = if health == 0 then target.health else min (target.health + health) 200;
    }

-- A hit on a cursed battle suit.
unfoldable pub hurt : ℕ → Option Factor → Player → Player
hurt damage none target = target
hurt damage (some factor) target =
    let (armor, health) = battlesuit_extra damage factor target.armor target.health in
    record target { armor = armor; health = health }

abbrev pub quad_of : ℕ → Option ℕ → ℕ → Roulette → Option Factor
quad_of now none id s = none
quad_of now (some attacker) id s =
    if attacker == id then none else active_curse is_quad attacker now s

-- `handle_damage`: the target after the correction.
unfoldable pub handle_damage : ℕ → ℕ → ℕ → Option ℕ → Roulette → Player → Player
handle_damage now damage id attacker s target =
    if leb target.health 0
    then target
    else hurt damage (active_curse is_battlesuit id now s)
        (refund damage (quad_of now attacker id s) target)

-- `max(1, health - n)`
abbrev drained : ℕ → ℤ → ℕ
drained health (pos n) = max 1 (health - n)
drained health (negsuc n) = max 1 (health + n + 1)

abbrev whole_of : Option Factor → ℤ
whole_of none = pos 0
whole_of (some factor) = factor.whole

-- What the loop of `handle_frame` carries on: the state, the players, whose balloon is drawn, and
-- `need_damage`.
pub record Tick : Type 0 where
  pub state : Roulette
  pub players : Dict Player
  pub talking : List ℕ
  pub need_damage : Bool

unfoldable pub drain_player : ℕ → Option Factor → Tick → Tick
drain_player id factor t = elim (lookup id t.players) [
  | none ↦ record t { state = drop_curse id t.state }
  | some player ↦
      if ltb 1 player.health
      then record t {
        players =
            insert id (record player { health = drained player.health (whole_of factor) })
              t.players;
      }
      else t
]

unfoldable pub draw_balloon : ℕ → Bool → Tick → Tick
draw_balloon id in_game t =
    if in_game
    then record t { talking = id ∷ t.talking }
    else record t { state = drop_curse id t.state }

-- One curse of the loop, and the loop over a copy of the curses. `in_game` tells whether the engine has a
-- game client.
unfoldable pub tick_curse : ℕ → Bool → (ℕ → Bool) → ℕ → Curse → Tick → Tick
tick_curse now drain in_game id curse t =
    if leb curse.until now then record t { state = drop_curse id t.state } else elim curse.kind [
      | Kind.invisibility ↦ draw_balloon id (in_game id) t
      | Kind.regeneration ↦ if drain then drain_player id curse.factor t else t
      | Kind.quad ↦ record t { need_damage = true }
      | Kind.battlesuit ↦ record t { need_damage = true }
      | Kind.haste ↦ t
    ]

unfoldable pub tick_curses : ℕ → Bool → (ℕ → Bool) → Dict Curse → Tick → Tick
tick_curses now drain in_game [] t = t
tick_curses now drain in_game ((id, curse) ∷ curses) t =
    tick_curses now drain in_game curses (tick_curse now drain in_game id curse t)

abbrev pub no_curses : Dict Curse → Bool
no_curses [] = true
no_curses (_ ∷ _) = false

abbrev pub tick_from : Dict Player → Roulette → Tick
tick_from players s = record { state = s; players = players; talking = []; need_damage = false }

-- `handle_frame`
unfoldable pub handle_frame : Settings → ℕ → (ℕ → Bool) → Dict Player → Roulette → Tick
handle_frame cfg now in_game players s =
    let drain = leb s.next_drain now in
    let timed = record s { next_drain = if drain then now + 1000 else s.next_drain } in
    let t = tick_curses now drain in_game s.curses (tick_from players timed) in
    if no_curses s.curses
    then tick_from players (unhook_damage s)
    else if not cfg.enabled
    then tick_from players (unhook_damage (record s { curses = [] }))
    else if t.need_damage
    then t
    else record t { state = unhook_damage t.state }

-- `handle_player_spawn`, which `handle_player_disconnect` repeats.
abbrev pub handle_player_spawn : ℕ → Roulette → Roulette
handle_player_spawn id s = record s { curses = erase id s.curses; touch = erase id s.touch }

-- `handle_death`
abbrev pub handle_death : Option ℕ → Roulette → Roulette
handle_death none s = s
handle_death (some id) s = drop_curse id s

-- `handle_new_game`
abbrev pub handle_new_game : Roulette → Roulette
handle_new_game s = record s { touch = []; curses = []; damage_hooked = false }
