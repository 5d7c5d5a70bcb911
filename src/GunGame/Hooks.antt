-- ===== src/GunGame/Hooks.antt =====
-- The hooks of gungame.py that change what the class keeps, in any order.
use qlsm_extra.Base.{ℕ, Bool, Option, none, some, List, [], ◌∷◌, false}
use qlsm_extra.GunGame.{Ladder, parse_ladder, default_text, ok, value_error}
use qlsm_extra.GunGame.Plugin.{Config, GunGame, Effect, handle_kill, handle_death}
use qlsm_extra.GunGame.Loadout.{apply_loadout, write_score}
use qlsm_extra.GunGame.Match.{
  reload_ladder, restore_fraglimit, finish_match, handle_new_game, handle_game_start,
  handle_game_end, handle_map,
}

-- The frame after a win, with `_finish`, is one of them, and so are the frames in which
-- `_apply_loadout` (after a spawn or a step up) and `_write_score` run. The last arguments of `on_kill`
-- and `on_death` are those of the handlers.
pub data Hook : Type 0 where
  on_kill : Config → ℕ → Option ℕ → Bool → Hook
  on_death : Config → ℕ → Bool → Bool → Hook
  on_new_game on_game_start : Config → Hook
  on_loadout : Config → ℕ → Hook
  on_score : ℕ → Hook
  on_game_end on_map on_finish on_unload : Hook

-- The fields as `__init__` sets them. The fraglimit is the cvar's.
abbrev pub unplayed : Ladder → ℕ → GunGame
unplayed ladder limit = record {
  states = [];
  ladder = ladder;
  ladder_raw = default_text;
  leader = none;
  saved_fraglimit = none;
  won = false;
  ended = false;
  fraglimit = limit;
}

-- The part of `__init__` before `_reload_ladder`; `none` is a ValueError.
unfoldable pub loaded : ℕ → Option GunGame
loaded limit = elim (parse_ladder default_text) [
  | value_error e ↦ none
  | ok ladder ↦ some (unplayed ladder limit)
]

-- `__init__`
unfoldable pub init : Config → ℕ → Option GunGame
unfolding loaded
init c limit = elim (loaded limit) [ none ↦ none | some g ↦ some (reload_ladder c.ladder_text g) ]

abbrev pub state_after : Option (GunGame × List Effect) → Option GunGame
state_after none = none
state_after (some (g, news)) = some g

abbrev pub state_given : Option (GunGame × ℕ) → Option GunGame
state_given none = none
state_given (some (g, weapon)) = some g

-- One hook; `none` is an exception.
unfoldable pub handle : Hook → GunGame → Option GunGame
handle (on_kill c victim killer gauntlet) g = state_after (handle_kill c victim killer gauntlet g)
handle (on_death c victim by_other switch) g = state_after (handle_death c victim by_other switch g)
handle (on_new_game c) g = some (handle_new_game c g)
handle (on_game_start c) g = some (handle_game_start c g)
handle on_game_end g = some (handle_game_end g)
handle on_map g = some (handle_map g)
handle on_finish g = some (finish_match g)
handle (on_loadout c player) g = state_given (apply_loadout c player g)
handle (on_score player) g = some (write_score player g).0
handle on_unload g = some (restore_fraglimit g)

unfoldable pub handle_all : List Hook → GunGame → Option GunGame
handle_all [] g = some g
handle_all (hook ∷ hooks) g = elim (handle hook g) [ none ↦ none | some h ↦ handle_all hooks h ]
