-- ===== src/GunGame/Match.antt =====
-- The match lifecycle of the gungame plugin: ladder, fraglimit and flags.
use qlsm_extra.Base.{ℕ, ◌+◌, true, false, none, some, [], if◌then◌else◌, length}
use qlsm_extra.Base.Text.{Text, text_eq}
use qlsm_extra.GunGame.Parse.{parse_ladder, ok, value_error}
use qlsm_extra.GunGame.Plugin.{Config, GunGame}

-- `_reload_ladder`: a text that does not parse keeps the old ladder and is remembered.
unfoldable pub reload_ladder : Text → GunGame → GunGame
reload_ladder raw g = if text_eq raw g.ladder_raw then g else elim (parse_ladder raw) [
  | ok ladder ↦ record g { ladder = ladder; ladder_raw = raw }
  | value_error e ↦ record g { ladder_raw = raw }
]

-- `_reset`
unfoldable pub reset : Config → GunGame → GunGame
unfolding reload_ladder
reset c g =
    reload_ladder c.ladder_text
      (record g { states = []; leader = none; won = false; ended = false })

-- `_restore_fraglimit`
unfoldable pub restore_fraglimit : GunGame → GunGame
restore_fraglimit g = elim g.saved_fraglimit [
  | none ↦ g
  | some limit ↦ record g { fraglimit = limit; saved_fraglimit = none }
]

-- `if self._saved_fraglimit is None`, then the cvar is set.
unfoldable pub set_fraglimit : ℕ → GunGame → GunGame
set_fraglimit limit g = record g {
  saved_fraglimit = elim g.saved_fraglimit [ none ↦ some g.fraglimit | some old ↦ some old ];
  fraglimit = limit;
}

-- `_finish`, a frame after the win.
unfoldable pub finish_match : GunGame → GunGame
unfolding set_fraglimit
finish_match g = set_fraglimit (length g.ladder + 1) g

unfoldable pub handle_new_game : Config → GunGame → GunGame
unfolding reset
handle_new_game c g = reset c g

unfoldable pub handle_game_start : Config → GunGame → GunGame
unfolding reset set_fraglimit
handle_game_start c g = let fresh = reset c g in if c.active then set_fraglimit 0 fresh else fresh

unfoldable pub handle_game_end : GunGame → GunGame
unfolding restore_fraglimit
handle_game_end g = record (restore_fraglimit g) { ended = true }

unfoldable pub handle_map : GunGame → GunGame
unfolding restore_fraglimit
handle_map g = restore_fraglimit g
