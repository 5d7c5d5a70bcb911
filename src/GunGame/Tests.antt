-- ===== src/GunGame/Tests.antt =====
-- Runs of Gun Game on the default ladder.
use qlsm_extra.Base.{◌+◌, ◌≡◌, ◌≢◌, ◌↔◌, refl, true, false, none, some, List, [], ◌∷◌, arith}
use qlsm_extra.Base.Dict.{Dict}
use qlsm_extra.Base.Text.{codes}
use qlsm_extra.GunGame.{
  State, Event, Outcome, advance, pick_leader, default_ladder, parse_ladder, Needs, ParsedOk,
  parse_ladder-ParsedOk, need,
}
use qlsm_extra.GunGame.Progress.{progress, goal, Fits, Returns, advance-frag}
use qlsm_extra.GunGame.Leader.{Leads, pick_leader-Leads}
use qlsm_extra.GunGame.Plugin.{Config, GunGame}
use qlsm_extra.GunGame.Match.{handle_game_end}
use qlsm_extra.GunGame.Invariant.{IsGame}
use qlsm_extra.GunGame.Hooks.{Hook, init, handle_all}
use qlsm_extra.GunGame.Lifecycle.{handle_all-restores}

parse_ladder-ParsedOk_example : ParsedOk (parse_ladder (codes "rl:2 g:1"))
parse_ladder-ParsedOk_example = parse_ladder-ParsedOk (codes "rl:2 g:1")

-- One frag into the second step of the default ladder.
abbrev second_step : State
second_step = record { step = 1; frags = 1 }

default_ladder-Needs : Needs default_ladder
default_ladder-Needs = ground arith

second_step-Fits : Fits default_ladder second_step
unfolding need
second_step-Fits = omega arith

advance-frag_example : Returns (advance second_step default_ladder Event.frag) (λ t o.
    (progress default_ladder t ≡ progress default_ladder second_step + 1)
    × ((o ≡ Outcome.win) ↔ (progress default_ladder t ≡ goal default_ladder))
    × (o ≢ Outcome.win → Fits default_ladder t))
advance-frag_example = advance-frag default_ladder second_step default_ladder-Needs second_step-Fits

-- The second player has caught up with the first.
abbrev level : Dict State
level = (7, second_step) ∷ (9, record { step = 1; frags = 0 }) ∷ []

pick_leader-Leads_example : Leads (pick_leader level none) level
pick_leader-Leads_example = pick_leader-Leads level none (refl, (refl, tt))

abbrev config : Config
config = record {
  active = true;
  in_progress = true;
  gauntlet_skip = true;
  gauntlet_demote = true;
  suicide_demote = true;
  weapon_delay = 0;
  ladder_text = codes "rl:2 g:1";
  online = 7 ∷ 9 ∷ [];
}

-- A match that player 7 wins with a gauntlet skip and two frags, player 9 losing a frag on the way.
abbrev short_match : List Hook
short_match =
    Hook.on_game_start config
    ∷ Hook.on_kill config 7 (some 9) false
    ∷ Hook.on_kill config 9 (some 7) true
    ∷ Hook.on_death config 9 false false
    ∷ Hook.on_kill config 9 (some 7) false
    ∷ Hook.on_loadout config 11
    ∷ Hook.on_score 7
    ∷ Hook.on_finish
    ∷ Hook.on_unload
    ∷ []

handle_all-restores_example :
    (start : GunGame) × (g : GunGame) × (init config 50 ≡ some start)
    × (handle_all short_match start ≡ some g)
    × IsGame g
    × ((handle_game_end g).fraglimit ≡ 50)
handle_all-restores_example = handle_all-restores short_match config 50
