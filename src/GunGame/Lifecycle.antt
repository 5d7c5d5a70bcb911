-- ===== src/GunGame/Lifecycle.antt =====
-- Whole matches of gungame.py: no hook raises, and the server gets its fraglimit back.
use qlsm_extra.Base.{
  ℕ, ◌+◌, ◌≡◌, refl, ◌∙◌, Bool, true, false, Option, none, some, List, [], ◌∷◌, arith, Bool-cases,
  inl, inr, length,
}
use qlsm_extra.Base.Text.{Text}
use qlsm_extra.GunGame.{
  Ladder, IsLadder, parse_ladder-ParsedOk, default_ladder, default_ladder_parsed, default_text,
  State, Outcome, Event, advance,
}
use qlsm_extra.GunGame.Plugin.{
  Config, GunGame, Effect, state_of, set_state, update_leader, after_demote, demote, gauntlet_death,
  announce_leader, after_frag, marks, settle_kill, kill_event, handle_kill, handle_death,
}
use qlsm_extra.GunGame.Match.{
  reload_ladder, reset, restore_fraglimit, set_fraglimit, finish_match, handle_new_game,
  handle_game_start, handle_game_end, handle_map,
}
use qlsm_extra.GunGame.Invariant.{IsGame, FitUntil}
use qlsm_extra.GunGame.Handlers.{Returned, handle_kill-IsGame, handle_death-IsGame}
use qlsm_extra.GunGame.Loadout.{
  setdefault, apply_loadout, write_score, setdefault-IsGame, apply_loadout-some,
}
use qlsm_extra.GunGame.Hooks.{
  Hook, unplayed, loaded, init, state_after, state_given, handle, handle_all,
}

-- The fraglimit that the server had.
abbrev pub saved_or : Option ℕ → ℕ → ℕ
saved_or none limit = limit
saved_or (some old) limit = old

abbrev pub original : GunGame → ℕ
original g = saved_or g.saved_fraglimit g.fraglimit

-- What a handler leaves of the fraglimit.
abbrev Same : GunGame → Option (GunGame × List Effect) → Type 0
Same g none = Unit
Same g (some (h, news)) = original h ≡ original g

update_leader-original :
    (c : Config) (player : ℕ) (g : GunGame) → original (update_leader c player g).0 ≡ original g
unfolding update_leader
update_leader-original c player g = ground arith

demote-Same :
    (c : Config) (player : ℕ) (event : Event) (g : GunGame) → Same g (demote c player event g)
unfolding demote after_demote
demote-Same c player event g = from (advance (state_of player g) g.ladder event) refl
  where
    from :
        (r : Option (State × Outcome))
        → advance (state_of player g) g.ladder event ≡ r
        → Same g (demote c player event g)
    from none e = rw (demote, e) tt
    from (some (t, Outcome.down)) e =
        rw (demote, e) (update_leader-original c player (set_state player t g))
    from (some (t, Outcome.up)) e = rw (demote, e) refl
    from (some (t, Outcome.same)) e = rw (demote, e) refl
    from (some (t, Outcome.back)) e = rw (demote, e) refl
    from (some (t, Outcome.win)) e = rw (demote, e) refl

gauntlet_death-Same :
    (c : Config) (victim : ℕ) (gauntlet : Bool) (g : GunGame)
    → Same g (gauntlet_death c victim gauntlet g)
unfolding gauntlet_death
gauntlet_death-Same c victim gauntlet g = ground (arith, demote-Same c victim Event.demote g)

after_frag-Same :
    (c : Config) (victim killer : ℕ) (gauntlet : Bool) (t : State) (o : Outcome) (g : GunGame)
    → Same g (after_frag c victim killer gauntlet t o g)
unfolding after_frag announce_leader
after_frag-Same c victim killer gauntlet t o g =
    ground (arith, gauntlet_death-Same c victim gauntlet g, update_leader-original c killer)

settle_kill-Same :
    (c : Config) (victim killer : ℕ) (gauntlet : Bool) (t : State) (o : Outcome) (g : GunGame)
    → Same g (marks killer victim (settle_kill c victim killer gauntlet t o g))
unfolding settle_kill
settle_kill-Same c victim killer gauntlet t o g =
    ground (arith, after_frag-Same c victim killer gauntlet t o g)

handle_kill-Same :
    (c : Config) (victim : ℕ) (killer : Option ℕ) (gauntlet : Bool) (g : GunGame)
    → Same g (handle_kill c victim killer gauntlet g)
unfolding handle_kill settle_kill
handle_kill-Same c victim none gauntlet g = refl
handle_kill-Same c victim (some killer) gauntlet g =
    from (advance (state_of killer g) g.ladder (kill_event c gauntlet)) refl
  where
    from :
        (r : Option (State × Outcome))
        → advance (state_of killer g) g.ladder (kill_event c gauntlet) ≡ r
        → Same g (handle_kill c victim (some killer) gauntlet g)
    from none e = ground (arith, e)
    from (some (t, o)) e =
        ground (arith, e, settle_kill-Same c victim killer gauntlet t o (set_state killer t g))

handle_death-Same :
    (c : Config) (victim : ℕ) (by_other switch : Bool) (g : GunGame)
    → Same g (handle_death c victim by_other switch g)
unfolding handle_death
handle_death-Same c victim by_other switch g = ground (arith, demote-Same c victim Event.back g)

FitUntil-empty : (won : Bool) (ladder : Ladder) → FitUntil won ladder []
FitUntil-empty true ladder = tt
FitUntil-empty false ladder = tt

-- Before anybody has a state a ladder is all that the invariant asks for.
empty-IsGame : (g : GunGame) → g.states ≡ [] → g.leader ≡ none → IsLadder g.ladder → IsGame g
empty-IsGame g e l i = record {
  distinct = rw e tt;
  ladder_ok = i;
  fit = rw e (FitUntil-empty g.won g.ladder);
  leads = rw (l, e) tt;
}

reload_ladder-keeps :
    (raw : Text) (g : GunGame)
    → IsLadder g.ladder
    → IsLadder (reload_ladder raw g).ladder
      × ((reload_ladder raw g).states ≡ g.states)
      × ((reload_ladder raw g).leader ≡ g.leader)
      × (original (reload_ladder raw g) ≡ original g)
unfolding reload_ladder
reload_ladder-keeps raw g i = ground (arith, parse_ladder-ParsedOk raw)

reset-IsGame :
    (c : Config) (g : GunGame)
    → IsLadder g.ladder
    → IsGame (reset c g) × (original (reset c g) ≡ original g)
unfolding reset
reset-IsGame c g i =
    let cleared = record g { states = []; leader = none; won = false; ended = false } in
    let (ladder, states, leader, same) = reload_ladder-keeps c.ladder_text cleared i in
    (empty-IsGame (reload_ladder c.ladder_text cleared) states leader ladder, same)

set_fraglimit-original : (limit : ℕ) (g : GunGame) → original (set_fraglimit limit g) ≡ original g
unfolding set_fraglimit
set_fraglimit-original limit g = ground arith

restore_fraglimit-original : (g : GunGame) → original (restore_fraglimit g) ≡ original g
unfolding restore_fraglimit
restore_fraglimit-original g = ground arith

-- What a hook may change without the invariant.
limit-IsGame :
    (g h : GunGame)
    → h.states ≡ g.states
    → h.ladder ≡ g.ladder
    → h.leader ≡ g.leader
    → h.won ≡ g.won
    → IsGame g
    → IsGame h
limit-IsGame g h e l k w i = record {
  distinct = rw e i.distinct;
  ladder_ok = rw l i.ladder_ok;
  fit = rw (w, l, e) i.fit;
  leads = rw (k, e) i.leads;
}

set_fraglimit-IsGame : (limit : ℕ) (g : GunGame) → IsGame g → IsGame (set_fraglimit limit g)
unfolding set_fraglimit
set_fraglimit-IsGame limit g i = limit-IsGame g (set_fraglimit limit g) refl refl refl refl i

restore_fraglimit-IsGame : (g : GunGame) → IsGame g → IsGame (restore_fraglimit g)
unfolding restore_fraglimit
restore_fraglimit-IsGame g i =
    limit-IsGame g (restore_fraglimit g) (ground arith) (ground arith) (ground arith) (ground arith)
      i

-- A hook's result: no exception, the invariant, and the same fraglimit to give back.
abbrev Handled : GunGame → Option GunGame → Type 0
Handled g none = ⊥
Handled g (some h) = IsGame h × (original h ≡ original g)

handled :
    (g : GunGame) (r : Option (GunGame × List Effect))
    → Returned r
    → Same g r
    → Handled g (state_after r)
handled g none i same = absurd i
handled g (some (h, news)) i same = (i, same)

game_start-Handled :
    (c : Config) (g : GunGame) → IsGame g → Handled g (some (handle_game_start c g))
unfolding handle_game_start
game_start-Handled c g i =
    let (fresh, same) = reset-IsGame c g i.ladder_ok in
    elim (Bool-cases c.active) [
      | inl e ↦
          rw (handle_game_start, e)
            (set_fraglimit-IsGame 0 (reset c g) fresh, set_fraglimit-original 0 (reset c g) ∙ same)
      | inr e ↦ rw (handle_game_start, e) (fresh, same)
    ]

setdefault-original : (player : ℕ) (g : GunGame) → original (setdefault player g) ≡ original g
unfolding setdefault
setdefault-original player g = ground arith

apply_loadout-original :
    (c : Config) (player : ℕ) (g h : GunGame) (weapon : ℕ)
    → apply_loadout c player g ≡ some (h, weapon)
    → original h ≡ original g
unfolding apply_loadout
apply_loadout-original c player g h weapon e = ground (arith, e, setdefault-original player g)

loadout-Handled :
    (c : Config) (player : ℕ) (g : GunGame)
    → IsGame g
    → Handled g (state_given (apply_loadout c player g))
loadout-Handled c player g i =
    let (h, weapon, e, j) = apply_loadout-some c player g i in
    rw e (j, apply_loadout-original c player g h weapon e)

handle-Handled : (hook : Hook) (g : GunGame) → IsGame g → Handled g (handle hook g)
unfolding handle write_score handle_new_game handle_game_end handle_map finish_match
handle-Handled (Hook.on_kill c victim killer gauntlet) g i =
    handled g _ (handle_kill-IsGame c victim killer gauntlet g i)
      (handle_kill-Same c victim killer gauntlet g)
handle-Handled (Hook.on_death c victim by_other switch) g i =
    handled g _ (handle_death-IsGame c victim by_other switch g i)
      (handle_death-Same c victim by_other switch g)
handle-Handled (Hook.on_new_game c) g i = reset-IsGame c g i.ladder_ok
handle-Handled (Hook.on_game_start c) g i = game_start-Handled c g i
handle-Handled Hook.on_game_end g i = (
  limit-IsGame (restore_fraglimit g) (handle_game_end g) refl refl refl refl
      (restore_fraglimit-IsGame g i),
  restore_fraglimit-original g,
)
handle-Handled Hook.on_map g i = (restore_fraglimit-IsGame g i, restore_fraglimit-original g)
handle-Handled Hook.on_finish g i =
    (set_fraglimit-IsGame (length g.ladder + 1) g i, set_fraglimit-original (length g.ladder + 1) g)
handle-Handled (Hook.on_loadout c player) g i = loadout-Handled c player g i
handle-Handled (Hook.on_score player) g i =
    (setdefault-IsGame player g i, setdefault-original player g)
handle-Handled Hook.on_unload g i = (restore_fraglimit-IsGame g i, restore_fraglimit-original g)

handle-returns :
    (hook : Hook) (g : GunGame)
    → IsGame g
    → (h : GunGame) × (handle hook g ≡ some h) × IsGame h × (original h ≡ original g)
handle-returns hook g i = from (handle hook g) (handle-Handled hook g i)
  where
    from :
        (r : Option GunGame)
        → Handled g r
        → (h : GunGame) × (r ≡ some h) × IsGame h × (original h ≡ original g)
    from none h = absurd h
    from (some h) (i, same) = (h, refl, i, same)

handle_all-returns :
    (hooks : List Hook) (g : GunGame)
    → IsGame g
    → (h : GunGame) × (handle_all hooks g ≡ some h) × IsGame h × (original h ≡ original g)
unfolding handle_all
handle_all-returns [] g i = (g, refl, i, refl)
handle_all-returns (hook ∷ hooks) g i =
    let (g', done, i', same) = handle-returns hook g i in
    let (h, rest, i'', same') = handle_all-returns hooks g' i' in
    (h, rw (done, handle_all) rest, i'', same' ∙ same)

-- The default ladder parses.
default_loaded :
    (limit : ℕ)
    → (g : GunGame) × (loaded limit ≡ some g)
      × IsLadder g.ladder
      × (g.states ≡ [])
      × (g.leader ≡ none)
      × (original g ≡ limit)
unfolding loaded
default_loaded limit =
    let valid = rw default_ladder_parsed at (parse_ladder-ParsedOk default_text) in
    (
      unplayed default_ladder limit,
      rw (loaded, default_ladder_parsed) refl,
      valid,
      refl,
      refl,
      refl,
    )

init-IsGame :
    (c : Config) (limit : ℕ)
    → (g : GunGame) × (init c limit ≡ some g) × IsGame g × (original g ≡ limit)
unfolding init loaded
init-IsGame c limit =
    let (g, e, ladder, states, leader, same) = default_loaded limit in
    let (ladder', states', leader', same') = reload_ladder-keeps c.ladder_text g ladder in
    (
      reload_ladder c.ladder_text g,
      rw (init, e) refl,
      empty-IsGame (reload_ladder c.ladder_text g) (states' ∙ states) (leader' ∙ leader) ladder',
      same' ∙ same,
    )

handle_game_end-fraglimit :
    (g : GunGame)
    → ((handle_game_end g).fraglimit ≡ original g) × ((handle_game_end g).saved_fraglimit ≡ none)
unfolding handle_game_end restore_fraglimit
handle_game_end-fraglimit g = ground arith

-- From the start of the plugin, whatever hooks run, with any settings and in any order (kills, deaths,
-- new games, starts, ends, maps, unloads, and the frames with `_finish`, `_apply_loadout` and
-- `_write_score`): none raises, the invariant holds (the states fit the ladder until somebody has won, and the leader is
-- right), and the end of the game puts the fraglimit of the server back that the plugin found.
pub handle_all-restores :
    (hooks : List Hook) (c : Config) (limit : ℕ)
    → (start : GunGame) × (g : GunGame) × (init c limit ≡ some start)
      × (handle_all hooks start ≡ some g)
      × IsGame g
      × ((handle_game_end g).fraglimit ≡ limit)
handle_all-restores hooks c limit =
    let (start, loaded, valid, first) = init-IsGame c limit in
    let (g, done, i, same) = handle_all-returns hooks start valid in
    (start, g, loaded, done, i, (handle_game_end-fraglimit g).0 ∙ same ∙ first)
