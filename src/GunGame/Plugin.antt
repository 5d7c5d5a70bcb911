-- ===== src/GunGame/Plugin.antt =====
-- The handlers of the gungame plugin on the fields of the class. What they send to the engine is a
-- list of effects; the HUD panel's own state is left out (`hud_mark` is where it is touched).
use qlsm_extra.Base.{
  ℕ, ◌+◌, Bool, true, false, not, ◌&&◌, ◌||◌, Option, none, some, List, [], ◌∷◌, ◌++◌, ◌==◌,
  if◌then◌else◌, length,
}
use qlsm_extra.Base.Dict.{Dict, lookup, insert}
use qlsm_extra.Base.Text.{Text}
use qlsm_extra.GunGame.Parse.{Ladder}
use qlsm_extra.GunGame.Steps.{State, Event, Outcome, advance, pick_leader}

-- What a handler asks the engine and the cvars.
pub record Config : Type 0 where
  pub active : Bool
  pub in_progress : Bool
  pub gauntlet_skip : Bool
  pub gauntlet_demote : Bool
  pub suicide_demote : Bool
  pub weapon_delay : ℕ
  pub ladder_text : Text
  -- The keys of `self.players()`.
  pub online : List ℕ

pub record GunGame : Type 0 where
  pub states : Dict State
  pub ladder : Ladder
  pub ladder_raw : Text
  pub leader : Option ℕ
  pub saved_fraglimit : Option ℕ
  pub won : Bool
  pub ended : Bool
  -- The cvar itself.
  pub fraglimit : ℕ

pub data Effect : Type 0 where
  give_loadout disarm write_score hud_mark last_step finish : ℕ → Effect
  delayed_loadout : ℕ → ℕ → Effect
  tell_step tell_demoted : ℕ → State → Effect
  tell_leader : ℕ → ℕ → Effect
  hud_mark_all : Effect

-- `_state`: a player without an entry is at the start.
unfoldable pub state_of : ℕ → GunGame → State
state_of player g = elim (lookup player g.states) [
  | none ↦ record { step = 0; frags = 0 }
  | some s ↦ s
]

abbrev pub set_state : ℕ → State → GunGame → GunGame
set_state player s g = record g { states = insert player s g.states }

-- `_step_up_loadout`
unfoldable pub step_up_loadout : Config → ℕ → List Effect
step_up_loadout c player =
    if c.weapon_delay == 0
    then give_loadout player ∷ []
    else write_score player ∷ disarm player ∷ delayed_loadout c.weapon_delay player ∷ []

abbrev pub same_leader : Option ℕ → Option ℕ → Bool
same_leader none none = true
same_leader none (some k) = false
same_leader (some j) none = false
same_leader (some j) (some k) = j == k

abbrev pub mem : ℕ → List ℕ → Bool
mem k [] = false
mem k (j ∷ keys) = if k == j then true else mem k keys

-- `_update_leader`: the new leader is announced, unless it is neither the player nor on the server.
unfoldable pub update_leader : Config → ℕ → GunGame → GunGame × List Effect
unfolding state_of
update_leader c player g =
    let leader = pick_leader g.states g.leader in
    if same_leader leader g.leader then (g, []) else (
      record g { leader = leader },
      elim leader [
        | none ↦ []
        | some k ↦
            if (k == player) || mem k c.online
            then tell_leader k ((state_of k g).step + 1) ∷ []
            else []
      ],
    )

unfoldable pub after_demote : Config → ℕ → State → Outcome → GunGame → GunGame × List Effect
after_demote c player t Outcome.down g =
    let (g', news) = update_leader c player g in
    (g', hud_mark player ∷ tell_demoted player t ∷ (news ++ (write_score player ∷ [])))
after_demote c player t Outcome.back g =
    (g, hud_mark player ∷ tell_step player t ∷ write_score player ∷ [])
after_demote c player t o g = (g, hud_mark player ∷ write_score player ∷ [])

-- `_demote`; `none` is an exception.
unfoldable pub demote : Config → ℕ → Event → GunGame → Option (GunGame × List Effect)
unfolding after_demote
demote c player event g = elim (advance (state_of player g) g.ladder event) [
  | none ↦ none
  | some (t, o) ↦ some (after_demote c player t o (set_state player t g))
]

-- `self._demote(victim)` of `handle_kill`, if its condition holds.
unfoldable pub gauntlet_death : Config → ℕ → Bool → GunGame → Option (GunGame × List Effect)
gauntlet_death c victim gauntlet g =
    if gauntlet && c.gauntlet_demote then demote c victim Event.demote g else some (g, [])

-- `_announce_leader`
unfoldable pub announce_leader : Config → ℕ → State → GunGame → GunGame × List Effect
unfolding update_leader
announce_leader c player s g =
    let (g', news) = update_leader c player g in
    (g', news ++ (if s.step + 1 == length g.ladder then last_step player ∷ [] else []))

-- The end of `handle_kill` for a frag that did not win.
unfoldable pub after_frag :
    Config → ℕ → ℕ → Bool → State → Outcome → GunGame → Option (GunGame × List Effect)
after_frag c victim killer gauntlet t Outcome.up g = elim (gauntlet_death c victim gauntlet g) [
  | none ↦ none
  | some (g', news) ↦
      let (g'', more) = announce_leader c killer t g' in
      some (g'', step_up_loadout c killer ++ (tell_step killer t ∷ (news ++ more)))
]
after_frag c victim killer gauntlet t o g = elim (gauntlet_death c victim gauntlet g) [
  | none ↦ none
  | some (g', news) ↦ some (g', write_score killer ∷ news)
]

abbrev pub marks : ℕ → ℕ → Option (GunGame × List Effect) → Option (GunGame × List Effect)
marks killer victim none = none
marks killer victim (some (g, news)) = some (g, hud_mark killer ∷ hud_mark victim ∷ news)

unfoldable pub settle_kill :
    Config → ℕ → ℕ → Bool → State → Outcome → GunGame → Option (GunGame × List Effect)
unfolding after_frag
settle_kill c victim killer gauntlet t Outcome.win g =
    some (record g { won = true }, finish killer ∷ [])
settle_kill c victim killer gauntlet t o g = after_frag c victim killer gauntlet t o g

-- `_counts`
unfoldable pub counts : Config → GunGame → Bool
counts c g = not g.won && (c.active && c.in_progress)

abbrev pub kill_event : Config → Bool → Event
kill_event c gauntlet = if gauntlet && c.gauntlet_skip then Event.skip else Event.frag

-- `handle_kill`; the killer is `none` for a death without one.
unfoldable pub handle_kill : Config → ℕ → Option ℕ → Bool → GunGame → Option (GunGame × List Effect)
unfolding settle_kill counts
handle_kill c victim none gauntlet g = some (g, [])
handle_kill c victim (some killer) gauntlet g =
    if not (counts c g)
    then some (g, [])
    else elim (advance (state_of killer g) g.ladder (kill_event c gauntlet)) [
      | none ↦ none
      | some (t, o) ↦
          marks killer victim (settle_kill c victim killer gauntlet t o (set_state killer t g))
    ]

-- `handle_death`; `by_other` says that another player killed, `switch` that the cause is SWITCH_TEAMS.
unfoldable pub handle_death : Config → ℕ → Bool → Bool → GunGame → Option (GunGame × List Effect)
unfolding counts
handle_death c victim by_other switch g =
    if by_other || (switch || (not (counts c g) || not c.suicide_demote))
    then some (g, [])
    else demote c victim Event.back g
