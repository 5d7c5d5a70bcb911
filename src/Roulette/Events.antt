-- ===== src/Roulette/Events.antt =====
-- The hooks of `class item_roulette` in any order.
use qlsm_extra.Base.{
  ℕ, ◌≡◌, refl, Bool, true, false, not, ◌&&◌, ◌||◌, Option, none, some, List, [], ◌∷◌, arith,
  Bool-cases, inl, inr,
}
use qlsm_extra.Base.Dict.{Dict, lookup, insert, erase}
use qlsm_extra.Base.Text.{Text}
use qlsm_extra.Roulette.State.{Player, Roulette, Settings, Item, at_first, drop_curse}
use qlsm_extra.Roulette.Pickup.{handle_item_touch, handle_item_pickup, snapshot, is_empty}
use qlsm_extra.Roulette.Curses.{handle_frame, handle_player_spawn, handle_death, handle_new_game}
use qlsm_extra.Roulette.Guard.{is_over}
use qlsm_extra.Roulette.Hooked.{
  IsGuarded, empty-IsGuarded, erase-IsGuarded, touch-IsGuarded, pickup-IsGuarded,
  handle_frame-Frame,
}

-- What the engine calls; `spawns` stands for a disconnect too. `handle_damage` changes no state of the plugin.
pub data Event : Type 0 where
  touches : Settings → ℕ → ℕ → ℕ → Option (Player × Text × ℕ) → Event
  picks_up : Settings → ℕ → ℕ → (ℕ → Option Item) → Player → Event
  frame_begins : Settings → ℕ → (ℕ → Bool) → Dict Player → Event
  spawns : ℕ → Event
  dies : Option ℕ → Event
  game_begins : Event

unfoldable pub handle : Event → Roulette → Roulette
handle (Event.touches cfg n rnd id seen) s = handle_item_touch cfg n rnd id seen s
handle (Event.picks_up cfg now id item_of player) s =
    (handle_item_pickup cfg now id item_of (s, player)).0
handle (Event.frame_begins cfg now in_game players) s =
    (handle_frame cfg now in_game players s).state
handle (Event.spawns id) s = handle_player_spawn id s
handle (Event.dies victim) s = handle_death victim s
handle Event.game_begins s = handle_new_game s

abbrev pub handle_each : List Event → Roulette → Roulette
handle_each [] s = s
handle_each (event ∷ events) s = handle_each events (handle event s)

-- Whether the runtime has the "damage" event where a pickup may need it.
abbrev pub has_damage : List Event → Bool
has_damage [] = true
has_damage (Event.picks_up cfg now id item_of player ∷ events) = cfg.can_hook && has_damage events
has_damage (_ ∷ events) = has_damage events

item_touch-IsGuarded :
    (cfg : Settings) (n rnd id : ℕ) (seen : Option (Player × Text × ℕ)) (s : Roulette)
    → IsGuarded s
    → IsGuarded (handle_item_touch cfg n rnd id seen s)
unfolding handle_item_touch
item_touch-IsGuarded cfg n rnd id none s g = g
item_touch-IsGuarded cfg n rnd id (some (player, classname, m)) s g =
    elim (Bool-cases (not cfg.enabled || is_empty classname)) [
      | inl e ↦ rw e g
      | inr e ↦
          rw e (touch-IsGuarded s (insert id (snapshot cfg n rnd player classname m) s.touch) g)
    ]

handle_each-IsGuarded' :
    (events : List Event) (s : Roulette)
    → has_damage events ≡ true
    → IsGuarded s
    → IsGuarded (handle_each events s)
unfolding handle
handle_each-IsGuarded' [] s d g = g
handle_each-IsGuarded' (Event.touches cfg n rnd id seen ∷ events) s d g =
    handle_each-IsGuarded' events (handle_item_touch cfg n rnd id seen s) d
      (item_touch-IsGuarded cfg n rnd id seen s g)
handle_each-IsGuarded' (Event.picks_up cfg now id item_of player ∷ events) s d g =
    handle_each-IsGuarded' events (handle_item_pickup cfg now id item_of (s, player)).0
      (ground (arith, d)) (pickup-IsGuarded cfg now id item_of s player (ground (arith, d)) g)
handle_each-IsGuarded' (Event.frame_begins cfg now in_game players ∷ events) s d g =
    handle_each-IsGuarded' events (handle_frame cfg now in_game players s).state d
      (handle_frame-Frame cfg now in_game players s g).guarded
handle_each-IsGuarded' (Event.spawns id ∷ events) s d g =
    handle_each-IsGuarded' events (handle_player_spawn id s) d
      (touch-IsGuarded (drop_curse id s) (erase id s.touch) (erase-IsGuarded id s g))
handle_each-IsGuarded' (Event.dies none ∷ events) s d g = handle_each-IsGuarded' events s d g
handle_each-IsGuarded' (Event.dies (some id) ∷ events) s d g =
    handle_each-IsGuarded' events (drop_curse id s) d (erase-IsGuarded id s g)
handle_each-IsGuarded' (Event.game_begins ∷ events) s d g =
    handle_each-IsGuarded' events (handle_new_game s) d (empty-IsGuarded (handle_new_game s) refl)

-- In a runtime with the "damage" event, whatever touches, pickups, frames, spawns, deaths and new games
-- come after the start: no player has two curses, and while a quad or a battle suit is cursed the hook that
-- corrects the hits is there.
pub handle_each-IsGuarded :
    (events : List Event) → has_damage events ≡ true → IsGuarded (handle_each events at_first)
handle_each-IsGuarded events d =
    handle_each-IsGuarded' events at_first d (empty-IsGuarded at_first refl)

-- In a runtime with the "damage" event, whatever touches, pickups, frames, spawns, deaths and new games
-- came after the start, a frame leaves no curse that is over.
pub handle_frame-fresh :
    (events : List Event) (cfg : Settings) (now : ℕ) (in_game : ℕ → Bool) (players : Dict Player)
    → has_damage events ≡ true
    → (id : ℕ)
    → is_over now (
        lookup id (handle_frame cfg now in_game players (handle_each events at_first)).state.curses)
      ≡ false
handle_frame-fresh events cfg now in_game players d =
    (handle_frame-Frame cfg now in_game players (handle_each events at_first)
      (handle_each-IsGuarded events d)).fresh
