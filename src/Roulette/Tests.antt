-- ===== src/Roulette/Tests.antt =====
-- Runs of the item roulette, and the theorems at concrete pickups and hits.
use qlsm_extra.Base.{
  ℕ, ◌+◌, ◌-◌, ◌/◌, ◌≤◌, ◌≡◌, refl, true, false, Option, none, some, List, [], ◌∷◌, arith, max,
  if◌then◌else◌, replicate, ◌==◌,
}
use qlsm_extra.Base.Dict.{lookup}
use qlsm_extra.Base.Int.{pos}
use qlsm_extra.Base.Text.{codes}
use qlsm_extra.Roulette.Plan.{Factor, battlesuit_extra, armor_max}
use qlsm_extra.Roulette.State.{Player, Kind, Roulette, Settings, Item, ItemType, at_first}
use qlsm_extra.Roulette.Curses.{handle_damage, handle_frame}
use qlsm_extra.Roulette.Hits.{battlesuit_extra-loss, handle_damage-lives}
use qlsm_extra.Roulette.Guard.{is_over}
use qlsm_extra.Roulette.Hooked.{IsGuarded}
use qlsm_extra.Roulette.Events.{Event, handle_each, handle_each-IsGuarded, handle_frame-fresh}

-- The factor 1/2, and the factor 3/2.
abbrev half : Factor
half = record { is_less = true; is_more = false; less = λ d. d / 2; more = λ d. 0; whole = pos 0 }

abbrev three_halves : Factor
three_halves = record {
  is_less = false;
  is_more = true;
  less = λ d. 0;
  more = λ d. d / 2;
  whole = pos 2;
}

abbrev cfg : Settings
cfg = record {
  enabled = true;
  chance = 50;
  armor = [];
  health = [];
  weapons = [];
  ammo = (codes "default", (none, some 6)) ∷ [];
  factor_of = λ kind. some half;
  can_hook = true;
}

abbrev player : Player
player = record {
  health = 80;
  armor = 40;
  weapons = replicate 15 true;
  ammo = replicate 15 9;
  weapon = 5;
  powerups = replicate 6 0;
}

-- A box of rockets, and a quad.
abbrev item_of : ℕ → Option Item
item_of m = some (
    if m == 24
    then record { gi_type = ItemType.ammo; gi_tag = 5; quantity = 5 }
    else record { gi_type = ItemType.powerup; gi_tag = 1; quantity = 30 })

battlesuit_extra-loss_example :
    let (a, h) = battlesuit_extra 90 three_halves 40 80 in
    (a ≡ 40 - three_halves.more 90) × (a + h ≡ max 1 (40 + 80 - three_halves.more 90))
battlesuit_extra-loss_example =
    battlesuit_extra-loss 90 40 80 three_halves (omega arith) refl (omega arith)

abbrev suit : Roulette
suit = record at_first {
  curses = (3, record { kind = Kind.battlesuit; until = 500; factor = some three_halves }) ∷ [];
  damage_hooked = true;
}

handle_damage-lives_example :
    let after = handle_damage 100 300 3 (some 4) suit player in
    (1 ≤ after.health) × (after.armor ≤ armor_max)
handle_damage-lives_example =
    handle_damage-lives 100 300 3 (some 4) suit player (omega arith) (omega arith)

-- A cursed quad until 30100.
abbrev events : List Event
events =
    Event.touches cfg 1000 499 3 (some (player, codes "item_quad", 29))
    ∷ Event.picks_up cfg 100 3 item_of player
    ∷ Event.frame_begins cfg 125 (λ id. true) []
    ∷ []

handle_each-IsGuarded_example : IsGuarded (handle_each events at_first)
handle_each-IsGuarded_example = handle_each-IsGuarded events refl

handle_frame-fresh_example :
    is_over 30100
      (lookup 3 (handle_frame cfg 30100 (λ id. true) [] (handle_each events at_first)).state.curses)
    ≡ false
handle_frame-fresh_example = handle_frame-fresh events cfg 30100 (λ id. true) [] refl 3
