-- ===== src/GunGame/Loadout.antt =====
-- The frame after a spawn or a step up, in gungame.py: `_apply_loadout` and `_write_score`. Both make
-- the player's entry in `_states` when there is none yet.
use qlsm_extra.Base.{
  ℕ, ◌+◌, ◌-◌, ◌≡◌, refl, Bool, true, false, Option, none, some, [], ◌∷◌, arith, if◌then◌else◌,
  length, get_elem?, get_elem?-lt_length, ltb,
}
use qlsm_extra.Base.Dict.{contains, insert-Distinct, lookup_missing}
use qlsm_extra.GunGame.{Ladder, IsLadder}
use qlsm_extra.GunGame.Plugin.{Config, GunGame, state_of, set_state}
use qlsm_extra.GunGame.Invariant.{IsGame, FitUntil, AllFit-insert, start_fits, same_step-Leads}

-- `self._states.setdefault(key, (0, 0))`
unfoldable pub setdefault : ℕ → GunGame → GunGame
setdefault player g =
    if contains player g.states then g else set_state player (record { step = 0; frags = 0 }) g

-- `loadout(ladder, min(step, len(ladder) - 1))`; `none` is an IndexError.
unfoldable pub loadout : Ladder → ℕ → Option ℕ
loadout ladder step =
    let last = length ladder - 1 in
    elim (get_elem? ladder (if ltb step last then step else last)) [
      | none ↦ none
      | some (weapon, frags) ↦ some weapon
    ]

-- `_apply_loadout`: the fields and the weapon.
unfoldable pub apply_loadout : Config → ℕ → GunGame → Option (GunGame × ℕ)
unfolding setdefault loadout
apply_loadout c player g =
    let h = if c.in_progress then setdefault player g else g in
    let step = if c.in_progress then (state_of player h).step else 0 in
    elim (loadout h.ladder step) [ none ↦ none | some weapon ↦ some (h, weapon) ]

-- `_write_score`: the fields and the score.
unfoldable pub write_score : ℕ → GunGame → GunGame × ℕ
unfolding setdefault
write_score player g = let h = setdefault player g in (h, (state_of player h).step + 1)

FitUntil-start :
    (won : Bool) (player : ℕ) (g : GunGame)
    → IsLadder g.ladder
    → FitUntil won g.ladder g.states
    → FitUntil won g.ladder (set_state player (record { step = 0; frags = 0 }) g).states
FitUntil-start true player g l f = tt
FitUntil-start false player g l f =
    AllFit-insert g.ladder player _ g.states f (start_fits g.ladder l)

start-IsGame :
    (player : ℕ) (g : GunGame)
    → contains player g.states ≡ false
    → IsGame g
    → IsGame (set_state player (record { step = 0; frags = 0 }) g)
unfolding state_of
start-IsGame player g e i = record {
  distinct = insert-Distinct player _ g.states i.distinct;
  ladder_ok = i.ladder_ok;
  fit = FitUntil-start g.won player g i.ladder_ok i.fit;
  leads =
      same_step-Leads player (record { step = 0; frags = 0 }) g g.leader i.leads
        (rw (state_of, lookup_missing player g.states e) refl);
}

pub setdefault-IsGame : (player : ℕ) (g : GunGame) → IsGame g → IsGame (setdefault player g)
unfolding setdefault
setdefault-IsGame player g i = from (contains player g.states) refl
  where
    from : (b : Bool) → contains player g.states ≡ b → IsGame (setdefault player g)
    from true e = rw (setdefault, e) i
    from false e = rw (setdefault, e) (start-IsGame player g e i)

-- On a ladder that is not empty there is always a weapon.
loadout-some :
    (ladder : Ladder) (step : ℕ)
    → IsLadder ladder
    → (weapon : ℕ) × (loadout ladder step ≡ some weapon)
unfolding loadout
loadout-some [] step h = absurd h
loadout-some (s ∷ ladder) step h =
    let last = length (s ∷ ladder) - 1 in
    let i = if ltb step last then step else last in
    let (found, e) = get_elem?-lt_length (s ∷ ladder) i (ground arith) in
    (found.0, rw (loadout, e) refl)

pub apply_loadout-some :
    (c : Config) (player : ℕ) (g : GunGame)
    → IsGame g
    → (h : GunGame) × (weapon : ℕ) × (apply_loadout c player g ≡ some (h, weapon)) × IsGame h
unfolding apply_loadout
apply_loadout-some c player g i = from c.in_progress refl
  where
    from :
        (b : Bool)
        → c.in_progress ≡ b
        → (h : GunGame) × (weapon : ℕ) × (apply_loadout c player g ≡ some (h, weapon)) × IsGame h
    from true e =
        let h = setdefault player g in
        let j = setdefault-IsGame player g i in
        let (weapon, found) = loadout-some h.ladder (state_of player h).step j.ladder_ok in
        (h, weapon, ground (arith, e, found), j)
    from false e =
        let (weapon, found) = loadout-some g.ladder 0 i.ladder_ok in
        (g, weapon, ground (arith, e, found), i)
