-- ===== src/GunGame/Handlers.antt =====
-- `handle_kill` and `handle_death` of gungame.py raise no IndexError and keep the invariant.
use qlsm_extra.Base.{
  ℕ, ◌≡◌, ◌≢◌, refl, ◌∙◌, Bool, true, false, not, ◌&&◌, ◌||◌, Option, none, some, List, [], ◌∷◌,
  arith, Bool-cases, inl, inr,
}
use qlsm_extra.Base.Dict.{Distinct, insert-Distinct}
use qlsm_extra.GunGame.{Ladder, IsLadder, State, Event, Outcome, advance, pick_leader}
use qlsm_extra.GunGame.Leader.{Leads, pick_leader-Leads}
use qlsm_extra.GunGame.Invariant.{
  IsGame, AllFit, FitsUntil, Advanced, moves, is_win, advance-Advanced, AllFit-insert,
  IsLadder-Needs, state_of-Fits, same_step-Leads,
}
use qlsm_extra.GunGame.Plugin.{
  Config, GunGame, Effect, state_of, set_state, update_leader, same_leader, after_demote, demote,
  gauntlet_death, announce_leader, after_frag, marks, settle_kill, counts, kill_event, handle_kill,
  handle_death,
}

-- The part of the invariant that holds between the steps of a handler.
record IsPlayed (g : GunGame) : Type 0 where
  distinct : Distinct g.states
  ladder_ok : IsLadder g.ladder
  fit : AllFit g.ladder g.states

same_leader-eq : (a b : Option ℕ) → same_leader a b ≡ true → a ≡ b
same_leader-eq none none h = refl
same_leader-eq none (some k) h = cc
same_leader-eq (some j) none h = cc
same_leader-eq (some j) (some k) h = ground arith

update_leader-fields :
    (c : Config) (player : ℕ) (g : GunGame)
    → let after = (update_leader c player g).0 in
      (after.states ≡ g.states)
      × (after.ladder ≡ g.ladder)
      × (after.won ≡ g.won)
      × (after.leader ≡ pick_leader g.states g.leader)
unfolding update_leader
update_leader-fields c player g =
    ground (arith, same_leader-eq (pick_leader g.states g.leader) g.leader)

fields-IsPlayed :
    (g h : GunGame) → h.states ≡ g.states → h.ladder ≡ g.ladder → IsPlayed g → IsPlayed h
fields-IsPlayed g h e f p = record {
  distinct = rw e p.distinct;
  ladder_ok = rw f p.ladder_ok;
  fit = rw (e, f) p.fit;
}

-- What a part of a handler leaves: it does not raise, and once `leads` holds it holds on.
abbrev Kept : GunGame → Option (GunGame × List Effect) → Type 0
Kept g none = ⊥
Kept g (some (h, news)) =
    IsPlayed h × (h.won ≡ g.won) × (Leads g.leader g.states → Leads h.leader h.states)

update_leader-IsPlayed :
    (c : Config) (player : ℕ) (g : GunGame)
    → IsPlayed g
    → let after = (update_leader c player g).0 in
      IsPlayed after × (after.won ≡ g.won) × Leads after.leader after.states
update_leader-IsPlayed c player g p =
    let (states, ladder, won, leader) = update_leader-fields c player g in
    (
      fields-IsPlayed g _ states ladder p,
      won,
      rw (states, leader) (pick_leader-Leads g.states g.leader p.distinct),
    )

-- A new state that fits, for one player.
set_state-IsPlayed :
    (player : ℕ) (t : State) (g : GunGame)
    → IsPlayed g
    → FitsUntil false g.ladder t
    → IsPlayed (set_state player t g)
set_state-IsPlayed player t g p f = record {
  distinct = insert-Distinct player t g.states p.distinct;
  ladder_ok = p.ladder_ok;
  fit = AllFit-insert g.ladder player t g.states p.fit f;
}

-- Moving up and winning.
abbrev gains : Outcome → Bool
gains Outcome.up = true
gains Outcome.win = true
gains _ = false

-- `_demote` gains nothing, and a frag takes nothing back.
abbrev NotGained : Option (State × Outcome) → Type 0
NotGained none = Unit
NotGained (some (t, o)) = gains o ≡ false

abbrev NotDown : Option (State × Outcome) → Type 0
NotDown none = Unit
NotDown (some (t, o)) = o ≢ Outcome.down

-- The two events of `_demote`.
abbrev takes_back : Event → Bool
takes_back Event.back = true
takes_back Event.demote = true
takes_back _ = false

takes_back-NotGained :
    (s : State) (ladder : Ladder) (event : Event)
    → takes_back event ≡ true
    → NotGained (advance s ladder event)
unfolding advance
takes_back-NotGained s ladder Event.frag h = cc
takes_back-NotGained s ladder Event.skip h = cc
takes_back-NotGained s ladder Event.back h = ground arith
takes_back-NotGained s ladder Event.demote h = ground arith

frag-NotDown :
    (s : State) (ladder : Ladder) (event : Event)
    → takes_back event ≡ false
    → NotDown (advance s ladder event)
unfolding advance
frag-NotDown s ladder Event.frag h = ground arith
frag-NotDown s ladder Event.skip h = ground arith
frag-NotDown s ladder Event.back h = cc
frag-NotDown s ladder Event.demote h = cc

state_of-Advanced :
    (player : ℕ) (event : Event) (g : GunGame)
    → IsPlayed g
    → Advanced g.ladder (state_of player g) (advance (state_of player g) g.ladder event)
state_of-Advanced player event g p =
    advance-Advanced g.ladder (state_of player g) event (IsLadder-Needs g.ladder p.ladder_ok)
      (state_of-Fits player g p.ladder_ok p.fit)

demote-Kept :
    (c : Config) (player : ℕ) (event : Event) (g : GunGame)
    → takes_back event ≡ true
    → IsPlayed g
    → Kept g (demote c player event g)
unfolding demote
demote-Kept c player event g b p =
    from (advance (state_of player g) g.ladder event) refl (state_of-Advanced player event g p)
      (takes_back-NotGained (state_of player g) g.ladder event b)
  where
    stay :
        (t : State) (o : Outcome)
        → moves o ≡ false
        → Advanced g.ladder (state_of player g) (some (t, o))
        → is_win o ≡ false
        → Kept g (some (set_state player t g, []))
    stay t o m a w = (
      set_state-IsPlayed player t g p (rw w at a.0),
      refl,
      λ l. same_step-Leads player t g g.leader l (a.1 m),
    )

    from :
        (r : Option (State × Outcome))
        → advance (state_of player g) g.ladder event ≡ r
        → Advanced g.ladder (state_of player g) r
        → NotGained r
        → Kept g (demote c player event g)
    from none e a w = absurd a
    from (some (t, Outcome.win)) e a w = cc
    from (some (t, Outcome.up)) e a w = cc
    from (some (t, Outcome.down)) e a w =
        let (played, won, leads) =
          update_leader-IsPlayed c player (set_state player t g)
            (set_state-IsPlayed player t g p a.0) in
        rw (demote, e, after_demote) (played, won, λ l. leads)
    from (some (t, Outcome.back)) e a w =
        rw (demote, e, after_demote) (stay t Outcome.back refl a refl)
    from (some (t, Outcome.same)) e a w =
        rw (demote, e, after_demote) (stay t Outcome.same refl a refl)

gauntlet_death-Kept :
    (c : Config) (victim : ℕ) (gauntlet : Bool) (g : GunGame)
    → IsPlayed g
    → Kept g (gauntlet_death c victim gauntlet g)
unfolding gauntlet_death
gauntlet_death-Kept c victim gauntlet g p = elim (Bool-cases (gauntlet && c.gauntlet_demote)) [
  | inl e ↦ rw (gauntlet_death, e) (demote-Kept c victim Event.demote g refl p)
  | inr e ↦ rw (gauntlet_death, e) (p, refl, λ l. l)
]

abbrev pub Returned : Option (GunGame × List Effect) → Type 0
Returned none = ⊥
Returned (some (g, news)) = IsGame g

played-IsGame : (g : GunGame) → IsPlayed g → g.won ≡ false → Leads g.leader g.states → IsGame g
played-IsGame g p w l = record {
  distinct = p.distinct;
  ladder_ok = p.ladder_ok;
  fit = rw w p.fit;
  leads = l;
}

game-IsPlayed : (g : GunGame) → IsGame g → g.won ≡ false → IsPlayed g
game-IsPlayed g i w = record { distinct = i.distinct; ladder_ok = i.ladder_ok; fit = rw w at i.fit }

-- A frag that moved nobody up.
after_frag-level :
    (c : Config) (victim killer : ℕ) (gauntlet : Bool) (g : GunGame)
    → IsPlayed g
    → g.won ≡ false
    → Leads g.leader g.states
    → Returned (
        marks killer victim
          (elim (gauntlet_death c victim gauntlet g) as (λ _. Option (GunGame × List Effect)) [
            | none ↦ none
            | some (h, news) ↦ some (h, Effect.write_score killer ∷ news)
          ]))
after_frag-level c victim killer gauntlet g p w l =
    from (gauntlet_death c victim gauntlet g) (gauntlet_death-Kept c victim gauntlet g p)
  where
    from :
        (r : Option (GunGame × List Effect))
        → Kept g r
        → Returned (
            marks killer victim (elim r as (λ _. Option (GunGame × List Effect)) [
              | none ↦ none
              | some (h, news) ↦ some (h, Effect.write_score killer ∷ news)
            ]))
    from none k = absurd k
    from (some (h, news)) (played, won, leads) = played-IsGame h played (won ∙ w) (leads l)

-- A frag that moved the killer up: the leader is looked for afterwards.
after_frag-up :
    (c : Config) (victim killer : ℕ) (gauntlet : Bool) (t : State) (g : GunGame)
    → IsPlayed g
    → g.won ≡ false
    → Returned (marks killer victim (after_frag c victim killer gauntlet t Outcome.up g))
unfolding after_frag announce_leader
after_frag-up c victim killer gauntlet t g p w =
    from (gauntlet_death c victim gauntlet g) refl (gauntlet_death-Kept c victim gauntlet g p)
  where
    from :
        (r : Option (GunGame × List Effect))
        → gauntlet_death c victim gauntlet g ≡ r
        → Kept g r
        → Returned (marks killer victim (after_frag c victim killer gauntlet t Outcome.up g))
    from none e k = absurd k
    from (some (h, news)) e (played, won, leads) =
        let (played', won', leads') = update_leader-IsPlayed c killer h played in
        rw (after_frag, e, announce_leader) (played-IsGame _ played' (won' ∙ won ∙ w) leads')

settle_kill-Returned :
    (c : Config) (victim killer : ℕ) (gauntlet : Bool) (t : State) (o : Outcome) (g : GunGame)
    → IsPlayed g
    → g.won ≡ false
    → Leads g.leader g.states
    → Advanced g.ladder (state_of killer g) (some (t, o))
    → o ≢ Outcome.down
    → Returned
        (marks killer victim (settle_kill c victim killer gauntlet t o (set_state killer t g)))
unfolding settle_kill after_frag
settle_kill-Returned c victim killer gauntlet t Outcome.win g p w l a d = record {
  distinct = insert-Distinct killer t g.states p.distinct;
  ladder_ok = p.ladder_ok;
  fit = tt;
  leads = same_step-Leads killer t g g.leader l (a.1 refl);
}
settle_kill-Returned c victim killer gauntlet t Outcome.up g p w l a d =
    after_frag-up c victim killer gauntlet t (set_state killer t g)
      (set_state-IsPlayed killer t g p a.0) w
settle_kill-Returned c victim killer gauntlet t Outcome.same g p w l a d =
    after_frag-level c victim killer gauntlet (set_state killer t g)
      (set_state-IsPlayed killer t g p a.0) w (same_step-Leads killer t g g.leader l (a.1 refl))
settle_kill-Returned c victim killer gauntlet t Outcome.back g p w l a d =
    after_frag-level c victim killer gauntlet (set_state killer t g)
      (set_state-IsPlayed killer t g p a.0) w (same_step-Leads killer t g g.leader l (a.1 refl))
settle_kill-Returned c victim killer gauntlet t Outcome.down g p w l a d = absurd (d refl)

kill_event-gives : (c : Config) (gauntlet : Bool) → takes_back (kill_event c gauntlet) ≡ false
kill_event-gives c gauntlet = ground arith

counts-won : (c : Config) (g : GunGame) → counts c g ≡ true → g.won ≡ false
unfolding counts
counts-won c g h = ground arith

-- A kill never raises an IndexError, and keeps the invariant: every state stays on the ladder short
-- of its step's frags until somebody has won, and the leader that is kept is one that leads, though
-- it is looked for again only after a step.
pub handle_kill-IsGame :
    (c : Config) (victim : ℕ) (killer : Option ℕ) (gauntlet : Bool) (g : GunGame)
    → IsGame g
    → Returned (handle_kill c victim killer gauntlet g)
unfolding handle_kill
handle_kill-IsGame c victim none gauntlet g i = i
handle_kill-IsGame c victim (some killer) gauntlet g i = elim (Bool-cases (counts c g)) [
  | inr off ↦ rw (handle_kill, off) i
  | inl on ↦
      let won = counts-won c g on in
      let played = game-IsPlayed g i won in
      rw (handle_kill, on)
        (from won played (advance (state_of killer g) g.ladder (kill_event c gauntlet))
          (state_of-Advanced killer (kill_event c gauntlet) g played)
          (frag-NotDown (state_of killer g) g.ladder (kill_event c gauntlet)
            (kill_event-gives c gauntlet)))
]
  where
    from :
        g.won ≡ false
        → IsPlayed g
        → (r : Option (State × Outcome)) → Advanced g.ladder (state_of killer g) r
        → NotDown r
        → Returned (elim r as (λ _. Option (GunGame × List Effect)) [
          | none ↦ none
          | some (t, o) ↦
              marks killer victim (settle_kill c victim killer gauntlet t o (set_state killer t g))
        ])
    from won played none a d = absurd a
    from won played (some (t, o)) a d =
        settle_kill-Returned c victim killer gauntlet t o g played won i.leads a d

-- So does a death that no other player caused.
pub handle_death-IsGame :
    (c : Config) (victim : ℕ) (by_other switch : Bool) (g : GunGame)
    → IsGame g
    → Returned (handle_death c victim by_other switch g)
unfolding handle_death
handle_death-IsGame c victim by_other switch g i =
    elim (Bool-cases (by_other || (switch || (not (counts c g) || not c.suicide_demote)))) [
      | inl e ↦ rw (handle_death, e) i
      | inr e ↦
          let won = counts-won c g (ground arith) in
          rw (handle_death, e)
            (from won (demote c victim Event.back g)
              (demote-Kept c victim Event.back g refl (game-IsPlayed g i won)))
    ]
  where
    from : g.won ≡ false → (r : Option (GunGame × List Effect)) → Kept g r → Returned r
    from won none k = absurd k
    from won (some (h, news)) (played, won', leads) =
        played-IsGame h played (won' ∙ won) (leads i.leads)
