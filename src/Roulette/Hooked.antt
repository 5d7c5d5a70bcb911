-- ===== src/Roulette/Hooked.antt =====
-- Each hook of `class item_roulette` keeps the damage hook with the curses that need it.
use qlsm_extra.Base.{
  ℕ, ◌+◌, ◌≡◌, refl, Bool, true, false, not, ◌&&◌, Bool-cases, Option, none, some, List, [], ◌∷◌,
  arith, leb, if◌then◌else◌, inl, inr, ap,
}
use qlsm_extra.Base.Dict.{
  Dict, lookup, erase, Distinct, lookup-insert, lookup-erase, lookup_missing, insert-Distinct,
  erase-Distinct,
}
use qlsm_extra.Base.Text.{Text}
use qlsm_extra.Roulette.Plan.{Outcome}
use qlsm_extra.Roulette.State.{
  Player, Kind, Snap, Curse, Roulette, Settings, Item, ItemType, unhook_damage, drop_curse,
  curse_kind,
}
use qlsm_extra.Roulette.Pickup.{handle_item_pickup, apply, apply_powerup, lay_curse, curse_of}
use qlsm_extra.Roulette.Curses.{Tick, tick_from, tick_curses, handle_frame, no_curses}
use qlsm_extra.Roulette.Guard.{Swept, tick_curses-Swept, needs_hook, is_over}

-- No player has two curses, and while a quad or a battle suit is cursed the damage hook is there.
pub record IsGuarded (s : Roulette) : Type 0 where
  pub distinct : Distinct s.curses
  pub hooked : (id : ℕ) → (needs_hook (lookup id s.curses) && not s.damage_hooked) ≡ false

pub empty-IsGuarded : (s : Roulette) → s.curses ≡ [] → IsGuarded s
empty-IsGuarded s e = record { distinct = rw e tt; hooked = λ id. rw e refl }

pub erase-IsGuarded : (id : ℕ) (s : Roulette) → IsGuarded s → IsGuarded (drop_curse id s)
erase-IsGuarded id s g = record {
  distinct = erase-Distinct s.curses id g.distinct;
  hooked = λ j. ground (arith, g.hooked j, lookup-erase s.curses j id g.distinct);
}

lay_curse-IsGuarded :
    (cfg : Settings) (now id stock : ℕ) (o : Option Kind) (s : Roulette)
    → cfg.can_hook ≡ true
    → IsGuarded s
    → IsGuarded (lay_curse cfg now id stock o s)
unfolding lay_curse
lay_curse-IsGuarded cfg now id stock none s c g = g
lay_curse-IsGuarded cfg now id stock (some Kind.haste) s c g = g
lay_curse-IsGuarded cfg now id stock (some Kind.quad) s c g = record {
  distinct = insert-Distinct id (curse_of cfg now stock Kind.quad) s.curses g.distinct;
  hooked = λ j. ground (arith, c);
}
lay_curse-IsGuarded cfg now id stock (some Kind.battlesuit) s c g = record {
  distinct = insert-Distinct id (curse_of cfg now stock Kind.battlesuit) s.curses g.distinct;
  hooked = λ j. ground (arith, c);
}
lay_curse-IsGuarded cfg now id stock (some Kind.invisibility) s c g = record {
  distinct = insert-Distinct id (curse_of cfg now stock Kind.invisibility) s.curses g.distinct;
  hooked = λ j.
      ground
        (arith, g.hooked j, lookup-insert j id (curse_of cfg now stock Kind.invisibility) s.curses);
}
lay_curse-IsGuarded cfg now id stock (some Kind.regeneration) s c g = record {
  distinct = insert-Distinct id (curse_of cfg now stock Kind.regeneration) s.curses g.distinct;
  hooked = λ j.
      ground
        (arith, g.hooked j, lookup-insert j id (curse_of cfg now stock Kind.regeneration) s.curses);
}

pub touch-IsGuarded :
    (s : Roulette) (d : Dict Snap) → IsGuarded s → IsGuarded (record s { touch = d })
touch-IsGuarded s d g = record { distinct = g.distinct; hooked = g.hooked }

apply_powerup-IsGuarded :
    (cfg : Settings) (now id : ℕ) (classname : Text) (powerups : List ℕ) (stock : ℕ) (o : Outcome)
    (s : Roulette) (player : Player)
    → cfg.can_hook ≡ true
    → IsGuarded s
    → IsGuarded (apply_powerup cfg now id classname powerups stock o (s, player)).0
unfolding apply_powerup
apply_powerup-IsGuarded cfg now id classname powerups stock Outcome.gives s player c g = g
apply_powerup-IsGuarded cfg now id classname powerups stock Outcome.takes s player c g =
    lay_curse-IsGuarded cfg now id stock (curse_kind classname) s c g

apply-IsGuarded :
    (cfg : Settings) (now id : ℕ) (snap : Snap) (item : Item) (s : Roulette) (player : Player)
    → cfg.can_hook ≡ true
    → IsGuarded s
    → IsGuarded (apply cfg now id snap item (s, player)).0
unfolding apply
apply-IsGuarded cfg now id snap item s player c g = from item.gi_type refl
  where
    outcome : Outcome
    outcome = if snap.take then Outcome.takes else Outcome.gives

    powerup :
        (o : Option (List ℕ))
        → snap.powerups ≡ o
        → item.gi_type ≡ ItemType.powerup
        → IsGuarded (apply cfg now id snap item (s, player)).0
    powerup none f e = rw (apply, e, f) g
    powerup (some powerups) f e =
        rw (apply, e, f)
          (apply_powerup-IsGuarded cfg now id snap.classname powerups item.quantity outcome s player
            c g)

    from :
        (type : ItemType)
        → item.gi_type ≡ type
        → IsGuarded (apply cfg now id snap item (s, player)).0
    from ItemType.armor e = rw (apply, e) g
    from ItemType.health e = rw (apply, e) g
    from ItemType.other e = rw (apply, e) g
    from ItemType.weapon e = rw (apply, e) g
    from ItemType.ammo e = rw (apply, e) g
    from ItemType.powerup e = powerup snap.powerups refl e

pub pickup-IsGuarded :
    (cfg : Settings) (now id : ℕ) (item_of : ℕ → Option Item) (s : Roulette) (player : Player)
    → cfg.can_hook ≡ true
    → IsGuarded s
    → IsGuarded (handle_item_pickup cfg now id item_of (s, player)).0
unfolding handle_item_pickup
pickup-IsGuarded cfg now id item_of s player c g = from (lookup id s.touch) refl
  where
    popped : Roulette
    popped = record s { touch = erase id s.touch }

    h : IsGuarded popped
    h = touch-IsGuarded s (erase id s.touch) g

    read :
        (snap : Snap) (o : Option Item)
        → lookup id s.touch ≡ some snap
        → item_of snap.modelindex ≡ o
        → IsGuarded (handle_item_pickup cfg now id item_of (s, player)).0
    read snap none e f = elim (Bool-cases (not cfg.enabled)) [
      | inl b ↦ rw (handle_item_pickup, e, b) h
      | inr b ↦ rw (handle_item_pickup, e, b, f) h
    ]
    read snap (some item) e f = elim (Bool-cases (not cfg.enabled)) [
      | inl b ↦ rw (handle_item_pickup, e, b) h
      | inr b ↦
          rw (handle_item_pickup, e, b, f) (apply-IsGuarded cfg now id snap item popped player c h)
    ]

    from :
        (o : Option Snap)
        → lookup id s.touch ≡ o
        → IsGuarded (handle_item_pickup cfg now id item_of (s, player)).0
    from none e = rw (handle_item_pickup, e) h
    from (some snap) e = read snap (item_of snap.modelindex) e refl

-- What a frame leaves: the state is guarded, and where the plugin is on no curse is over.
pub record Frame (now : ℕ) (s : Roulette) : Type 0 where
  pub guarded : IsGuarded s
  pub fresh : (id : ℕ) → is_over now (lookup id s.curses) ≡ false

pub handle_frame-Frame :
    (cfg : Settings) (now : ℕ) (in_game : ℕ → Bool) (players : Dict Player) (s : Roulette)
    → IsGuarded s
    → Frame now (handle_frame cfg now in_game players s).state
unfolding handle_frame
handle_frame-Frame cfg now in_game players s g = from s.curses refl
  where
    nothing : (r : Roulette) → r.curses ≡ [] → Frame now r
    nothing r e = record { guarded = empty-IsGuarded r e; fresh = λ id. rw e refl }

    drain : Bool
    drain = leb s.next_drain now

    timed : Roulette
    timed = record s { next_drain = if drain then now + 1000 else s.next_drain }

    t : Tick
    t = tick_curses now drain in_game s.curses (tick_from players timed)

    w : Swept now s.curses (tick_from players timed) t
    w =
        tick_curses-Swept now drain in_game s.curses (tick_from players timed) g.distinct g.distinct
          (λ j f. refl)

    after :
        (e : no_curses s.curses ≡ false) → Frame now (handle_frame cfg now in_game players s).state
    after e = elim (Bool-cases (not cfg.enabled)) [
      | inl b ↦ rw (handle_frame, e, b) (nothing (unhook_damage (record s { curses = [] })) refl)
      | inr b ↦ elim (Bool-cases t.need_damage) [
        | inl n ↦
            rw (handle_frame, e, b, n)
              (record {
                guarded = record {
                  distinct = w.distinct;
                  hooked = λ j. ground (arith, w.hook, w.subset j, g.hooked j);
                };
                fresh = λ j. ground (arith, w.fresh j, w.subset j, lookup_missing j s.curses);
              })
        | inr n ↦
            rw (handle_frame, e, b, n)
              (record {
                guarded = record {
                  distinct = w.distinct;
                  hooked =
                      λ j. ground (arith, w.counted j, n, w.subset j, lookup_missing j s.curses);
                };
                fresh = λ j. ground (arith, w.fresh j, w.subset j, lookup_missing j s.curses);
              })
      ]
    ]

    from :
        (d : Dict Curse) → s.curses ≡ d → Frame now (handle_frame cfg now in_game players s).state
    from [] e = rw (handle_frame, ap no_curses e) (nothing (unhook_damage s) e)
    from (x ∷ d) e = after (ap no_curses e)
