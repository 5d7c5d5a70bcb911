-- ===== src/Roulette/Guard.antt =====
-- While a quad or a battle suit is cursed, the damage hook is there; an expired curse does not outlive a frame.
use qlsm_extra.Base.{
  ℕ, ◌≡◌, refl, Bool, true, false, not, ◌&&◌, Bool-cases, Option, none, some, [], ◌∷◌, arith, ltb,
  leb, ◌==◌, if◌then◌else◌, inl, inr, ◌∙◌, ap, ◌⊎◌,
}
use qlsm_extra.Base.Dict.{Dict, lookup, contains, erase, Distinct, lookup-erase, erase-Distinct}
use qlsm_extra.Roulette.State.{Player, Kind, hurts, Curse}
use qlsm_extra.Roulette.Curses.{Tick, tick_curse, tick_curses, drain_player, draw_balloon}

-- Whether a curse needs the damage hook, and whether it is over.
abbrev pub needs_hook : Option Curse → Bool
needs_hook none = false
needs_hook (some curse) = hurts curse.kind

abbrev pub is_over : ℕ → Option Curse → Bool
is_over now none = false
is_over now (some curse) = leb curse.until now

-- A round of the loop of `handle_frame`: the curse goes, or it stays and is counted.
record Round (now until : ℕ) (kind : Kind) (id : ℕ) (t u : Tick) : Type 0 where
  gone : Bool
  curses : u.state.curses ≡ (if gone then erase id t.state.curses else t.state.curses)
  hook : u.state.damage_hooked ≡ t.state.damage_hooked
  over : leb until now ≡ true → gone ≡ true
  counted : (hurts kind && (not gone && not u.need_damage)) ≡ false
  kept : t.need_damage ≡ true → u.need_damage ≡ true

tick_curse-Round :
    (now : ℕ) (drain : Bool) (in_game : ℕ → Bool) (id : ℕ) (curse : Curse) (t : Tick)
    → Round now curse.until curse.kind id t (tick_curse now drain in_game id curse t)
unfolding tick_curse draw_balloon drain_player
tick_curse-Round now drain in_game id curse t = split (leb curse.until now) refl
  where
    drain_kind :
        (o : Option Player)
        → lookup id t.players ≡ o
        → leb curse.until now ≡ false
        → Round now curse.until Kind.regeneration id t (drain_player id curse.factor t)
    drain_kind none f e =
        rw (drain_player, f)
          (record {
            gone = true;
            curses = refl;
            hook = refl;
            over = λ g. refl;
            counted = refl;
            kept = λ g. g;
          })
    drain_kind (some player) f e = elim (Bool-cases (ltb 1 player.health)) [
      | inl b ↦
          rw (drain_player, f, b)
            (record {
              gone = false;
              curses = refl;
              hook = refl;
              over = λ g. ground (arith, e, g);
              counted = refl;
              kept = λ g. g;
            })
      | inr b ↦
          rw (drain_player, f, b)
            (record {
              gone = false;
              curses = refl;
              hook = refl;
              over = λ g. ground (arith, e, g);
              counted = refl;
              kept = λ g. g;
            })
    ]

    balloon_kind :
        (b : Bool)
        → leb curse.until now ≡ false
        → Round now curse.until Kind.invisibility id t (draw_balloon id b t)
    balloon_kind true e = record {
      gone = false;
      curses = refl;
      hook = refl;
      over = λ g. ground (arith, e, g);
      counted = refl;
      kept = λ g. g;
    }
    balloon_kind false e = record {
      gone = true;
      curses = refl;
      hook = refl;
      over = λ g. refl;
      counted = refl;
      kept = λ g. g;
    }

    of_kind :
        (kind : Kind)
        → curse.kind ≡ kind
        → leb curse.until now ≡ false
        → Round now curse.until curse.kind id t (tick_curse now drain in_game id curse t)
    of_kind Kind.quad k e =
        rw (tick_curse, e, k)
          (record {
            gone = false;
            curses = refl;
            hook = refl;
            over = λ f. ground (arith, e, f);
            counted = ground arith;
            kept = λ f. refl;
          })
    of_kind Kind.battlesuit k e =
        rw (tick_curse, e, k)
          (record {
            gone = false;
            curses = refl;
            hook = refl;
            over = λ f. ground (arith, e, f);
            counted = ground arith;
            kept = λ f. refl;
          })
    of_kind Kind.haste k e =
        rw (tick_curse, e, k)
          (record {
            gone = false;
            curses = refl;
            hook = refl;
            over = λ f. ground (arith, e, f);
            counted = ground arith;
            kept = λ f. f;
          })
    of_kind Kind.invisibility k e = rw (tick_curse, e, k) (balloon_kind (in_game id) e)
    of_kind Kind.regeneration k e = elim (Bool-cases drain) [
      | inl d ↦ rw (tick_curse, e, k, d) (drain_kind (lookup id t.players) refl e)
      | inr d ↦
          rw (tick_curse, e, k, d)
            (record {
              gone = false;
              curses = refl;
              hook = refl;
              over = λ f. ground (arith, e, f);
              counted = refl;
              kept = λ f. f;
            })
    ]

    split :
        (b : Bool)
        → leb curse.until now ≡ b
        → Round now curse.until curse.kind id t (tick_curse now drain in_game id curse t)
    split true e =
        rw (tick_curse, e)
          (record {
            gone = true;
            curses = refl;
            hook = refl;
            over = λ f. refl;
            counted = ground arith;
            kept = λ f. f;
          })
    split false e = of_kind curse.kind refl e

lookup-Round :
    {now until id : ℕ} {kind : Kind} {t u : Tick}
    → (r : Round now until kind id t u) → Distinct t.state.curses
    → (j : ℕ)
    → lookup j u.state.curses ≡ (if r.gone && j == id then none else lookup j t.state.curses)
lookup-Round {now} {until} {id} {kind} {t} {u} r d j = split r.gone r.curses
  where
    split :
        (gone : Bool)
        → u.state.curses ≡ (if gone then erase id t.state.curses else t.state.curses)
        → lookup j u.state.curses ≡ (if gone && j == id then none else lookup j t.state.curses)
    split true e = ap (λ c. lookup j c) e ∙ lookup-erase t.state.curses j id d
    split false e = ap (λ c. lookup j c) e

Distinct-Round :
    {now until id : ℕ} {kind : Kind} {t u : Tick}
    → Round now until kind id t u
    → Distinct t.state.curses
    → Distinct u.state.curses
Distinct-Round {now} {until} {id} {kind} {t} {u} r d = split r.gone r.curses
  where
    split :
        (gone : Bool)
        → u.state.curses ≡ (if gone then erase id t.state.curses else t.state.curses)
        → Distinct u.state.curses
    split true e = rw e (erase-Distinct t.state.curses id d)
    split false e = rw e d

-- What the loop over some curses does.
pub record Swept (now : ℕ) (curses : Dict Curse) (t u : Tick) : Type 0 where
  pub kept : t.need_damage ≡ true → u.need_damage ≡ true
  pub distinct : Distinct u.state.curses
  pub subset :
      (j : ℕ)
      → (lookup j u.state.curses ≡ none) ⊎ (lookup j u.state.curses ≡ lookup j t.state.curses)
  pub fresh : (j : ℕ) → contains j curses ≡ true → is_over now (lookup j u.state.curses) ≡ false
  pub counted :
      (j : ℕ)
      → contains j curses ≡ true
      → (needs_hook (lookup j u.state.curses) && not u.need_damage) ≡ false
  pub hook : u.state.damage_hooked ≡ t.state.damage_hooked

pub tick_curses-Swept :
    (now : ℕ) (drain : Bool) (in_game : ℕ → Bool) (curses : Dict Curse) (t : Tick)
    → Distinct curses
    → Distinct t.state.curses
    → ((j : ℕ) → contains j curses ≡ true → lookup j t.state.curses ≡ lookup j curses)
    → Swept now curses t (tick_curses now drain in_game curses t)
unfolding tick_curses
tick_curses-Swept now drain in_game [] t d e h = record {
  distinct = e;
  subset = λ j. inr refl;
  fresh = λ j f. cc;
  counted = λ j f. cc;
  kept = λ f. f;
  hook = refl;
}
tick_curses-Swept now drain in_game ((id, curse) ∷ curses) t d e h =
    let u = tick_curse now drain in_game id curse t in
    let r = tick_curse-Round now drain in_game id curse t in
    let look : (j : ℕ)
        → lookup j u.state.curses ≡ (if r.gone && j == id then none else lookup j t.state.curses) =
      λ j. lookup-Round r e j in
    let s =
      tick_curses-Swept now drain in_game curses u d.1 (Distinct-Round r e)
        (λ j f. ground (arith, look j, f, d.0, h j)) in
    record {
      distinct = s.distinct;
      subset = λ j. ground (arith, look j, s.subset j);
      fresh = λ j f. ground (arith, f, look id, h id, r.over, s.subset id, s.fresh j);
      counted =
          λ j f. ground (arith, f, look id, h id, r.counted, s.subset id, s.counted j, s.kept);
      kept = λ f. s.kept (r.kept f);
      hook = s.hook ∙ r.hook;
    }
