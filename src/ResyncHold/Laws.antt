-- ===== src/ResyncHold/Laws.antt =====
-- What a frame of `class ResyncHold` promises, and a run of frames.
use qlsm_extra.Base.{
  ℕ, ◌+◌, ◌≤◌, ◌≡◌, refl, true, not, Bool-cases, Option, none, some, [], ◌∷◌, arith, ◌==◌,
  if◌then◌else◌, inl, inr, max, ◌∙◌, ap, sym,
}
use qlsm_extra.Base.Dict.{Dict, lookup, erase, keys}
use qlsm_extra.ResyncHold.{
  Slot, Hold, Counts, Watch, Client, Status, cancel, drop_slot, drop_slots, reset, has_target,
}
use qlsm_extra.ResyncHold.Frame.{frame}
use qlsm_extra.ResyncHold.Count.{holds, IsSound}
use qlsm_extra.ResyncHold.Balance.{Sound, reset-Keeps}
use qlsm_extra.ResyncHold.Halves.{before_holds-holds, frame_on-Held}
use qlsm_extra.ResyncHold.Young.{young}

drop_slot_first :
    (slot n : ℕ) (st : Slot) (d : Dict Slot) (c : Counts) (w : Watch)
    → drop_slot slot (record { frame_no = n; counts = c; slots = (slot, st) ∷ d; watch = w })
      ≡ record {
        frame_no = n;
        counts = if has_target st.target then cancel c else c;
        slots = d;
        watch = w;
      }
unfolding drop_slot
drop_slot_first slot n st d c w =
    let e : (slot == slot) ≡ true = ground arith in rw (drop_slot, e, erase, e) refl

drop_slots_all :
    (d : Dict Slot) (n : ℕ) (c : Counts) (w : Watch)
    → (drop_slots (keys d) (record { frame_no = n; counts = c; slots = d; watch = w })).slots ≡ []
unfolding drop_slots
drop_slots_all [] n c w = refl
drop_slots_all ((slot, st) ∷ d) n c w =
    rw (drop_slots, drop_slot_first slot n st d c w)
      (drop_slots_all d n (if has_target st.target then cancel c else c) w)

pub reset-slots : (h : Hold) → (reset h).slots ≡ []
unfolding reset
reset-slots h = drop_slots_all h.slots h.frame_no h.counts h.watch

-- What a frame promises.
record Framed (p m : ℕ) (d : Dict Slot) (g : Hold) : Type 0 where
  sound : Sound g
  budget : holds g.slots ≤ max p (holds d)
  behind : g.watch.behind ≡ true → holds g.slots ≡ 0
  all_young : 1 ≤ m → (j : ℕ) → young g.frame_no m (lookup j g.slots) ≡ true

reset-Framed : (p m : ℕ) (h : Hold) → Sound h → Framed p m h.slots (reset h)
unfolding reset
reset-Framed p m h s = record {
  sound = (reset-Keeps h s).0;
  budget = omega (arith, (reset-Keeps h s).1);
  behind = λ b. cc;
  all_young = λ o j. rw (reset-slots h) refl;
}

frame-Framed :
    (o : Option Status) (client_of : ℕ → Option Client) (m now sec p : ℕ) (h : Hold)
    → Sound h
    → Framed p m h.slots (frame o client_of m now sec p h).0
unfolding frame
frame-Framed none client_of m now sec p h s =
    reset-Framed p m (record h { frame_no = h.frame_no + 1 }) s
frame-Framed (some status) client_of m now sec p h s =
    let ticked = record h { frame_no = h.frame_no + 1 } in
    let f = frame_on-Held status client_of m now sec p ticked s in
    elim (Bool-cases (not status.enabled)) [
      | inl e ↦ rw e (reset-Framed p m ticked s)
      | inr e ↦ rw e (record {
        sound = f.sound;
        budget = omega (arith, f.budget, before_holds-holds status client_of now sec ticked s);
        behind = λ b. f.behind (ap (λ w. w.behind) (sym f.watch) ∙ b);
        all_young = f.all_young;
      })
    ]

-- A frame keeps the state well formed: no slot stands twice, a slot that waits has no hold, and every
-- hold that was started is running, or was acknowledged, capped or cancelled.
pub frame-IsSound :
    (o : Option Status) (client_of : ℕ → Option Client) (m now sec p : ℕ) (h : Hold)
    → IsSound h.counts h.slots
    → IsSound (frame o client_of m now sec p h).0.counts (frame o client_of m now sec p h).0.slots
frame-IsSound o client_of m now sec p h s = (frame-Framed o client_of m now sec p h s).sound

-- From a well-formed state, a frame leaves at most `per_frame` holds running, or no more than there
-- were before it.
pub frame-holds :
    (o : Option Status) (client_of : ℕ → Option Client) (m now sec p : ℕ) (h : Hold)
    → IsSound h.counts h.slots
    → holds (frame o client_of m now sec p h).0.slots ≤ max p (holds h.slots)
frame-holds o client_of m now sec p h s = (frame-Framed o client_of m now sec p h s).budget

-- From a well-formed state, a frame that finds the relay behind leaves no hold running.
pub frame-behind :
    (o : Option Status) (client_of : ℕ → Option Client) (m now sec p : ℕ) (h : Hold)
    → IsSound h.counts h.slots
    → (frame o client_of m now sec p h).0.watch.behind ≡ true
    → holds (frame o client_of m now sec p h).0.slots ≡ 0
frame-behind o client_of m now sec p h s = (frame-Framed o client_of m now sec p h s).behind

-- From a well-formed state, a frame with a cap of at least one full snapshot leaves no hold running
-- that began four times the cap of frames ago, or earlier.
pub frame-young :
    (o : Option Status) (client_of : ℕ → Option Client) (m now sec p : ℕ) (h : Hold)
    → IsSound h.counts h.slots
    → 1 ≤ m
    → (j : ℕ)
    → let g = (frame o client_of m now sec p h).0 in young g.frame_no m (lookup j g.slots) ≡ true
frame-young o client_of m now sec p h s = (frame-Framed o client_of m now sec p h s).all_young
