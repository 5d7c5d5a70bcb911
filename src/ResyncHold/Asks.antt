-- ===== src/ResyncHold/Asks.antt =====
-- What the parts of `frame` that ask for holds do to their number.
use qlsm_extra.Base.{
  ℕ, ◌+◌, ◌≤◌, ◌≡◌, refl, Bool, Bool-cases, Option, none, some, List, [], ◌∷◌, arith, if◌then◌else◌,
  inl, inr,
}
use qlsm_extra.Base.Dict.{Dict, lookup, contains, Distinct}
use qlsm_extra.ResyncHold.{
  Slot, Hold, Why, Client, has_target, ask, set_slot, clear_flag, clear_flags, looks_due,
  ask_keyframe, ask_keyframes, note_flag, note_flags, drop_waits, forget_waits,
}
use qlsm_extra.ResyncHold.Count.{
  held, held_at, holds, Quiet, AllQuiet, AllQuiet-lookup, Keeps, Keeps-trans, set-Keeps,
}
use qlsm_extra.ResyncHold.Balance.{Sound, Keeps-refl, ask-Quiet, ask-held}

-- A slot is set to one that has a hold only where it had one.
abbrev Like : Option Slot → Slot → Type 0
Like o st = Quiet st × (held_at o ≡ held st)

set_slot-Keeps :
    (slot : ℕ) (st : Slot) (h : Hold)
    → Sound h
    → Like (lookup slot h.slots) st
    → Keeps h (set_slot slot st h)
set_slot-Keeps slot st h s l =
    set-Keeps slot st h.counts h s l.0 refl (ground (arith, l.1)) (ground arith)

clear_flag-Keeps :
    (now : ℕ) (client : Option Client) (slot : ℕ) (h : Hold)
    → Sound h
    → Keeps h (clear_flag now client slot h)
unfolding clear_flag
clear_flag-Keeps now client slot h s = from client (lookup slot h.slots) refl
  where
    from :
        (client : Option Client) (o : Option Slot)
        → lookup slot h.slots ≡ o
        → Keeps h (clear_flag now client slot h)
    from client none e = rw (clear_flag, e) (Keeps-refl h s)
    from none (some st) e =
        rw (clear_flag, e)
          (set_slot-Keeps slot (record st { last_full = some now }) h s
            (AllQuiet-lookup slot st h.slots s.quiet e, ground (arith, e)))
    from (some c) (some st) e =
        let q = AllQuiet-lookup slot st h.slots s.quiet e in
        let full = record st { last_full = some now } in
        elim (Bool-cases (has_target st.target)) [
          | inl t ↦
              rw (clear_flag, e, t)
                (set-Keeps slot (record full { target = some c.outgoing_sequence })
                  (record h.counts { retargeted = h.counts.retargeted + 1 }) h s
                  (ground (arith, t, q)) refl (ground (arith, e, t)) (ground arith))
          | inr t ↦
              rw (clear_flag, e, t)
                (set_slot-Keeps slot (ask h.frame_no Why.flag full) h s (
                  ask-Quiet h.frame_no Why.flag full q,
                  ground (arith, e, ask-held h.frame_no Why.flag full),
                ))
        ]

pub clear_flags-Keeps :
    (now : ℕ) (clients : Dict Client) (slots : List ℕ) (h : Hold)
    → Sound h
    → Keeps h (clear_flags now clients slots h)
unfolding clear_flags
clear_flags-Keeps now clients [] h s = Keeps-refl h s
clear_flags-Keeps now clients (slot ∷ slots) h s =
    let on = clear_flag now (lookup slot clients) slot h in
    let k = clear_flag-Keeps now (lookup slot clients) slot h s in
    Keeps-trans h on (clear_flags now clients slots on) k
      (clear_flags-Keeps now clients slots on k.0)

ask_keyframe-Keeps : (now sec slot : ℕ) (h : Hold) → Sound h → Keeps h (ask_keyframe now sec slot h)
unfolding ask_keyframe
ask_keyframe-Keeps now sec slot h s = from (lookup slot h.slots) refl
  where
    from : (o : Option Slot) → lookup slot h.slots ≡ o → Keeps h (ask_keyframe now sec slot h)
    from none e = rw (ask_keyframe, e) (Keeps-refl h s)
    from (some st) e =
        let why = if looks_due now sec st.last_full then Why.counter else Why.guessed in
        rw (ask_keyframe, e)
          (set_slot-Keeps slot (record (ask h.frame_no why st) { last_full = some now }) h s
            (
              ask-Quiet h.frame_no why st (AllQuiet-lookup slot st h.slots s.quiet e),
              ground (arith, e, ask-held h.frame_no why st),
            ))

pub ask_keyframes-Keeps :
    (now sec : ℕ) (slots : List ℕ) (h : Hold) → Sound h → Keeps h (ask_keyframes now sec slots h)
unfolding ask_keyframes
ask_keyframes-Keeps now sec [] h s = Keeps-refl h s
ask_keyframes-Keeps now sec (slot ∷ slots) h s =
    let k = ask_keyframe-Keeps now sec slot h s in
    Keeps-trans h (ask_keyframe now sec slot h)
      (ask_keyframes now sec slots (ask_keyframe now sec slot h)) k
      (ask_keyframes-Keeps now sec slots (ask_keyframe now sec slot h) k.0)

note_flag-Keeps :
    (slot : ℕ) (resyncing : Bool) (h : Hold) → Sound h → Keeps h (note_flag slot resyncing h)
unfolding note_flag
note_flag-Keeps slot resyncing h s = from (lookup slot h.slots) refl
  where
    from : (o : Option Slot) → lookup slot h.slots ≡ o → Keeps h (note_flag slot resyncing h)
    from none e = rw (note_flag, e) (Keeps-refl h s)
    from (some st) e =
        rw (note_flag, e)
          (set_slot-Keeps slot (record st { resyncing = resyncing }) h s
            (AllQuiet-lookup slot st h.slots s.quiet e, ground (arith, e)))

pub note_flags-Keeps :
    (current : Dict (ℕ × Bool)) (h : Hold) → Sound h → Keeps h (note_flags current h)
unfolding note_flags
note_flags-Keeps [] h s = Keeps-refl h s
note_flags-Keeps ((slot, (gen, resyncing)) ∷ current) h s =
    let k = note_flag-Keeps slot resyncing h s in
    Keeps-trans h (note_flag slot resyncing h) (note_flags current (note_flag slot resyncing h)) k
      (note_flags-Keeps current (note_flag slot resyncing h) k.0)

drop_waits-holds :
    (n : ℕ) (behind : Bool) (d : Dict Slot) → holds (drop_waits n behind d).0 ≡ holds d
unfolding drop_waits holds
drop_waits-holds n behind [] = refl
drop_waits-holds n behind (e ∷ d) = ground (arith, drop_waits-holds n behind d)

drop_waits-contains :
    (n j : ℕ) (behind : Bool) (d : Dict Slot) → contains j (drop_waits n behind d).0 ≡ contains j d
unfolding drop_waits
drop_waits-contains n j behind [] = refl
drop_waits-contains n j behind (e ∷ d) = ground (arith, drop_waits-contains n j behind d)

drop_waits-Distinct :
    (n : ℕ) (behind : Bool) (d : Dict Slot) → Distinct d → Distinct (drop_waits n behind d).0
unfolding drop_waits
drop_waits-Distinct n behind [] q = tt
drop_waits-Distinct n behind (e ∷ d) q =
    ground (arith, drop_waits-Distinct n behind d q.1, drop_waits-contains n e.0 behind d)

drop_waits-AllQuiet :
    (n : ℕ) (behind : Bool) (d : Dict Slot) → AllQuiet d → AllQuiet (drop_waits n behind d).0
unfolding drop_waits
drop_waits-AllQuiet n behind [] q = tt
drop_waits-AllQuiet n behind (e ∷ d) q = ground (arith, drop_waits-AllQuiet n behind d q.1)

drop_waits-held :
    (n j : ℕ) (behind : Bool) (d : Dict Slot)
    → held_at (lookup j (drop_waits n behind d).0) ≤ held_at (lookup j d)
unfolding drop_waits
drop_waits-held n j behind [] = ground arith
drop_waits-held n j behind (e ∷ d) = ground (arith, drop_waits-held n j behind d)

pub forget_waits-Keeps : (h : Hold) → Sound h → Keeps h (forget_waits h)
forget_waits-Keeps h s =
    let e = drop_waits-holds h.frame_no h.watch.behind h.slots in
    (
      record {
        distinct = drop_waits-Distinct h.frame_no h.watch.behind h.slots s.distinct;
        quiet = drop_waits-AllQuiet h.frame_no h.watch.behind h.slots s.quiet;
        balance = omega (arith, e, s.balance);
      },
      omega (arith, e),
      λ j. drop_waits-held h.frame_no j h.watch.behind h.slots,
    )
