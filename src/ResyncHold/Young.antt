-- ===== src/ResyncHold/Young.antt =====
-- No hold is older than its cap allows, and none is left while the relay is behind.
use qlsm_extra.Base.{
  ℕ, ◌+◌, ◌*◌, ◌≡◌, refl, Bool, true, not, ◌||◌, Option, none, some, [], ◌∷◌, arith, ltb, ◌∙◌, ap,
}
use qlsm_extra.Base.Dict.{Dict, lookup, contains, Distinct, lookup-insert}
use qlsm_extra.ResyncHold.{Slot, Client, has_target, end_slot}
use qlsm_extra.ResyncHold.Frame.{
  Round, Verdict, verdict, force, apply_verdict, run_hold, run_holds, stall_factor,
}
use qlsm_extra.ResyncHold.Balance.{Sound}
use qlsm_extra.ResyncHold.Running.{run_hold-Applied}
use qlsm_extra.ResyncHold.Loop.{run_holds-Looped}

-- Whether a slot has no hold, or one that began less than `max_frames * stall_factor` frames ago.
abbrev pub young : ℕ → ℕ → Option Slot → Bool
young frame_no max_frames none = true
young frame_no max_frames (some st) =
    not (has_target st.target) || ltb frame_no (st.start_frame + max_frames * stall_factor)

verdict-young :
    (n m : ℕ) (behind : Bool) (target : ℕ) (st : Slot) (c : Client)
    → verdict n m behind target st c ≡ Verdict.goes_on
    → ltb n (st.start_frame + m * stall_factor) ≡ true
unfolding verdict
verdict-young n m behind target st c e = ground (arith, e)

verdict_behind :
    (n m : ℕ) (target : ℕ) (st : Slot) (c : Client)
    → verdict n m true target st c ≡ Verdict.behind_relay
unfolding verdict
verdict_behind n m target st c = refl

apply_verdict-young :
    (now m slot : ℕ) (st : Slot) (c : Client) (v : Verdict) (r : Round)
    → (v ≡ Verdict.goes_on → ltb r.hold.frame_no (st.start_frame + m * stall_factor) ≡ true)
    → young r.hold.frame_no m (lookup slot (apply_verdict now slot st c v r).hold.slots) ≡ true
unfolding apply_verdict end_slot
apply_verdict-young now m slot st c Verdict.behind_relay r o =
    ground (arith, lookup-insert slot slot (end_slot r.hold.frame_no st) r.hold.slots)
apply_verdict-young now m slot st c Verdict.acknowledged r o =
    ground (arith, lookup-insert slot slot (end_slot r.hold.frame_no st) r.hold.slots)
apply_verdict-young now m slot st c Verdict.cap_reached r o =
    ground (arith, lookup-insert slot slot (end_slot r.hold.frame_no st) r.hold.slots)
apply_verdict-young now m slot st c Verdict.goes_on r o =
    ground (arith, lookup-insert slot slot (force now c st) r.hold.slots, o refl)

run_hold-young :
    (now m slot : ℕ) (c : Client) (r : Round)
    → young r.hold.frame_no m (lookup slot (run_hold now m slot c r).hold.slots) ≡ true
unfolding run_hold
run_hold-young now m slot c r = from (lookup slot r.hold.slots) refl
  where
    target_of :
        (st : Slot) (o : Option ℕ)
        → lookup slot r.hold.slots ≡ some st
        → st.target ≡ o
        → young r.hold.frame_no m (lookup slot (run_hold now m slot c r).hold.slots) ≡ true
    target_of st none e f = rw (run_hold, e, f) (ground (arith, e, f))
    target_of st (some target) e f =
        let v = verdict r.hold.frame_no m r.hold.watch.behind target st c in
        rw (run_hold, e, f)
          (apply_verdict-young now m slot st c v r
            (verdict-young r.hold.frame_no m r.hold.watch.behind target st c))

    from :
        (o : Option Slot)
        → lookup slot r.hold.slots ≡ o
        → young r.hold.frame_no m (lookup slot (run_hold now m slot c r).hold.slots) ≡ true
    from none e = rw (run_hold, e) (ground (arith, e))
    from (some st) e = target_of st st.target e refl

pub run_holds-young :
    (now m : ℕ) (clients : Dict Client) (r : Round)
    → Distinct clients
    → Sound r.hold
    → (j : ℕ) → contains j clients ≡ true
    → young r.hold.frame_no m (lookup j (run_holds now m clients r).hold.slots) ≡ true
unfolding run_holds
run_holds-young now m [] r q s j e = cc
run_holds-young now m ((slot, c) ∷ clients) r q s j e =
    let on = run_hold now m slot c r in
    let a = run_hold-Applied now m slot c r s in
    let l = run_holds-Looped now m clients on q.1 a.keeps.0 in
    ground (
      arith,
      e,
      q.0,
      a.frame_no,
      l.others slot q.0,
      run_hold-young now m slot c r,
      run_holds-young now m clients on q.1 a.keeps.0 j,
    )

run_hold_behind :
    (now m slot : ℕ) (c : Client) (r : Round)
    → r.hold.watch.behind ≡ true
    → (run_hold now m slot c r).running ≡ r.running
unfolding run_hold apply_verdict
run_hold_behind now m slot c r b = from (lookup slot r.hold.slots) refl
  where
    target_of :
        (st : Slot) (o : Option ℕ)
        → lookup slot r.hold.slots ≡ some st
        → st.target ≡ o
        → (run_hold now m slot c r).running ≡ r.running
    target_of st none e f = rw (run_hold, e, f) refl
    target_of st (some target) e f =
        rw (run_hold, e, f, b, verdict_behind r.hold.frame_no m target st c) refl

    from :
        (o : Option Slot)
        → lookup slot r.hold.slots ≡ o
        → (run_hold now m slot c r).running ≡ r.running
    from none e = rw (run_hold, e) refl
    from (some st) e = target_of st st.target e refl

pub run_holds_behind :
    (now m : ℕ) (clients : Dict Client) (r : Round)
    → Sound r.hold
    → r.hold.watch.behind ≡ true
    → (run_holds now m clients r).running ≡ r.running
unfolding run_holds
run_holds_behind now m [] r s b = refl
run_holds_behind now m ((slot, c) ∷ clients) r s b =
    let on = run_hold now m slot c r in
    let a = run_hold-Applied now m slot c r s in
    run_holds_behind now m clients on a.keeps.0 (ap (λ w. w.behind) a.watch ∙ b)
    ∙ run_hold_behind now m slot c r b
