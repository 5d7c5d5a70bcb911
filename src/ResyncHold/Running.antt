-- ===== src/ResyncHold/Running.antt =====
-- The loop over the running holds: `running` is the number of holds that it leaves.
use qlsm_extra.Base.{
  ℕ, ◌+◌, ◌-◌, ◌≡◌, refl, true, Option, none, some, List, arith, ◌==◌, if◌then◌else◌,
}
use qlsm_extra.Base.Dict.{lookup, insert, lookup-insert}
use qlsm_extra.ResyncHold.{Slot, Counts, Client, has_target, cancel, end_slot, end_counts}
use qlsm_extra.ResyncHold.Frame.{Round, Verdict, verdict, force, apply_verdict, run_hold}
use qlsm_extra.ResyncHold.Count.{
  held, held_at, holds, holds-insert, Keeps, set-Keeps, AllQuiet-lookup,
}
use qlsm_extra.ResyncHold.Balance.{Sound, Keeps-refl}

abbrev pub held_in : ℕ → Round → ℕ
held_in j r = held_at (lookup j r.hold.slots)

-- What a verdict on a running hold changes.
pub record Applied (slot : ℕ) (r : Round) (s : Round) : Type 0 where
  pub keeps : Keeps r.hold s.hold
  pub counted : holds s.hold.slots + (r.running + held_in slot r) ≡ holds r.hold.slots + s.running
  pub watch : s.hold.watch ≡ r.hold.watch
  pub frame_no : s.hold.frame_no ≡ r.hold.frame_no
  pub others :
      (j : ℕ)
      → lookup j s.hold.slots
        ≡ (if j == slot then lookup slot s.hold.slots else lookup j r.hold.slots)

Applied-refl : (slot : ℕ) (r : Round) → Sound r.hold → held_in slot r ≡ 0 → Applied slot r r
Applied-refl slot r s e = record {
  keeps = Keeps-refl r.hold s;
  counted = omega (arith, e);
  watch = refl;
  frame_no = refl;
  others = λ j. ground arith;
}

-- The slot is set, with other counters; `n` holds go on.
set-Applied :
    (slot : ℕ) (st : Slot) (c : Counts) (n : ℕ) (forced : List ℕ) (r : Round)
    → Keeps r.hold (record r.hold { slots = insert slot st r.hold.slots; counts = c })
    → n ≡ r.running + held st
    → Applied slot r (record {
      hold = record r.hold { slots = insert slot st r.hold.slots; counts = c };
      running = n;
      forced = forced;
    })
set-Applied slot st c n forced r k e = record {
  keeps = k;
  counted = omega (arith, e, holds-insert slot st r.hold.slots);
  watch = refl;
  frame_no = refl;
  others = λ j.
      ground (arith, lookup-insert j slot st r.hold.slots, lookup-insert slot slot st r.hold.slots);
}

apply_verdict-Applied :
    (now slot : ℕ) (st : Slot) (c : Client) (v : Verdict) (r : Round)
    → Sound r.hold
    → lookup slot r.hold.slots ≡ some st
    → has_target st.target ≡ true
    → Applied slot r (apply_verdict now slot st c v r)
unfolding apply_verdict end_slot end_counts
apply_verdict-Applied now slot st c Verdict.behind_relay r s e t =
    let sent = c.outgoing_sequence - st.start_seq in
    let counts = end_counts slot sent (cancel r.hold.counts) in
    set-Applied slot (end_slot r.hold.frame_no st) counts r.running r.forced r
      (set-Keeps slot (end_slot r.hold.frame_no st) counts r.hold s (ground arith) refl
        (ground (arith, e, t)) (ground arith))
      (ground arith)
apply_verdict-Applied now slot st c Verdict.acknowledged r s e t =
    let sent = c.outgoing_sequence - st.start_seq in
    let counts = end_counts slot sent (record r.hold.counts { acked = r.hold.counts.acked + 1 }) in
    set-Applied slot (end_slot r.hold.frame_no st) counts r.running r.forced r
      (set-Keeps slot (end_slot r.hold.frame_no st) counts r.hold s (ground arith) refl
        (ground (arith, e, t)) (ground arith))
      (ground arith)
apply_verdict-Applied now slot st c Verdict.cap_reached r s e t =
    let sent = c.outgoing_sequence - st.start_seq in
    let counts =
      end_counts slot sent (record r.hold.counts { capped = r.hold.counts.capped + 1 }) in
    set-Applied slot (end_slot r.hold.frame_no st) counts r.running r.forced r
      (set-Keeps slot (end_slot r.hold.frame_no st) counts r.hold s (ground arith) refl
        (ground (arith, e, t)) (ground arith))
      (ground arith)
apply_verdict-Applied now slot st c Verdict.goes_on r s e t =
    let q = AllQuiet-lookup slot st r.hold.slots s.quiet e in
    set-Applied slot (force now c st) r.hold.counts (r.running + 1)
      (apply_verdict now slot st c Verdict.goes_on r).forced r
      (set-Keeps slot (force now c st) r.hold.counts r.hold s (ground (arith, q)) refl
        (ground (arith, e, t)) (ground arith))
      (ground (arith, t))

pub run_hold-Applied :
    (now max_frames slot : ℕ) (c : Client) (r : Round)
    → Sound r.hold
    → Applied slot r (run_hold now max_frames slot c r)
unfolding run_hold
run_hold-Applied now max_frames slot c r s = from (lookup slot r.hold.slots) refl
  where
    target_of :
        (st : Slot) (o : Option ℕ)
        → lookup slot r.hold.slots ≡ some st
        → st.target ≡ o
        → Applied slot r (run_hold now max_frames slot c r)
    target_of st none e f = rw (run_hold, e, f) (Applied-refl slot r s (ground (arith, e, f)))
    target_of st (some target) e f =
        rw (run_hold, e, f)
          (apply_verdict-Applied now slot st c
            (verdict r.hold.frame_no max_frames r.hold.watch.behind target st c) r s e
            (ground (arith, f)))

    from :
        (o : Option Slot)
        → lookup slot r.hold.slots ≡ o
        → Applied slot r (run_hold now max_frames slot c r)
    from none e = rw (run_hold, e) (Applied-refl slot r s (ground (arith, e)))
    from (some st) e = target_of st st.target e refl
