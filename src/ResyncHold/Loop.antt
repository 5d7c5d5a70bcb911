-- ===== src/ResyncHold/Loop.antt =====
-- The loop over the running holds, all rounds of it.
use qlsm_extra.Base.{ℕ, ◌+◌, ◌≤◌, ◌≡◌, refl, false, [], ◌∷◌, arith, ◌==◌, if◌then◌else◌, ◌∙◌}
use qlsm_extra.Base.Dict.{Dict, lookup, contains, Distinct, lookup_missing}
use qlsm_extra.ResyncHold.{Slot, Client}
use qlsm_extra.ResyncHold.Frame.{Round, run_hold, run_holds}
use qlsm_extra.ResyncHold.Count.{held, held_at, holds, Keeps, Keeps-trans}
use qlsm_extra.ResyncHold.Balance.{Sound, Keeps-refl}
use qlsm_extra.ResyncHold.Covered.{one}
use qlsm_extra.ResyncHold.Running.{run_hold-Applied}

-- The holds of the slots that have a client.
abbrev pub held_among : Dict Client → Dict Slot → ℕ
held_among [] d = 0
held_among ((slot, c) ∷ clients) d = held_at (lookup slot d) + held_among clients d

held_among_apart :
    (slot : ℕ) (clients : Dict Client) (d e : Dict Slot)
    → contains slot clients ≡ false
    → ((j : ℕ) → lookup j e ≡ (if j == slot then lookup slot e else lookup j d))
    → held_among clients e ≡ held_among clients d
held_among_apart slot [] d e q o = refl
held_among_apart slot ((k, c) ∷ clients) d e q o =
    ground (arith, o k, held_among_apart slot clients d e)

held_among_cons :
    (slot : ℕ) (st : Slot) (clients : Dict Client) (d : Dict Slot)
    → Distinct clients
    → contains slot d ≡ false
    → held_among clients ((slot, st) ∷ d)
      ≡ (if contains slot clients then held st else 0) + held_among clients d
held_among_cons slot st [] d q o = refl
held_among_cons slot st ((k, c) ∷ clients) d q o =
    ground (arith, held_among_cons slot st clients d q.1 o, lookup_missing k d)

-- Where every hold has a client, the two numbers are one.
pub holds_among :
    (clients : Dict Client) (d : Dict Slot)
    → Distinct clients
    → Distinct d
    → ((j : ℕ) → held_at (lookup j d) ≤ one (contains j clients))
    → held_among clients d ≡ holds d
unfolding holds
holds_among [] [] q r o = refl
holds_among (e ∷ clients) [] q r o =
    ground (arith, holds_among clients [] q.1 r (λ j. ground arith))
holds_among clients ((slot, st) ∷ d) q r o = ground (
  arith,
  held_among_cons slot st clients d q r.0,
  o slot,
  holds_among clients d q r.1 (λ j. ground (arith, o j, lookup_missing slot d, r.0)),
)

-- What the loop does.
pub record Looped (clients : Dict Client) (r s : Round) : Type 0 where
  pub keeps : Keeps r.hold s.hold
  pub counted :
      holds s.hold.slots + (r.running + held_among clients r.hold.slots)
      ≡ holds r.hold.slots + s.running
  pub watch : s.hold.watch ≡ r.hold.watch
  pub frame_no : s.hold.frame_no ≡ r.hold.frame_no
  pub others : (j : ℕ) → contains j clients ≡ false → lookup j s.hold.slots ≡ lookup j r.hold.slots

pub run_holds-Looped :
    (now max_frames : ℕ) (clients : Dict Client) (r : Round)
    → Distinct clients
    → Sound r.hold
    → Looped clients r (run_holds now max_frames clients r)
unfolding run_holds
run_holds-Looped now max_frames [] r q s = record {
  keeps = Keeps-refl r.hold s;
  counted = ground arith;
  watch = refl;
  frame_no = refl;
  others = λ j e. refl;
}
run_holds-Looped now max_frames ((slot, c) ∷ clients) r q s =
    let on = run_hold now max_frames slot c r in
    let a = run_hold-Applied now max_frames slot c r s in
    let l = run_holds-Looped now max_frames clients on q.1 a.keeps.0 in
    record {
      keeps = Keeps-trans r.hold on.hold (run_holds now max_frames clients on).hold a.keeps l.keeps;
      counted = ground (
        arith,
        a.counted,
        l.counted,
        held_among_apart slot clients r.hold.slots on.hold.slots q.0 a.others,
      );
      watch = l.watch ∙ a.watch;
      frame_no = l.frame_no ∙ a.frame_no;
      others = λ j e. ground (arith, l.others j, a.others j);
    }
