-- ===== src/ResyncHold/Starts.antt =====
-- The queue of the slots that wait, and the start of their holds.
use qlsm_extra.Base.{
  ℕ, ◌+◌, ◌≤◌, ◌<◌, ◌≡◌, refl, true, false, not, ◌&&◌, Bool-cases, Option, none, some, List, [],
  ◌∷◌, arith, ltb, leb, ◌==◌, if◌then◌else◌, inl, inr, max, ◌∙◌,
}
use qlsm_extra.Base.Dict.{Dict, lookup, contains, Distinct, lookup-insert}
use qlsm_extra.ResyncHold.{Slot, Client, is_flag, mem}
use qlsm_extra.ResyncHold.Frame.{
  Round, sooner, wants, insert_by_turn, queue_of, start_hold, try_start, start_holds, force,
}
use qlsm_extra.ResyncHold.Count.{holds, holds-insert, AllQuiet-lookup, insert-IsSound}
use qlsm_extra.ResyncHold.Balance.{Sound}
use qlsm_extra.ResyncHold.Young.{young}

mem-insert_by_turn :
    (slots : Dict Slot) (i j : ℕ) (queue : List ℕ)
    → mem j (insert_by_turn slots i queue) ≡ (if j == i then true else mem j queue)
unfolding insert_by_turn
mem-insert_by_turn slots i j [] = refl
mem-insert_by_turn slots i j (k ∷ queue) =
    elim (Bool-cases (sooner (lookup i slots) i (lookup k slots) k)) [
      | inl e ↦ rw e refl
      | inr e ↦ rw e (ground (arith, mem-insert_by_turn slots i j queue))
    ]

-- Every slot of a queue waits, and none stands twice.
abbrev pub Waiting : Dict Slot → List ℕ → Type 0
Waiting d [] = Unit
Waiting d (slot ∷ queue) =
    (wants (lookup slot d) ≡ true) × (mem slot queue ≡ false) × Waiting d queue

Waiting-insert_by_turn :
    (d : Dict Slot) (i : ℕ) (queue : List ℕ)
    → wants (lookup i d) ≡ true
    → mem i queue ≡ false
    → Waiting d queue
    → Waiting d (insert_by_turn d i queue)
unfolding insert_by_turn
Waiting-insert_by_turn d i [] w m q = (w, refl, tt)
Waiting-insert_by_turn d i (k ∷ queue) w m q =
    elim (Bool-cases (sooner (lookup i d) i (lookup k d) k)) [
      | inl e ↦ rw e (w, m, q)
      | inr e ↦ rw e (
        q.0,
        ground (arith, m, q.1, mem-insert_by_turn d i k queue),
        Waiting-insert_by_turn d i queue w (ground (arith, m)) q.2,
      )
    ]

mem-queue_of :
    (d : Dict Slot) (clients : Dict Client) (j : ℕ)
    → contains j clients ≡ false
    → mem j (queue_of d clients) ≡ false
unfolding queue_of
mem-queue_of d [] j e = refl
mem-queue_of d ((slot, c) ∷ clients) j e =
    ground (arith, e, mem-queue_of d clients j, mem-insert_by_turn d slot j (queue_of d clients))

pub queue_of-Waiting :
    (d : Dict Slot) (clients : Dict Client) → Distinct clients → Waiting d (queue_of d clients)
unfolding queue_of
queue_of-Waiting d [] q = tt
queue_of-Waiting d ((slot, c) ∷ clients) q = elim (Bool-cases (wants (lookup slot d))) [
  | inl e ↦ rw e (
      Waiting-insert_by_turn d slot (queue_of d clients) e (mem-queue_of d clients slot q.0)
        (queue_of-Waiting d clients q.1))
  | inr e ↦ rw e (queue_of-Waiting d clients q.1)
]

Waiting-others :
    (slot : ℕ) (d e : Dict Slot) (queue : List ℕ)
    → mem slot queue ≡ false
    → ((j : ℕ) → lookup j e ≡ (if j == slot then lookup slot e else lookup j d))
    → Waiting d queue
    → Waiting e queue
Waiting-others slot d e [] m o q = tt
Waiting-others slot d e (k ∷ queue) m o q =
    (ground (arith, m, o k, q.0), q.1, Waiting-others slot d e queue (ground (arith, m)) o q.2)

-- What the start of holds changes.
pub record Started (per_frame max_frames : ℕ) (r s : Round) : Type 0 where
  pub sound : Sound s.hold
  pub counted : holds s.hold.slots + r.running ≡ holds r.hold.slots + s.running
  pub budget : s.running ≤ max per_frame r.running
  pub watch : s.hold.watch ≡ r.hold.watch
  pub frame_no : s.hold.frame_no ≡ r.hold.frame_no
  pub stays_young :
      (j : ℕ)
      → young r.hold.frame_no max_frames (lookup j r.hold.slots) ≡ true
      → young r.hold.frame_no max_frames (lookup j s.hold.slots) ≡ true

Started-refl : (p m : ℕ) (r : Round) → Sound r.hold → Started p m r r
Started-refl p m r s = record {
  sound = s;
  counted = refl;
  budget = ground arith;
  watch = refl;
  frame_no = refl;
  stays_young = λ j y. y;
}

start_hold-Started :
    (now slot p m : ℕ) (st : Slot) (c : Client) (r : Round)
    → Sound r.hold
    → lookup slot r.hold.slots ≡ some st
    → st.want ≡ true
    → 1 ≤ m
    → r.running < p
    → Started p m r (start_hold now slot st c r)
unfolding start_hold
start_hold-Started now slot p m st c r s e w o b =
    let begun = record st {
      want = false;
      target = some c.outgoing_sequence;
      start_seq = c.outgoing_sequence;
      start_frame = r.hold.frame_no;
    } in
    let on = force now c begun in
    let q = AllQuiet-lookup slot st r.hold.slots s.quiet e in
    record {
      sound =
          insert-IsSound slot on r.hold.counts (start_hold now slot st c r).hold.counts r.hold.slots
            s (ground arith) (ground (arith, e, q, w));
      counted = ground (arith, e, q, w, holds-insert slot on r.hold.slots);
      budget = omega (arith, b);
      watch = refl;
      frame_no = refl;
      stays_young = λ j y. ground (arith, y, o, lookup-insert j slot on r.hold.slots);
    }

-- The slots other than `slot` are left alone.
abbrev Apart : ℕ → Round → Round → Type 0
Apart slot r s =
    (j : ℕ)
    → lookup j s.hold.slots
      ≡ (if j == slot then lookup slot s.hold.slots else lookup j r.hold.slots)

try_start-Started :
    (now slot p m : ℕ) (c : Option Client) (r : Round)
    → Sound r.hold
    → wants (lookup slot r.hold.slots) ≡ true
    → 1 ≤ m
    → r.running < p
    → Started p m r (try_start now slot c r)
unfolding try_start
try_start-Started now slot p m none r s w o b = Started-refl p m r s
try_start-Started now slot p m (some c) r s w o b = from (lookup slot r.hold.slots) refl
  where
    from :
        (o : Option Slot)
        → lookup slot r.hold.slots ≡ o
        → Started p m r (try_start now slot (some c) r)
    from none e = rw (try_start, e) (Started-refl p m r s)
    from (some st) e =
        elim (Bool-cases (not (is_flag st.why) && ltb r.hold.frame_no st.cooldown_until)) [
          | inl f ↦ rw (try_start, e, f) (Started-refl p m r s)
          | inr f ↦
              rw (try_start, e, f)
                (start_hold-Started now slot p m st c r s e (ground (arith, e, w)) o b)
        ]

try_start-Apart :
    (now slot : ℕ) (c : Option Client) (r : Round) → Apart slot r (try_start now slot c r)
unfolding try_start start_hold
try_start-Apart now slot none r j = ground arith
try_start-Apart now slot (some c) r j = from (lookup slot r.hold.slots) refl
  where
    from :
        (o : Option Slot)
        → lookup slot r.hold.slots ≡ o
        → lookup j (try_start now slot (some c) r).hold.slots ≡ (
            if j == slot
            then lookup slot (try_start now slot (some c) r).hold.slots
            else lookup j r.hold.slots)
    from none e = rw (try_start, e) (ground arith)
    from (some st) e =
        elim (Bool-cases (not (is_flag st.why) && ltb r.hold.frame_no st.cooldown_until)) [
          | inl f ↦ rw (try_start, e, f) (ground arith)
          | inr f ↦
              let on =
                (force now c (record st {
                  want = false;
                  target = some c.outgoing_sequence;
                  start_seq = c.outgoing_sequence;
                  start_frame = r.hold.frame_no;
                })) in
              rw (try_start, e, f)
                (ground (
                  arith,
                  lookup-insert j slot on r.hold.slots,
                  lookup-insert slot slot on r.hold.slots,
                ))
        ]

pub start_holds-Started :
    (now p m : ℕ) (clients : Dict Client) (queue : List ℕ) (r : Round)
    → Sound r.hold
    → Waiting r.hold.slots queue
    → 1 ≤ m
    → Started p m r (start_holds now p clients queue r)
unfolding start_holds
start_holds-Started now p m clients [] r s q o = Started-refl p m r s
start_holds-Started now p m clients (slot ∷ queue) r s q o = elim (Bool-cases (leb p r.running)) [
  | inl e ↦ rw e (Started-refl p m r s)
  | inr e ↦
      let on = try_start now slot (lookup slot clients) r in
      let a = try_start-Started now slot p m (lookup slot clients) r s q.0 o (ground (arith, e)) in
      let l =
        start_holds-Started now p m clients queue on a.sound
          (Waiting-others slot r.hold.slots on.hold.slots queue q.1
            (try_start-Apart now slot (lookup slot clients) r) q.2)
          o in
      rw e (record {
        sound = l.sound;
        counted = omega (arith, a.counted, l.counted);
        budget = ground (arith, a.budget, l.budget);
        watch = l.watch ∙ a.watch;
        frame_no = l.frame_no ∙ a.frame_no;
        stays_young = λ j y. ground (arith, a.frame_no, a.stays_young j y, l.stays_young j);
      })
]
