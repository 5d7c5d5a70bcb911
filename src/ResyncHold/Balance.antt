-- ===== src/ResyncHold/Balance.antt =====
-- What the parts of `frame` before a hold starts do to the number of holds.
use qlsm_extra.Base.{
  ℕ, ◌≡◌, refl, Bool, false, not, ◌&&◌, Bool-cases, Option, none, some, List, [], ◌∷◌, arith,
  if◌then◌else◌, inl, inr,
}
use qlsm_extra.Base.Dict.{Dict, lookup, keys}
use qlsm_extra.ResyncHold.{
  Slot, Hold, Why, Client, has_target, ask, new_slot, cancel, drop_slot, drop_slots, reset,
  end_slot, end_counts, stale, check_slot, drop_stale, lose_client, keep_client, sent_to, visit,
  visit_all, usable, seen_slot,
}
use qlsm_extra.ResyncHold.Count.{
  held, held_at, Quiet, AllQuiet-lookup, IsSound, Keeps, Keeps-trans, erase-IsSound, set-Keeps,
  holds-erase, erase-Below,
}

abbrev pub Sound : Hold → Type 0
Sound h = IsSound h.counts h.slots

pub Keeps-refl : (h : Hold) → Sound h → Keeps h h
Keeps-refl h s = (s, ground arith, λ j. ground arith)

pub drop_slot-Keeps : (slot : ℕ) (h : Hold) → Sound h → Keeps h (drop_slot slot h)
unfolding drop_slot
drop_slot-Keeps slot h s = from (lookup slot h.slots) refl
  where
    from : (o : Option Slot) → lookup slot h.slots ≡ o → Keeps h (drop_slot slot h)
    from none e = rw (drop_slot, e) (Keeps-refl h s)
    from (some st) e = elim (Bool-cases (has_target st.target)) [
      | inl t ↦
          rw (drop_slot, e, t)
            (
              erase-IsSound slot h.counts (cancel h.counts) h.slots s (ground (arith, e, t)),
              ground (arith, holds-erase slot h.slots),
              erase-Below slot h.slots s.distinct,
            )
      | inr t ↦
          rw (drop_slot, e, t)
            (
              erase-IsSound slot h.counts h.counts h.slots s (ground (arith, e, t)),
              ground (arith, holds-erase slot h.slots),
              erase-Below slot h.slots s.distinct,
            )
    ]

pub drop_slots-Keeps : (slots : List ℕ) (h : Hold) → Sound h → Keeps h (drop_slots slots h)
unfolding drop_slots
drop_slots-Keeps [] h s = Keeps-refl h s
drop_slots-Keeps (slot ∷ slots) h s =
    Keeps-trans h (drop_slot slot h) (drop_slots slots (drop_slot slot h))
      (drop_slot-Keeps slot h s)
      (drop_slots-Keeps slots (drop_slot slot h) (drop_slot-Keeps slot h s).0)

pub reset-Keeps : (h : Hold) → Sound h → Keeps h (reset h)
unfolding reset
reset-Keeps h s = drop_slots-Keeps (keys h.slots) h s

pub ask-Quiet : (n : ℕ) (why : Why) (st : Slot) → Quiet st → Quiet (ask n why st)
unfolding ask
ask-Quiet n why st q = ground arith

pub ask-held : (n : ℕ) (why : Why) (st : Slot) → held (ask n why st) ≡ held st
unfolding ask
ask-held n why st = ground arith

lose_client-Keeps :
    (slot : ℕ) (c : Option Client) (st : Slot) (h : Hold)
    → Sound h
    → held_at (lookup slot h.slots) ≡ held st
    → Keeps h (lose_client slot c st h)
unfolding lose_client end_slot end_counts
lose_client-Keeps slot c st h s e = elim (Bool-cases (has_target st.target)) [
  | inl t ↦ rw t (
      set-Keeps slot (record (end_slot h.frame_no st) { want = false })
        (end_counts slot (sent_to c st.start_seq) (cancel h.counts)) h s refl refl
        (ground (arith, e, t)) (ground arith))
  | inr t ↦ rw t (
      set-Keeps slot (record st { want = false }) h.counts h s refl refl (ground (arith, e, t))
        (ground arith))
]

pub seen-held :
    (now slot gen : ℕ) (h : Hold) → held_at (lookup slot h.slots) ≡ held (seen_slot now slot gen h)
unfolding seen_slot new_slot
seen-held now slot gen h = from (lookup slot h.slots) refl
  where
    from :
        (o : Option Slot)
        → lookup slot h.slots ≡ o
        → held_at (lookup slot h.slots) ≡ held (seen_slot now slot gen h)
    from none e =
        rw (seen_slot, e) (ground (arith, ask-held h.frame_no Why.first_sight (new_slot gen none)))
    from (some st) e = rw (seen_slot, e) refl

seen-Quiet : (now slot gen : ℕ) (h : Hold) → Sound h → Quiet (seen_slot now slot gen h)
unfolding seen_slot new_slot
seen-Quiet now slot gen h s = from (lookup slot h.slots) refl
  where
    from : (o : Option Slot) → lookup slot h.slots ≡ o → Quiet (seen_slot now slot gen h)
    from none e = ground (arith, e, ask-Quiet h.frame_no Why.first_sight (new_slot gen none) refl)
    from (some st) e = ground (arith, e, AllQuiet-lookup slot st h.slots s.quiet e)

keep_client-Keeps :
    (now slot : ℕ) (c : Client) (st : Slot) (h : Hold)
    → Sound h
    → Quiet st
    → held_at (lookup slot h.slots) ≡ held st
    → Keeps h (keep_client now slot c st h)
unfolding keep_client
keep_client-Keeps now slot c st h s q e =
    set-Keeps slot
      (if not (has_target st.target) && c.asks_full then record st { last_full = some now } else st)
      h.counts h s (ground (arith, q)) refl (ground (arith, e)) (ground arith)

pub visit-Keeps :
    (connected : Bool) (now slot gen : ℕ) (client : Option Client) (h : Hold)
    → Sound h
    → Keeps h (visit connected now slot gen client h)
unfolding visit
visit-Keeps connected now slot gen client h s = from (usable connected client) refl
  where
    from :
        (o : Option Client)
        → usable connected client ≡ o
        → Keeps h (visit connected now slot gen client h)
    from none e =
        rw (visit, e)
          (lose_client-Keeps slot client (seen_slot now slot gen h) h s (seen-held now slot gen h))
    from (some c) e =
        rw (visit, e)
          (keep_client-Keeps now slot c (seen_slot now slot gen h) h s (seen-Quiet now slot gen h s)
            (seen-held now slot gen h))

pub visit_all-Keeps :
    (connected : Bool) (now : ℕ) (client_of : ℕ → Option Client) (current : Dict (ℕ × Bool))
    (h : Hold)
    → Sound h
    → Keeps h (visit_all connected now client_of current h)
unfolding visit_all
visit_all-Keeps connected now client_of [] h s = Keeps-refl h s
visit_all-Keeps connected now client_of ((slot, (gen, resyncing)) ∷ current) h s =
    let on = visit connected now slot gen (client_of slot) h in
    let k = visit-Keeps connected now slot gen (client_of slot) h s in
    Keeps-trans h on (visit_all connected now client_of current on) k
      (visit_all-Keeps connected now client_of current on k.0)

pub check_slot-Keeps :
    (current : Dict (ℕ × Bool)) (slot : ℕ) (h : Hold)
    → Sound h
    → Keeps h (check_slot current slot h)
unfolding check_slot
check_slot-Keeps current slot h s =
    elim (Bool-cases (stale (lookup slot current) (lookup slot h.slots))) [
      | inl e ↦ rw (check_slot, e) (drop_slot-Keeps slot h s)
      | inr e ↦ rw (check_slot, e) (Keeps-refl h s)
    ]

pub drop_stale-Keeps :
    (current : Dict (ℕ × Bool)) (slots : List ℕ) (h : Hold)
    → Sound h
    → Keeps h (drop_stale current slots h)
unfolding drop_stale
drop_stale-Keeps current [] h s = Keeps-refl h s
drop_stale-Keeps current (slot ∷ slots) h s =
    let k = check_slot-Keeps current slot h s in
    Keeps-trans h (check_slot current slot h) (drop_stale current slots (check_slot current slot h))
      k (drop_stale-Keeps current slots (check_slot current slot h) k.0)
