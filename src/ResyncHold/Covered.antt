-- ===== src/ResyncHold/Covered.antt =====
-- A hold that is left when the loop over the running holds begins belongs to a slot with a client.
use qlsm_extra.Base.{
  ℕ, ◌≤◌, ◌≡◌, refl, Bool, false, not, ◌&&◌, ◌||◌, Bool-cases, Option, none, some, List, [], ◌∷◌,
  arith, ◌==◌, if◌then◌else◌, is_some, inl, inr,
}
use qlsm_extra.Base.Dict.{
  Dict, lookup, contains, insert, Distinct, keys, lookup-insert, lookup-erase, lookup_missing,
  insert-Distinct,
}
use qlsm_extra.ResyncHold.{
  Slot, Hold, Client, SlotStatus, has_target, drop_slot, end_slot, check_slot, drop_stale,
  current_from, lose_client, keep_client, visit, visit_all, usable, seen_slot, add_client,
  clients_from, mem,
}
use qlsm_extra.ResyncHold.Count.{held_at}
use qlsm_extra.ResyncHold.Balance.{Sound, check_slot-Keeps}

abbrev pub one : Bool → ℕ
one b = if b then 1 else 0

contains-add_client :
    (slot j : ℕ) (o : Option Client) (d : Dict Client)
    → contains j (add_client slot o d)
      ≡ (if j == slot then is_some o || contains j d else contains j d)
contains-add_client slot j none d = ground arith
contains-add_client slot j (some c) d = ground arith

pub contains-clients_from :
    (connected : Bool) (client_of : ℕ → Option Client) (current : Dict (ℕ × Bool)) (j : ℕ)
    → contains j (clients_from connected client_of current)
      ≡ (contains j current && is_some (usable connected (client_of j)))
unfolding clients_from
contains-clients_from connected client_of [] j = refl
contains-clients_from connected client_of ((slot, (gen, resyncing)) ∷ current) j = ground (
  arith,
  contains-clients_from connected client_of current j,
  contains-add_client slot j (usable connected (client_of slot))
      (clients_from connected client_of current),
)

add_client-Distinct :
    (slot : ℕ) (o : Option Client) (d : Dict Client)
    → contains slot d ≡ false
    → Distinct d
    → Distinct (add_client slot o d)
add_client-Distinct slot none d e q = q
add_client-Distinct slot (some c) d e q = (e, q)

pub clients_from-Distinct :
    (connected : Bool) (client_of : ℕ → Option Client) (current : Dict (ℕ × Bool))
    → Distinct current
    → Distinct (clients_from connected client_of current)
unfolding clients_from
clients_from-Distinct connected client_of [] d = tt
clients_from-Distinct connected client_of ((slot, (gen, resyncing)) ∷ current) d =
    add_client-Distinct slot (usable connected (client_of slot))
      (clients_from connected client_of current)
      (ground (arith, d.0, contains-clients_from connected client_of current slot))
      (clients_from-Distinct connected client_of current d.1)

pub current_from-Distinct :
    (slots : List SlotStatus) (d : Dict (ℕ × Bool)) → Distinct d → Distinct (current_from slots d)
unfolding current_from
current_from-Distinct [] d q = q
current_from-Distinct (s ∷ slots) d q =
    current_from-Distinct slots (if s.active then insert s.slot (s.gen, s.resyncing) d else d)
      (ground (arith, q, insert-Distinct s.slot (s.gen, s.resyncing) d q))

-- After the round for a slot, its hold is left only where the slot is active.
check_slot-held :
    (current : Dict (ℕ × Bool)) (slot j : ℕ) (h : Hold)
    → Sound h
    → held_at (lookup j (check_slot current slot h).slots)
      ≤ (if j == slot then one (contains slot current) else held_at (lookup j h.slots))
unfolding check_slot drop_slot
check_slot-held current slot j h s = from (lookup slot h.slots) (lookup slot current) refl refl
  where
    from :
        (o : Option Slot) (now : Option (ℕ × Bool))
        → lookup slot h.slots ≡ o
        → lookup slot current ≡ now
        → held_at (lookup j (check_slot current slot h).slots)
          ≤ (if j == slot then one (contains slot current) else held_at (lookup j h.slots))
    from none now e f = ground (arith, e, f)
    from (some st) none e f =
        rw (check_slot, drop_slot, e, f)
          (ground (arith, e, f, lookup-erase h.slots j slot s.distinct))
    from (some st) (some now) e f = ground (
      arith,
      e,
      f,
      check_slot-Keeps current slot h s,
      lookup-erase h.slots j slot s.distinct,
      lookup_missing slot current,
    )

drop_stale-held :
    (current : Dict (ℕ × Bool)) (slots : List ℕ) (j : ℕ) (h : Hold)
    → Sound h
    → held_at (lookup j (drop_stale current slots h).slots)
      ≤ (if mem j slots then one (contains j current) else held_at (lookup j h.slots))
unfolding drop_stale
drop_stale-held current [] j h s = ground arith
drop_stale-held current (slot ∷ slots) j h s = ground (
  arith,
  drop_stale-held current slots j (check_slot current slot h) (check_slot-Keeps current slot h s).0,
  check_slot-held current slot j h s,
)

mem-keys : (j : ℕ) (d : Dict Slot) → mem j (keys d) ≡ contains j d
mem-keys j [] = refl
mem-keys j (e ∷ d) = ground (arith, mem-keys j d)

-- After the stale slots are dropped, only active slots have a hold.
pub drop_stale-active :
    (current : Dict (ℕ × Bool)) (j : ℕ) (h : Hold)
    → Sound h
    → held_at (lookup j (drop_stale current (keys h.slots) h).slots) ≤ one (contains j current)
drop_stale-active current j h s = ground (
  arith,
  drop_stale-held current (keys h.slots) j h s,
  mem-keys j h.slots,
  lookup_missing j h.slots,
)

-- A round of the loop over the active slots leaves a hold only where there is a client.
visit-held :
    (connected : Bool) (now slot gen j : ℕ) (client : Option Client) (h : Hold)
    → held_at (lookup j (visit connected now slot gen client h).slots)
      ≤ (if j == slot then one (is_some (usable connected client)) else held_at (lookup j h.slots))
unfolding visit lose_client keep_client end_slot
visit-held connected now slot gen j client h = from (usable connected client) refl
  where
    from :
        (o : Option Client)
        → usable connected client ≡ o
        → held_at (lookup j (visit connected now slot gen client h).slots) ≤ (
            if j == slot
            then one (is_some (usable connected client))
            else held_at (lookup j h.slots))
    from none e =
        let st = seen_slot now slot gen h in
        elim (Bool-cases (has_target st.target)) [
          | inl t ↦
              rw (visit, lose_client, e, t)
                (ground (
                  arith,
                  t,
                  e,
                  lookup-insert j slot (record (end_slot h.frame_no st) { want = false }) h.slots,
                ))
          | inr t ↦
              rw (visit, lose_client, e, t)
                (ground (arith, t, e, lookup-insert j slot (record st { want = false }) h.slots))
        ]
    from (some c) e =
        let st = seen_slot now slot gen h in
        rw (visit, e)
          (ground (
            arith,
            e,
            lookup-insert j slot
                (if not (has_target st.target) && c.asks_full
                  then record st { last_full = some now }
                  else st)
                h.slots,
          ))

pub visit_all-held :
    (connected : Bool) (now : ℕ) (client_of : ℕ → Option Client) (current : Dict (ℕ × Bool)) (j : ℕ)
    (h : Hold)
    → held_at (lookup j (visit_all connected now client_of current h).slots) ≤ (
        if contains j current
        then one (is_some (usable connected (client_of j)))
        else held_at (lookup j h.slots))
unfolding visit_all
visit_all-held connected now client_of [] j h = ground arith
visit_all-held connected now client_of ((slot, (gen, resyncing)) ∷ current) j h = ground (
  arith,
  visit_all-held connected now client_of current j
      (visit connected now slot gen (client_of slot) h),
  visit-held connected now slot gen j (client_of slot) h,
)
