-- ===== src/ResyncHold/Count.antt =====
-- How many holds run, and what an operation on one slot does to their number.
use qlsm_extra.Base.{
  ℕ, ◌+◌, ◌≤◌, ◌≡◌, false, ◌&&◌, Option, none, some, [], ◌∷◌, arith, if◌then◌else◌,
}
use qlsm_extra.Base.Dict.{
  Dict, lookup, insert, erase, Distinct, insert-Distinct, erase-Distinct, lookup-insert,
  lookup-erase,
}
use qlsm_extra.ResyncHold.{Slot, Counts, Hold, has_target}

abbrev pub held : Slot → ℕ
held st = if has_target st.target then 1 else 0

abbrev pub held_at : Option Slot → ℕ
held_at none = 0
held_at (some st) = held st

-- How many slots have a running hold.
unfoldable pub holds : Dict Slot → ℕ
holds [] = 0
holds ((slot, st) ∷ slots) = held st + holds slots

pub holds-insert :
    (slot : ℕ) (st : Slot) (d : Dict Slot)
    → holds (insert slot st d) + held_at (lookup slot d) ≡ holds d + held st
unfolding holds
holds-insert slot st [] = ground arith
holds-insert slot st ((k, old) ∷ d) = ground (arith, holds-insert slot st d)

pub holds-erase :
    (slot : ℕ) (d : Dict Slot) → holds (erase slot d) + held_at (lookup slot d) ≡ holds d
unfolding holds
holds-erase slot [] = ground arith
holds-erase slot ((k, old) ∷ d) = ground (arith, holds-erase slot d)

-- The holds that came to an end.
abbrev pub ended : Counts → ℕ
ended c = c.acked + c.capped + c.cancelled

-- A slot that waits for a hold has none.
abbrev pub Quiet : Slot → Type 0
Quiet st = (st.want && has_target st.target) ≡ false

abbrev pub AllQuiet : Dict Slot → Type 0
AllQuiet [] = Unit
AllQuiet ((slot, st) ∷ d) = Quiet st × AllQuiet d

pub AllQuiet-lookup :
    (slot : ℕ) (st : Slot) (d : Dict Slot) → AllQuiet d → lookup slot d ≡ some st → Quiet st
AllQuiet-lookup slot st [] q e = cc
AllQuiet-lookup slot st ((k, old) ∷ d) q e = ground (arith, AllQuiet-lookup slot st d q.1)

AllQuiet-insert :
    (slot : ℕ) (st : Slot) (d : Dict Slot) → AllQuiet d → Quiet st → AllQuiet (insert slot st d)
AllQuiet-insert slot st [] q s = (s, tt)
AllQuiet-insert slot st ((k, old) ∷ d) q s = ground (arith, AllQuiet-insert slot st d q.1 s)

AllQuiet-erase : (slot : ℕ) (d : Dict Slot) → AllQuiet d → AllQuiet (erase slot d)
AllQuiet-erase slot [] q = tt
AllQuiet-erase slot ((k, old) ∷ d) q = ground (arith, AllQuiet-erase slot d q.1)

-- Every hold that was started is running or has ended in one of the three ways.
pub record IsSound (c : Counts) (d : Dict Slot) : Type 0 where
  pub distinct : Distinct d
  pub quiet : AllQuiet d
  pub balance : c.started ≡ ended c + holds d

-- A slot that has a hold in the second state had one in the first.
abbrev pub Below : Dict Slot → Dict Slot → Type 0
Below d e = (j : ℕ) → held_at (lookup j e) ≤ held_at (lookup j d)

-- The same, no more holds than before, and none on a slot that had none.
abbrev pub Keeps : Hold → Hold → Type 0
Keeps h g = IsSound g.counts g.slots × (holds g.slots ≤ holds h.slots) × Below h.slots g.slots

pub Keeps-trans : (f g h : Hold) → Keeps f g → Keeps g h → Keeps f h
Keeps-trans f g h p q = (q.0, omega (arith, p.1, q.1), λ j. omega (arith, p.2 j, q.2 j))

insert-Below :
    (slot : ℕ) (st : Slot) (d : Dict Slot)
    → held st ≤ held_at (lookup slot d)
    → Below d (insert slot st d)
insert-Below slot st d o j = ground (arith, lookup-insert j slot st d, o)

pub erase-Below : (slot : ℕ) (d : Dict Slot) → Distinct d → Below d (erase slot d)
erase-Below slot d q j = ground (arith, lookup-erase d j slot q)

-- One slot changes, and the counters with it.
pub insert-IsSound :
    (slot : ℕ) (st : Slot) (c c' : Counts) (d : Dict Slot)
    → IsSound c d
    → Quiet st
    → c'.started + (ended c + held_at (lookup slot d)) ≡ c.started + (ended c' + held st)
    → IsSound c' (insert slot st d)
insert-IsSound slot st c c' d s q e = record {
  distinct = insert-Distinct slot st d s.distinct;
  quiet = AllQuiet-insert slot st d s.quiet q;
  balance = omega (arith, e, holds-insert slot st d, s.balance);
}

pub erase-IsSound :
    (slot : ℕ) (c c' : Counts) (d : Dict Slot)
    → IsSound c d
    → c'.started + (ended c + held_at (lookup slot d)) ≡ c.started + ended c'
    → IsSound c' (erase slot d)
erase-IsSound slot c c' d s e = record {
  distinct = erase-Distinct d slot s.distinct;
  quiet = AllQuiet-erase slot d s.quiet;
  balance = omega (arith, e, holds-erase slot d, s.balance);
}

-- Counters that do not count holds change.
pub counts-IsSound :
    (c c' : Counts) (d : Dict Slot)
    → c'.started ≡ c.started
    → ended c' ≡ ended c
    → IsSound c d
    → IsSound c' d
counts-IsSound c c' d e f s = record {
  distinct = s.distinct;
  quiet = s.quiet;
  balance = omega (arith, e, f, s.balance);
}

-- A slot keeps its hold, or loses it while a counter of ended holds is raised.
pub set-Keeps :
    (slot : ℕ) (st : Slot) (c : Counts) (h : Hold)
    → IsSound h.counts h.slots
    → Quiet st
    → c.started ≡ h.counts.started
    → held_at (lookup slot h.slots) + ended h.counts ≡ held st + ended c
    → ended h.counts ≤ ended c
    → Keeps h (record h { slots = insert slot st h.slots; counts = c })
set-Keeps slot st c h s q e f o = (
  insert-IsSound slot st h.counts c h.slots s q (omega (arith, e, f)),
  omega (arith, f, o, holds-insert slot st h.slots),
  insert-Below slot st h.slots (omega (arith, f, o)),
)
