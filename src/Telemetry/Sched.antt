-- ===== src/Telemetry/Sched.antt =====
-- The pure helpers of telemetry_unified_sched.py: the field-of-view cache, the frame scheduler and
-- the acknowledgement of a batch.
use qlsm_extra.Base.{
  ℕ, ◌+◌, ◌-◌, ◌%◌, ◌≤◌, ◌≡◌, refl, Bool, true, false, not, ◌&&◌, Option, none, some, List, [], ◌∷◌,
  ◌++◌, arith, leb, ◌==◌, if◌then◌else◌, length,
}
use qlsm_extra.Base.Dict.{Distinct, Dict, lookup, insert, erase, lookup-insert, lookup-erase}

-- `class FovCache`: a value and the time at which it was cached, by steam id.
pub record FovCache (V : Type 0) : Type 0 where
  pub ttl_ms : ℕ
  pub entries : Dict (V × ℕ)

module _ {V : Type 0} where
  -- `get`, with `none` for a miss. A steam id that is missing or empty is `none` too.
  unfoldable pub get : Option ℕ → ℕ → FovCache V → Option V
  get none now c = none
  get (some steam_id) now c = elim (lookup steam_id c.entries) [
    | none ↦ none
    | some (value, cached_at) ↦ if leb (cached_at + c.ttl_ms) now then none else some value
  ]

  unfoldable pub put : Option ℕ → V → ℕ → FovCache V → FovCache V
  put none value now c = c
  put (some steam_id) value now c = record c { entries = insert steam_id (value, now) c.entries }

  unfoldable pub invalidate : Option ℕ → FovCache V → FovCache V
  invalidate none c = c
  invalidate (some steam_id) c = record c { entries = erase steam_id c.entries }

  -- What a `get` sees after a `put`: the new value until its time is up, and every other steam id
  -- as before. A `put` without a steam id stores nothing.
  pub get-put :
      (j k : ℕ) (v : V) (at now : ℕ) (c : FovCache V)
      → (get (some j) now (put (some k) v at c) ≡ (
          if j == k
          then (if leb (at + c.ttl_ms) now then none else some v)
          else get (some j) now c))
        × (get (some j) now (put none v at c) ≡ get (some j) now c)
  unfolding get put
  get-put j k v at now c = ground (arith, lookup-insert j k (v, at) c.entries)

  -- After `invalidate` there is no value for that steam id, and every other one is as before.
  pub get-invalidate :
      (j k now : ℕ) (c : FovCache V)
      → Distinct c.entries
      → get (some j) now (invalidate (some k) c) ≡ (if j == k then none else get (some j) now c)
  unfolding get invalidate
  get-invalidate j k now c d = ground (arith, lookup-erase c.entries j k d)

-- `on_stride` for a stride and a phase that are not negative.
unfoldable pub on_stride : ℕ → ℕ → ℕ → Bool
on_stride frame_tick stride phase =
    if stride == 0 then true else frame_tick % stride == phase % stride

unfoldable pub effective_interval : ℕ → ℕ → ℕ → ℕ
effective_interval ready active idle = if ready == 0 then idle else active

-- _FRAME_STRIDE_POSITIONS, _FRAME_STRIDE_SESSION and _FRAME_PHASE_SESSION of the plugin.
abbrev pub stride_positions : ℕ
stride_positions = 2

abbrev pub stride_session : ℕ
stride_session = 4

abbrev pub phase_session : ℕ
phase_session = 1

abbrev pub due : Bool → ℕ
due b = if b then 1 else 0

-- How often a feed is due in the four frames from `t` on.
abbrev pub fires : ℕ → ℕ → ℕ → ℕ
fires t stride phase =
    due (on_stride t stride phase)
    + due (on_stride (t + 1) stride phase)
    + due (on_stride (t + 2) stride phase)
    + due (on_stride (t + 3) stride phase)

-- Positions and session events are never due in the same frame, and in any four frames in a row
-- positions are due twice and session events once.
pub feeds_apart :
    (t : ℕ)
    → (on_stride t stride_positions 0 ≡ true → on_stride t stride_session phase_session ≡ false)
      × (fires t stride_positions 0 ≡ 2)
      × (fires t stride_session phase_session ≡ 1)
unfolding on_stride
feeds_apart t = ground arith

-- `id(row) in acked`
abbrev pub mem : ℕ → List ℕ → Bool
mem row [] = false
mem row (r ∷ rows) = if row == r then true else mem row rows

keep : List ℕ → List ℕ → List ℕ
keep acked [] = []
keep acked (row ∷ rows) = if mem row acked then keep acked rows else row ∷ keep acked rows

-- `ack_batch`: the queue that is left, and how many rows were removed.
unfoldable pub ack_batch : List ℕ → List ℕ → List ℕ × ℕ
unfolding keep
ack_batch queue batch = (keep batch queue, length queue - length (keep batch queue))

keep-mem :
    (row : ℕ) (acked queue : List ℕ)
    → mem row (keep acked queue) ≡ (mem row queue && not (mem row acked))
unfolding keep
keep-mem row acked [] = refl
keep-mem row acked (r ∷ rows) = ground (arith, keep-mem row acked rows)

keep-length : (acked queue : List ℕ) → length (keep acked queue) ≤ length queue
unfolding keep
keep-length acked [] = omega arith
keep-length acked (r ∷ rows) = ground (arith, keep-length acked rows)

-- No row of the second list is in the first.
abbrev pub Disjoint : List ℕ → List ℕ → Type 0
Disjoint acked [] = Unit
Disjoint acked (r ∷ rows) = (mem r acked ≡ false) × Disjoint acked rows

-- Every row of the second list is in the first.
abbrev pub Within : List ℕ → List ℕ → Type 0
Within acked [] = Unit
Within acked (r ∷ rows) = (mem r acked ≡ true) × Within acked rows

Within-cons : (x : ℕ) (acked rows : List ℕ) → Within acked rows → Within (x ∷ acked) rows
Within-cons x acked [] h = tt
Within-cons x acked (r ∷ rows) h = (ground arith, Within-cons x acked rows h.1)

pub Within-refl : (rows : List ℕ) → Within rows rows
Within-refl [] = tt
Within-refl (r ∷ rows) = (ground arith, Within-cons r rows rows (Within-refl rows))

keep_rest : (acked rest : List ℕ) → Disjoint acked rest → keep acked rest ≡ rest
unfolding keep
keep_rest acked [] h = refl
keep_rest acked (r ∷ rest) h = ground (arith, keep_rest acked rest h.1)

keep_batch :
    (acked batch rest : List ℕ) → Within acked batch → keep acked (batch ++ rest) ≡ keep acked rest
unfolding keep
keep_batch acked [] rest h = refl
keep_batch acked (r ∷ batch) rest h = ground (arith, keep_batch acked batch rest h.1)

-- An acknowledged batch takes its own rows out of the queue and no others, wherever they stand by
-- then, and the number returned counts them.
pub ack_batch_lem :
    (queue batch : List ℕ) (row : ℕ)
    → (mem row (ack_batch queue batch).0 ≡ (mem row queue && not (mem row batch)))
      × (length (ack_batch queue batch).0 + (ack_batch queue batch).1 ≡ length queue)
unfolding ack_batch
ack_batch_lem queue batch row = (keep-mem row batch queue, omega (arith, keep-length batch queue))

-- While a batch still is the front of the queue, what follows it stays as it is.
pub ack_batch-front :
    (batch rest : List ℕ) → Disjoint batch rest → (ack_batch (batch ++ rest) batch).0 ≡ rest
unfolding ack_batch
ack_batch-front batch rest d =
    rw (keep_batch batch batch rest (Within-refl batch)) (keep_rest batch rest d)
