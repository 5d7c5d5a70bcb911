-- ===== src/HostMetrics/Rows.antt =====
-- The event table and the tracker agree: a row is open exactly while it is its key's entry.
use qlsm_extra.Base.{
  ℕ, ◌+◌, ◌≤◌, ◌≡◌, refl, Bool, true, false, Option, none, some, arith, ◌==◌, if◌then◌else◌,
  Bool-cases, inl, inr,
}
use qlsm_extra.Base.Dict.{
  Dict, lookup, insert, erase, Distinct, insert-Distinct, erase-Distinct, lookup-insert,
  lookup-erase,
}
use qlsm_extra.HostMetrics.{Tracker, Row}

abbrev pub is_none : Option ℕ → Bool
is_none none = true
is_none (some n) = false

abbrev pub points : ℕ → Option ℕ → Bool
points id none = false
points id (some j) = id == j

-- A row is open exactly while the entry of its key is the row's id.
abbrev pub RowOk : ℕ → Option Row → Dict ℕ → Type 0
RowOk id none opened = Unit
RowOk id (some row) opened = is_none row.closed ≡ points id (lookup row.key opened)

-- The row of an entry is there, under the entry's key.
abbrev pub Names : ℕ → Option Row → Type 0
Names key none = ⊥
Names key (some row) = row.key ≡ key

abbrev pub EntryOk : ℕ → Option ℕ → Dict Row → Type 0
EntryOk key none rows = Unit
EntryOk key (some id) rows = Names key (lookup id rows)

pub record IsSound (s : Tracker) : Type 0 where
  pub distinct : Distinct s.opened
  pub row_ok : (id : ℕ) → RowOk id (lookup id s.rows) s.opened
  pub entry_ok : (key : ℕ) → EntryOk key (lookup key s.opened) s.rows
  pub fresh : (id : ℕ) → s.next_id ≤ id → lookup id s.rows ≡ none

-- The start of a hold does not touch the table.
pub since-IsSound :
    (s : Tracker) (since : Dict ℕ) → IsSound s → IsSound (record s { since = since })
since-IsSound s since h = record {
  distinct = h.distinct;
  row_ok = h.row_ok;
  entry_ok = h.entry_ok;
  fresh = h.fresh;
}

-- A row of the table closes, and its entry goes.
pub closed-IsSound :
    (s : Tracker) (key id ts : ℕ) (row : Row) (since : Dict ℕ)
    → lookup key s.opened ≡ some id
    → lookup id s.rows ≡ some row
    → row.key ≡ key
    → IsSound s
    → IsSound (record s {
      since = since;
      opened = erase key s.opened;
      rows = insert id (record row { closed = some ts }) s.rows;
    })
closed-IsSound s key id ts row since e r k h = record {
  distinct = erase-Distinct s.opened key h.distinct;
  row_ok = row_after;
  entry_ok = entry_after;
  fresh = fresh_after;
}
  where
    row_after :
        (j : ℕ)
        → RowOk j
            (lookup j (insert id (record row { closed = some ts }) s.rows))
            (erase key s.opened)
    row_after j = elim (Bool-cases (j == id)) [
      | inl same ↦
          rw (lookup-insert, same) (ground (arith, k, lookup-erase s.opened row.key key h.distinct))
      | inr other ↦ rw (lookup-insert, other) (from (lookup j s.rows) (h.row_ok j) other)
    ]
      where
        from :
            (o : Option Row) → RowOk j o s.opened → j == id ≡ false → RowOk j o (erase key s.opened)
        from none ok other = tt
        from (some q) ok other = ground (arith, e, lookup-erase s.opened q.key key h.distinct)

    entry_after :
        (k' : ℕ)
        → EntryOk k'
            (lookup k' (erase key s.opened))
            (insert id (record row { closed = some ts }) s.rows)
    entry_after k' = rw (lookup-erase s.opened k' key h.distinct) (elim (Bool-cases (k' == key)) [
      | inl same ↦ rw same tt
      | inr other ↦ rw other (from (lookup k' s.opened) (h.entry_ok k'))
    ])
      where
        from :
            (o : Option ℕ)
            → EntryOk k' o s.rows
            → EntryOk k' o (insert id (record row { closed = some ts }) s.rows)
        from none ok = tt
        from (some i) ok =
            ground (arith, r, lookup-insert i id (record row { closed = some ts }) s.rows)

    fresh_after :
        (j : ℕ)
        → s.next_id ≤ j
        → lookup j (insert id (record row { closed = some ts }) s.rows) ≡ none
    fresh_after j o =
        ground (arith, lookup-insert j id (record row { closed = some ts }) s.rows, h.fresh j o)

-- A new row with its entry, for a key without one.
pub opened-IsSound :
    (s : Tracker) (key ts : ℕ)
    → lookup key s.opened ≡ none
    → IsSound s
    → IsSound (record s {
      opened = insert key s.next_id s.opened;
      rows = insert s.next_id (record { ts = ts; key = key; closed = none }) s.rows;
      next_id = s.next_id + 1;
    })
opened-IsSound s key ts e h = record {
  distinct = insert-Distinct key s.next_id s.opened h.distinct;
  row_ok = row_after;
  entry_ok = entry_after;
  fresh = fresh_after;
}
  where
    row_after :
        (j : ℕ)
        → RowOk j
            (lookup j (insert s.next_id (record { ts = ts; key = key; closed = none }) s.rows))
            (insert key s.next_id s.opened)
    row_after j = elim (Bool-cases (j == s.next_id)) [
      | inl same ↦
          rw (lookup-insert, same) (ground (arith, lookup-insert key key s.next_id s.opened))
      | inr other ↦ rw (lookup-insert, other) (from (lookup j s.rows) (h.row_ok j) other)
    ]
      where
        from :
            (o : Option Row)
            → RowOk j o s.opened
            → j == s.next_id ≡ false
            → RowOk j o (insert key s.next_id s.opened)
        from none ok other = tt
        from (some q) ok other = ground (arith, e, lookup-insert q.key key s.next_id s.opened)

    entry_after :
        (k : ℕ)
        → EntryOk k
            (lookup k (insert key s.next_id s.opened))
            (insert s.next_id (record { ts = ts; key = key; closed = none }) s.rows)
    entry_after k = rw (lookup-insert k key s.next_id s.opened) (elim (Bool-cases (k == key)) [
      | inl same ↦ rw same (
          ground (
            arith,
            lookup-insert s.next_id s.next_id (record { ts = ts; key = key; closed = none }) s.rows,
          ))
      | inr other ↦ rw other (from (lookup k s.opened) (h.entry_ok k))
    ])
      where
        from :
            (o : Option ℕ)
            → EntryOk k o s.rows
            → EntryOk k o (insert s.next_id (record { ts = ts; key = key; closed = none }) s.rows)
        from none ok = tt
        from (some i) ok = ground (
          arith,
          h.fresh i,
          lookup-insert i s.next_id (record { ts = ts; key = key; closed = none }) s.rows,
        )

    fresh_after :
        (j : ℕ)
        → s.next_id + 1 ≤ j
        → lookup j (insert s.next_id (record { ts = ts; key = key; closed = none }) s.rows) ≡ none
    fresh_after j o = ground (
      arith,
      lookup-insert j s.next_id (record { ts = ts; key = key; closed = none }) s.rows,
      h.fresh j,
    )

-- A closed row of a key without an entry, in place of the new one.
pub point-IsSound :
    (s : Tracker) (key ts : ℕ) (since : Dict ℕ) (old : Row)
    → lookup key s.opened ≡ none
    → IsSound s
    → IsSound (record s {
      since = since;
      rows =
          insert s.next_id
            (record { ts = ts; key = key; closed = some ts })
            (insert s.next_id old s.rows);
      next_id = s.next_id + 1;
    })
point-IsSound s key ts since old e h = record {
  distinct = h.distinct;
  row_ok = row_after;
  entry_ok = entry_after;
  fresh = fresh_after;
}
  where
    twice :
        (j : ℕ)
        → lookup j (
            insert s.next_id
              (record { ts = ts; key = key; closed = some ts })
              (insert s.next_id old s.rows))
          ≡ (if j == s.next_id
              then some (record { ts = ts; key = key; closed = some ts })
              else lookup j s.rows)
    twice j = ground (
      arith,
      lookup-insert j s.next_id (record { ts = ts; key = key; closed = some ts })
          (insert s.next_id old s.rows),
      lookup-insert j s.next_id old s.rows,
    )

    row_after :
        (j : ℕ)
        → RowOk j
            (lookup j (
              insert s.next_id
                (record { ts = ts; key = key; closed = some ts })
                (insert s.next_id old s.rows)))
            s.opened
    row_after j = rw twice (elim (Bool-cases (j == s.next_id)) [
      | inl same ↦ rw (same, e) refl
      | inr other ↦ rw other (h.row_ok j)
    ])

    entry_after :
        (k : ℕ)
        → EntryOk k (lookup k s.opened) (
            insert s.next_id
              (record { ts = ts; key = key; closed = some ts })
              (insert s.next_id old s.rows))
    entry_after k = from (lookup k s.opened) (h.entry_ok k)
      where
        from :
            (o : Option ℕ)
            → EntryOk k o s.rows
            → EntryOk k o (
                insert s.next_id
                  (record { ts = ts; key = key; closed = some ts })
                  (insert s.next_id old s.rows))
        from none ok = tt
        from (some i) ok = ground (arith, h.fresh i, twice i)

    fresh_after :
        (j : ℕ)
        → s.next_id + 1 ≤ j
        → lookup j (
            insert s.next_id
              (record { ts = ts; key = key; closed = some ts })
              (insert s.next_id old s.rows))
          ≡ none
    fresh_after j o = ground (arith, h.fresh j, twice j)
