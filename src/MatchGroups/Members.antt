-- ===== src/MatchGroups/Members.antt =====
-- Which files a match gets.
use mathlib.Core.List.{append_assoc, append-nil}
use qlsm_extra.Base.{
  ℕ, ◌≤◌, ◌≡◌, refl, sym, Bool-cases, inl, inr, true, Option, none, some, List, [], ◌∷◌, ◌++◌,
  arith, ◌==◌, if◌then◌else◌, length,
}
use qlsm_extra.Base.Dict.{Dict, lookup, contains, Distinct, insert-Distinct, lookup-insert}
use qlsm_extra.MatchGroups.{
  Demo, Group, or_empty, append_to, collect, names_of, groups_of, build_raw_match_groups,
}

-- The files with a match id, in the order of the listing.
unfoldable pub of_match : ℕ → List Demo → List Demo
of_match match_id [] = []
of_match match_id (demo ∷ demos) = elim demo.match_id [
  | none ↦ of_match match_id demos
  | some k ↦ if k == match_id then demo ∷ of_match match_id demos else of_match match_id demos
]

append_to-lookup :
    (j k : ℕ) (demo : Demo) (d : Dict (List Demo))
    → or_empty (lookup j (append_to k demo d))
      ≡ or_empty (lookup j d) ++ (if k == j then demo ∷ [] else [])
unfolding append_to or_empty
append_to-lookup j k demo d = ground (
  arith,
  lookup-insert j k (or_empty (lookup k d) ++ (demo ∷ [])) d,
  append-nil (or_empty (lookup j d)),
)

collect-lookup :
    (j : ℕ) (demos : List Demo) (d : Dict (List Demo))
    → or_empty (lookup j (collect demos d)) ≡ or_empty (lookup j d) ++ of_match j demos
unfolding collect of_match
collect-lookup j [] d = sym (append-nil (or_empty (lookup j d)))
collect-lookup j (demo ∷ demos) d = from demo.match_id refl (collect-lookup j demos)
  where
    from :
        (o : Option ℕ)
        → demo.match_id ≡ o
        → ((d : Dict (List Demo))
            → or_empty (lookup j (collect demos d)) ≡ or_empty (lookup j d) ++ of_match j demos)
        → or_empty (lookup j (collect (demo ∷ demos) d))
          ≡ or_empty (lookup j d) ++ of_match j (demo ∷ demos)
    from none e ih = rw (collect, of_match, e) (ih d)
    from (some k) e ih = elim (Bool-cases (k == j)) [
      | inl same ↦ ground (
        arith,
        e,
        ih (append_to k demo d),
        append_to-lookup j k demo d,
        append_assoc (or_empty (lookup j d)) (demo ∷ []) (of_match j demos),
      )
      | inr other ↦ ground (
        arith,
        e,
        ih (append_to k demo d),
        append_to-lookup j k demo d,
        append-nil (or_empty (lookup j d)),
      )
    ]

collect-Distinct :
    (demos : List Demo) (d : Dict (List Demo)) → Distinct d → Distinct (collect demos d)
unfolding collect append_to
collect-Distinct [] d h = h
collect-Distinct (demo ∷ demos) d h = from demo.match_id refl (collect-Distinct demos)
  where
    from :
        (o : Option ℕ)
        → demo.match_id ≡ o
        → ((d : Dict (List Demo)) → Distinct d → Distinct (collect demos d))
        → Distinct (collect (demo ∷ demos) d)
    from none e ih = rw (collect, e) (ih d h)
    from (some k) e ih = rw (collect, e) (ih (append_to k demo d) (insert-Distinct k _ d h))

-- Every entry of the dict has the files of its key.
abbrev Entries : List Demo → Dict (List Demo) → Type 0
Entries demos [] = Unit
Entries demos ((k, members) ∷ d) = (members ≡ of_match k demos) × Entries demos d

lookup-Entries :
    (demos : List Demo) (d : Dict (List Demo))
    → Distinct d
    → ((k : ℕ) → contains k d ≡ true → or_empty (lookup k d) ≡ of_match k demos)
    → Entries demos d
unfolding or_empty
lookup-Entries demos [] h f = tt
lookup-Entries demos ((k, members) ∷ d) h f =
    (ground (arith, f k), lookup-Entries demos d h.1 (λ j there. ground (arith, f j, h.0, there)))

-- The files of a group, and how many there are.
abbrev pub Grouped : List Demo → List Group → Type 0
Grouped demos [] = Unit
Grouped demos (g ∷ groups) =
    (g.member_names ≡ names_of (of_match g.group_id demos))
    × (2 ≤ length g.member_names)
    × Grouped demos groups

names_of-length : (members : List Demo) → length (names_of members) ≡ length members
unfolding names_of
names_of-length [] = refl
names_of-length (m ∷ members) = ground (arith, names_of-length members)

groups_of-Grouped :
    (demos : List Demo) (claimed : List ℕ) (d : Dict (List Demo))
    → Entries demos d
    → Grouped demos (groups_of claimed d)
unfolding groups_of
groups_of-Grouped demos claimed [] h = tt
groups_of-Grouped demos claimed ((k, members) ∷ d) h =
    ground (arith, h.0, names_of-length members, groups_of-Grouped demos claimed d h.1)

-- A group has two files at least, and they are all the files of the listing with its match id, in the
-- order of the listing.
pub build_raw_match_groups-Grouped :
    (demos : List Demo) (claimed : List ℕ) → Grouped demos (build_raw_match_groups demos claimed)
unfolding build_raw_match_groups or_empty
build_raw_match_groups-Grouped demos claimed = groups_of-Grouped demos claimed (collect demos []) (
    lookup-Entries demos (collect demos []) (collect-Distinct demos [] tt)
      (λ k there. collect-lookup k demos []))
