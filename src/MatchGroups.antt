-- ===== src/MatchGroups.antt =====
-- The files of a listing by match: addons/demo-management/raw_match_groups.py. A file name, a match id
-- and a map are the numbers that stand for them; a match id or a map that is missing or empty is `none`.
pub mod Members
mod Tests
use qlsm_extra.Base.{
  ℕ, Bool, true, false, ◌||◌, Option, none, some, List, [], ◌∷◌, ◌++◌, map, ltb, ◌==◌,
  if◌then◌else◌, length,
}
use qlsm_extra.Base.Dict.{Dict, lookup, insert}

pub record Demo : Type 0 where
  pub name : ℕ
  pub match_id : Option ℕ
  pub map_name : Option ℕ

pub record Group : Type 0 where
  pub group_id : ℕ
  pub label_map : Option ℕ
  pub member_names : List ℕ

unfoldable pub or_empty : Option (List Demo) → List Demo
or_empty none = []
or_empty (some demos) = demos

-- `by_match.setdefault(match_id, []).append(demo)`
unfoldable pub append_to : ℕ → Demo → Dict (List Demo) → Dict (List Demo)
unfolding or_empty
append_to match_id demo by_match =
    insert match_id (or_empty (lookup match_id by_match) ++ (demo ∷ [])) by_match

unfoldable pub collect : List Demo → Dict (List Demo) → Dict (List Demo)
collect [] by_match = by_match
collect (demo ∷ demos) by_match = elim demo.match_id [
  | none ↦ collect demos by_match
  | some match_id ↦ collect demos (append_to match_id demo by_match)
]

abbrev pub named : ℕ → List ℕ → Bool
named name [] = false
named name (n ∷ names) = if name == n then true else named name names

unfoldable pub any_claimed : List ℕ → List Demo → Bool
any_claimed claimed [] = false
any_claimed claimed (m ∷ members) = named m.name claimed || any_claimed claimed members

unfoldable pub first_map : List Demo → Option ℕ
first_map [] = none
first_map (m ∷ members) = elim m.map_name [ none ↦ first_map members | some name ↦ some name ]

unfoldable pub names_of : List Demo → List ℕ
names_of [] = []
names_of (m ∷ members) = m.name ∷ names_of members

unfoldable pub groups_of : List ℕ → Dict (List Demo) → List Group
groups_of claimed [] = []
groups_of claimed ((match_id, members) ∷ by_match) =
    let rest = groups_of claimed by_match in
    if ltb (length members) 2 || any_claimed claimed members
    then rest
    else record {
      group_id = match_id;
      label_map = first_map members;
      member_names = names_of members;
    }
      ∷ rest

-- `build_raw_match_groups`
unfoldable pub build_raw_match_groups : List Demo → List ℕ → List Group
build_raw_match_groups demos claimed = groups_of claimed (collect demos [])
