-- ===== src/MatchGroups/Tests.antt =====
-- Two files of one match, one of another, and a plain recording.
use qlsm_extra.Base.{none, some, List, [], ◌∷◌}
use qlsm_extra.MatchGroups.{Demo, build_raw_match_groups}
use qlsm_extra.MatchGroups.Members.{Grouped, build_raw_match_groups-Grouped}

abbrev listing : List Demo
listing =
    record { name = 1; match_id = some 70; map_name = none }
    ∷ record { name = 2; match_id = some 71; map_name = some 5 }
    ∷ record { name = 3; match_id = some 70; map_name = some 5 }
    ∷ record { name = 4; match_id = none; map_name = none }
    ∷ []

build_raw_match_groups-Grouped_example : Grouped listing (build_raw_match_groups listing (2 ∷ []))
build_raw_match_groups-Grouped_example = build_raw_match_groups-Grouped listing (2 ∷ [])
