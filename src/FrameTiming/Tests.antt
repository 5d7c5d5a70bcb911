-- ===== src/FrameTiming/Tests.antt =====
-- Runs of the frame statistics.
use qlsm_extra.Base.{ℕ, suc, ◌≤◌, ◌<◌, ◌≡◌, refl, List, [], ◌∷◌, arith, length}
use qlsm_extra.FrameTiming.{new_stats, add, bump, percentile, scan, rank_of}
use qlsm_extra.FrameTiming.Percentile.{add_all, count_below, value, percentile-count_below}

-- Three gaps of about one tick, and a long one.
abbrev gaps : List ℕ
gaps = 25100 ∷ 24900 ∷ 25300 ∷ 140000 ∷ []

gaps_median : percentile 50 (add_all gaps (new_stats 37500)) ≡ 26000
unfolding percentile scan add bump new_stats
gaps_median = refl

percentile-count_below_example :
    let s = add_all gaps (new_stats 37500) in
    let rank = rank_of (length gaps) 99 in
    (k : ℕ) × (percentile 99 s ≡ value s.longest k)
    × (rank ≤ count_below (suc k) gaps)
    × (count_below k gaps < rank)
percentile-count_below_example =
    percentile-count_below 99 37500 gaps (omega arith) (omega arith) (omega arith)
