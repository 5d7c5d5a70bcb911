-- ===== src/FrameTiming/Percentile.antt =====
-- The percentiles of the histogram against the gaps themselves.
use qlsm_extra.Base.{
  ℕ, zero, suc, ◌+◌, ◌-◌, ◌*◌, ◌≤◌, ◌<◌, ◌≡◌, refl, false, Bool-cases, List, [], ◌∷◌, arith, ltb,
  leb, ◌==◌, if◌then◌else◌, length, inl, inr, ◌∙◌, ap,
}
use qlsm_extra.FrameTiming.{
  FrameStats, buckets, zeros, new_stats, bump, bucket, add, scan, rank_of, percentile,
}

abbrev pub add_all : List ℕ → FrameStats → FrameStats
add_all [] s = s
add_all (gap ∷ gaps) s = add_all gaps (add gap s)

-- How many of the gaps are in the first `k` buckets.
abbrev pub count_below : ℕ → List ℕ → ℕ
count_below k [] = 0
count_below k (gap ∷ gaps) = (if ltb (bucket gap) k then 1 else 0) + count_below k gaps

-- The sum of the first `k` counts.
unfoldable prefix : ℕ → List ℕ → ℕ
prefix zero hist = 0
prefix (suc k) [] = 0
prefix (suc k) (count ∷ hist) = count + prefix k hist

length-bump : (i : ℕ) (hist : List ℕ) → length (bump i hist) ≡ length hist
unfolding bump
length-bump i [] = refl
length-bump i (count ∷ hist) = ground (arith, length-bump (i - 1) hist)

prefix-bump :
    (k i : ℕ) (hist : List ℕ)
    → i < length hist
    → prefix k (bump i hist) ≡ prefix k hist + (if ltb i k then 1 else 0)
unfolding prefix bump
prefix-bump zero i hist o = ground arith
prefix-bump (suc k) i [] o = ground (arith, o)
prefix-bump (suc k) zero (count ∷ hist) o = ground arith
prefix-bump (suc k) (suc i) (count ∷ hist) o = ground (arith, o, prefix-bump k i hist)

prefix-zeros : (k n : ℕ) → prefix k (zeros n) ≡ 0
unfolding prefix
prefix-zeros zero n = refl
prefix-zeros (suc k) zero = refl
prefix-zeros (suc k) (suc n) = omega (arith, prefix-zeros k n)

prefix-add_all :
    (k : ℕ) (gaps : List ℕ) (s : FrameStats)
    → length s.hist ≡ 101
    → prefix k (add_all gaps s).hist ≡ prefix k s.hist + count_below k gaps
unfolding add
prefix-add_all k [] s l = ground arith
prefix-add_all k (gap ∷ gaps) s l =
    let e = length-bump (bucket gap) s.hist in
    let inside : bucket gap < length s.hist = omega (arith, l) in
    ground
      (arith, prefix-bump k (bucket gap) s.hist inside, prefix-add_all k gaps (add gap s) (e ∙ l))

frames-add_all :
    (gaps : List ℕ) (s : FrameStats)
    → ((add_all gaps s).frames ≡ s.frames + length gaps)
      × (length (add_all gaps s).hist ≡ length s.hist)
unfolding add
frames-add_all [] s = ground arith
frames-add_all (gap ∷ gaps) s =
    ground (arith, frames-add_all gaps (add gap s), length-bump (bucket gap) s.hist)

-- The value of a bucket.
abbrev pub value : ℕ → ℕ → ℕ
value longest i = if i == buckets then longest else (i + 1) * 1000

-- The loop ends at the first bucket where the rank is reached.
scan_first :
    (rank longest seen i : ℕ) (hist : List ℕ)
    → seen < rank
    → rank ≤ seen + prefix (length hist) hist
    → (k : ℕ) × (scan rank longest seen i hist ≡ value longest (i + k))
      × (rank ≤ seen + prefix (suc k) hist)
      × (seen + prefix k hist < rank)
unfolding scan prefix
scan_first rank longest seen i [] o r = absurd (omega (arith, o, r))
scan_first rank longest seen i (count ∷ hist) o r = elim (Bool-cases (leb rank (seen + count))) [
  | inl e ↦ (0, rw e (ground arith), ground (arith, e), ground (arith, o))
  | inr e ↦
      let (k, v, a, b) =
        scan_first rank longest (seen + count) (i + 1) hist (ground (arith, e))
          (ground (arith, r)) in
      (suc k, rw e (ground (arith, v)), ground (arith, a), ground (arith, b))
]

count_below_all : (gaps : List ℕ) → count_below 101 gaps ≡ length gaps
count_below_all [] = refl
count_below_all (gap ∷ gaps) =
    let inside : bucket gap < 101 = omega arith in ground (arith, inside, count_below_all gaps)

new_stats_empty :
    (late_over : ℕ) → (length (new_stats late_over).hist ≡ 101) × ((new_stats late_over).frames ≡ 0)
unfolding new_stats
new_stats_empty late_over = (refl, refl)

prefix-new_stats : (k late_over : ℕ) → prefix k (new_stats late_over).hist ≡ 0
unfolding new_stats
prefix-new_stats k late_over = prefix-zeros k 101

mul_mono : (n h k : ℕ) → h ≤ k → n * h ≤ n * k
mul_mono zero h k o = omega arith
mul_mono (suc n) h k o = omega (arith, o, mul_mono n h k o)

positive : (h n : ℕ) → 1 ≤ h → 1 ≤ n → 0 < rank_of n h
positive h n o l = omega (arith, l, mul_mono n 1 h o)

enough :
    (h : ℕ) (gaps hist : List ℕ)
    → 1 ≤ h
    → h ≤ 100
    → prefix 101 hist ≡ count_below 101 gaps
    → rank_of (length gaps) h ≤ prefix 101 hist
enough h gaps hist o p e = omega (arith, e, count_below_all gaps, mul_mono (length gaps) h 100 p)

percentile_ranks :
    (h n : ℕ) (s : FrameStats)
    → s.frames ≡ n
    → 1 ≤ n
    → percentile h s ≡ scan (rank_of n h) s.longest 0 0 s.hist
unfolding percentile
percentile_ranks h n s e l =
    let f : ℕ → ℕ = λ m. if m == 0 then 0 else scan (rank_of m h) s.longest 0 0 s.hist in
    let some_gap : (n == 0) ≡ false = ground (arith, l) in
    let opened : f n ≡ scan (rank_of n h) s.longest 0 0 s.hist = rw some_gap refl in ap f e ∙ opened

-- For gaps added to new statistics, a percentile of 1 to 100 is the value of the bucket in which the gap of that
-- rank lies: as many gaps as the rank are in it or in a bucket before it, and fewer are before it.
pub percentile-count_below :
    (hundredths late_over : ℕ) (gaps : List ℕ)
    → 1 ≤ hundredths
    → hundredths ≤ 100
    → 1 ≤ length gaps
    → let s = add_all gaps (new_stats late_over) in
      let rank = rank_of (length gaps) hundredths in
      (k : ℕ) × (percentile hundredths s ≡ value s.longest k)
      × (rank ≤ count_below (suc k) gaps)
      × (count_below k gaps < rank)
percentile-count_below hundredths late_over gaps o p l =
    let n = new_stats late_over in
    let s = add_all gaps n in
    let f = frames-add_all gaps n in
    let e = new_stats_empty late_over in
    let frames : s.frames ≡ length gaps = omega (arith, f, e) in
    let rank = rank_of (length gaps) hundredths in
    let counts : (k : ℕ) → prefix k s.hist ≡ count_below k gaps =
      λ k. omega (arith, prefix-add_all k gaps n e.0, prefix-new_stats k late_over) in
    let full : length s.hist ≡ 101 = omega (arith, f, e) in
    let all : rank ≤ prefix (length s.hist) s.hist =
      rw full (enough hundredths gaps s.hist o p (counts 101)) in
    let (k, v, a, b) =
      scan_first rank s.longest 0 0 s.hist (positive hundredths (length gaps) o l)
        (omega (arith, all)) in
    let z : 0 + k ≡ k = omega arith in
    (
      k,
      percentile_ranks hundredths (length gaps) s frames l ∙ (v ∙ ap (λ i. value s.longest i) z),
      omega (arith, a, counts (suc k)),
      omega (arith, b, counts k),
    )
