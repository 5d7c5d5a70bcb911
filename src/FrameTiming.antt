-- ===== src/FrameTiming.antt =====
-- The gaps between server frames: frame_timing.py. Gaps are whole microseconds; publishing to Redis and
-- the worker's timing are left out.
pub mod Percentile
mod Tests
use qlsm_extra.Base.{
  ℕ, zero, suc, ◌+◌, ◌-◌, ◌*◌, ◌/◌, Bool, true, false, Option, none, some, List, [], ◌∷◌, ltb, leb,
  ◌==◌, if◌then◌else◌, min, max,
}

-- BUCKETS
abbrev pub buckets : ℕ
buckets = 100

pub record FrameStats : Type 0 where
  pub late_over : ℕ
  pub hist : List ℕ
  pub frames : ℕ
  pub late : ℕ
  pub longest : ℕ

abbrev pub zeros : ℕ → List ℕ
zeros zero = []
zeros (suc n) = 0 ∷ zeros n

-- `FrameStats.__init__`, for LATE_FACTOR ticks.
unfoldable pub new_stats : ℕ → FrameStats
new_stats late_over = record {
  late_over = late_over;
  hist = zeros (buckets + 1);
  frames = 0;
  late = 0;
  longest = 0;
}

-- `hist[i] += 1`
unfoldable pub bump : ℕ → List ℕ → List ℕ
bump i [] = []
bump i (count ∷ hist) = if i == 0 then (count + 1) ∷ hist else count ∷ bump (i - 1) hist

-- The bucket of a gap: whole milliseconds, and one for all above.
abbrev pub bucket : ℕ → ℕ
bucket gap = min (gap / 1000) buckets

-- `add`
unfoldable pub add : ℕ → FrameStats → FrameStats
add gap s = record s {
  frames = s.frames + 1;
  late = if ltb s.late_over gap then s.late + 1 else s.late;
  longest = if ltb s.longest gap then gap else s.longest;
  hist = bump (bucket gap) s.hist;
}

-- The loop of `_percentile` from bucket `i` on.
unfoldable pub scan : ℕ → ℕ → ℕ → ℕ → List ℕ → ℕ
scan rank longest seen i [] = longest
scan rank longest seen i (count ∷ hist) =
    let rest = scan rank longest (seen + count) (i + 1) hist in
    if leb rank (seen + count) then (if i == buckets then longest else (i + 1) * 1000) else rest

-- `math.ceil(frames * fraction)` for a fraction in hundredths, without the rounding of floats.
abbrev pub rank_of : ℕ → ℕ → ℕ
rank_of frames hundredths = (frames * hundredths + 99) / 100

-- `_percentile`
unfoldable pub percentile : ℕ → FrameStats → ℕ
percentile hundredths s =
    if s.frames == 0 then 0 else scan (rank_of s.frames hundredths) s.longest 0 0 s.hist

-- The fields of `class frame_timing` that its hooks change; `read_late` is LATE_FACTOR times the tick that
-- sv_fps gives.
pub record Timing : Type 0 where
  pub last : Option ℕ
  pub skip_next : Bool
  pub seq : ℕ
  pub tick_late : ℕ
  pub stats : FrameStats

abbrev added : Option ℕ → ℕ → FrameStats → FrameStats
added none now stats = stats
added (some last) now stats = add (now - last) stats

-- `handle_frame`, `handle_map`, `handle_new_game`, and `_publish` with the statistics that it writes.
unfoldable pub handle_frame : ℕ → Timing → Timing
handle_frame now t =
    let seen = record t { last = some now } in
    if t.skip_next
    then record seen { skip_next = false }
    else record seen { stats = added t.last now t.stats }

abbrev pub handle_map : Timing → Timing
handle_map t = record t { skip_next = true }

unfoldable pub handle_new_game : ℕ → Timing → Timing
handle_new_game read_late t = record t {
  skip_next = true;
  tick_late = read_late;
  stats = new_stats read_late;
}

unfoldable pub publish : Timing → Timing × FrameStats
publish t = (record t { stats = new_stats t.tick_late; seq = t.seq + 1 }, t.stats)
