-- ===== src/ResyncHold/Config.antt =====
-- The cvars of demo_stream_resync_hold.py, as numbers within their limits.
use qlsm_extra.Base.{
  ℕ, ◌≤◌, Bool, true, false, not, Option, none, some, List, [], ◌∷◌, arith, ◌==◌, if◌then◌else◌,
  min, max,
}
use qlsm_extra.Base.Int.{ℤ, pos, negsuc, pos_part}
use qlsm_extra.Base.Text.{Text, codes, text_eq, strip, int}
use qlsm_extra.Pause.Commands.{lower}

-- `max(low, min(high, value))` for a low end of 0 or more, or the default.
unfoldable pub clamp_int : Option ℤ → ℕ → ℕ → ℕ → ℕ
clamp_int none default low high = default
clamp_int (some value) default low high = max low (min high (pos_part value))

-- The number in a cvar; `none` is the ValueError, also for a cvar that is not set.
abbrev number : Option Text → Option ℤ
number none = none
number (some raw) = int raw

-- DEFAULT_MAX_HOLD_FRAMES, MAX_HOLD_FRAMES_LIMIT, DEFAULT_HOLDS_PER_FRAME and HOLDS_PER_FRAME_LIMIT
abbrev pub default_max_frames : ℕ
default_max_frames = 8

abbrev pub max_frames_limit : ℕ
max_frames_limit = 16

abbrev pub default_per_frame : ℕ
default_per_frame = 2

abbrev pub per_frame_limit : ℕ
per_frame_limit = 8

unfoldable pub clamp_max_frames : Option Text → ℕ
clamp_max_frames raw = clamp_int (number raw) default_max_frames 1 max_frames_limit

unfoldable pub clamp_per_frame : Option Text → ℕ
clamp_per_frame raw = clamp_int (number raw) default_per_frame 1 per_frame_limit

-- DEFAULT_KEYFRAME_SEC, KEYFRAME_SEC_MIN and KEYFRAME_SEC_MAX
abbrev pub default_keyframe_sec : ℕ
default_keyframe_sec = 10

abbrev pub keyframe_sec_min : ℕ
keyframe_sec_min = 2

abbrev pub keyframe_sec_max : ℕ
keyframe_sec_max = 60

-- `keyframe_seconds`, for the whole part of the number in the cvar.
unfoldable pub keyframe_seconds : Option ℤ → ℕ
keyframe_seconds none = default_keyframe_sec
keyframe_seconds (some (negsuc n)) = 0
keyframe_seconds (some (pos n)) =
    if n == 0 then 0 else max keyframe_sec_min (min keyframe_sec_max n)

off_words : List Text
off_words = [] ∷ codes "0" ∷ codes "false" ∷ codes "off" ∷ codes "no" ∷ []

among : Text → List Text → Bool
among word [] = false
among word (w ∷ words) = if text_eq word w then true else among word words

-- `cvar_on`
unfoldable pub cvar_on : Option Text → Bool
unfolding off_words among
cvar_on none = false
cvar_on (some raw) = not (among (lower (strip raw)) off_words)

pub clamp_int_bounds :
    (o : Option ℤ) (default low high : ℕ)
    → low ≤ default
    → default ≤ high
    → (low ≤ clamp_int o default low high) × (clamp_int o default low high ≤ high)
unfolding clamp_int
clamp_int_bounds none default low high l h = (l, h)
clamp_int_bounds (some value) default low high l h = (omega arith, omega (arith, l, h))
