-- ===== src/Pause.antt =====
-- Whether a match is paused: stats_hub_pause.py. Times are milliseconds; the two globals are a record.
pub mod Commands
pub mod Release
mod Tests
use qlsm_extra.Base.{
  ℕ, ◌+◌, Bool, true, false, not, ◌||◌, Option, none, some, List, [], ◌∷◌, leb, ◌==◌, if◌then◌else◌,
}
use qlsm_extra.Base.Int.{ℤ, pos, negsuc}
use qlsm_extra.Base.Text.{Text, codes, text_eq, strip}
use qlsm_extra.Pause.Commands.{lower, asked}

-- _PAUSE_LATCH and _RAW_SEEN_AT
pub record Pause : Type 0 where
  pub latch : Bool
  pub seen_at : Option ℕ

-- RAW_RELEASE_S
abbrev pub release_ms : ℕ
release_ms = 2000

-- What `get_cvar` may give; `absent` is None or an exception.
pub data Cvar : Type 0 where
  absent : Cvar
  boolean : Bool → Cvar
  number : ℤ → Cvar
  text : Text → Cvar

off_words : List Text
off_words = codes "0" ∷ [] ∷ codes "false" ∷ codes "off" ∷ codes "no" ∷ []

among : Text → List Text → Bool
among word [] = false
among word (w ∷ words) = text_eq word w || among word words

-- `_cvar_truthy`; a float is cut to a whole number before.
unfoldable pub cvar_truthy : Cvar → Bool
unfolding off_words among
cvar_truthy Cvar.absent = false
cvar_truthy (Cvar.boolean b) = b
cvar_truthy (Cvar.number (pos n)) = not (n == 0)
cvar_truthy (Cvar.number (negsuc n)) = true
cvar_truthy (Cvar.text word) = not (among (lower (strip word)) off_words)

any_true : List Bool → Bool
any_true [] = false
any_true (b ∷ bs) = b || any_true bs

any_truthy : List Cvar → Bool
any_truthy [] = false
any_truthy (c ∷ cvars) = cvar_truthy c || any_truthy cvars

-- `raw_paused` for the three cvars and the two attributes of the game; an attribute that is missing or
-- raises is false.
unfoldable pub raw_paused : List Cvar → List Bool → Bool
unfolding any_true any_truthy
raw_paused cvars attributes = any_truthy cvars || any_true attributes

unfoldable pub accept_console_pause : Bool → Bool → Bool
accept_console_pause raw_ok warmup = if raw_ok then true else if warmup then false else true

-- `paused_active`, given what `raw_paused` says: the state afterwards, and the answer.
unfoldable pub paused_active : Bool → ℕ → Pause → Pause × Bool
paused_active raw now s =
    if raw
    then (record s { seen_at = some now }, true)
    else if s.latch
    then (s, true)
    else elim s.seen_at [
      | none ↦ (s, false)
      | some seen ↦
          if leb (seen + release_ms) now then (record s { seen_at = none }, false) else (s, true)
    ]

-- `note_client_command`; `allowed` is what `_actor_allowed` says.
unfoldable pub note_client_command : Text → Bool → Pause → Pause
note_client_command cmd allowed s = elim (asked cmd) [
  | none ↦ s
  | some pause ↦ if allowed then record s { latch = pause } else s
]

unfoldable pub reset_pause_state : Pause → Pause
reset_pause_state s = record { latch = false; seen_at = none }
