-- ===== src/Pause/Tests.antt =====
-- Runs of the pause detection.
use qlsm_extra.Base.{◌≡◌, refl, true, false, ◌||◌, none, some, List, [], ◌∷◌, arith}
use qlsm_extra.Base.Text.{starts_with, codes, strip, lstrip}
use qlsm_extra.Pause.{Cvar, cvar_truthy, paused_active}
use qlsm_extra.Pause.Commands.{lower, second_part, strip_quotes, is_command, unsaid, bare, asked}
use qlsm_extra.Pause.Release.{Input, take_all, latched, last_raw, recent, take_all-paused}

asked_in_chat : asked (codes "say \"!rcon  PAUSE now\"") ≡ some true
unfolding asked unsaid bare lower starts_with second_part strip_quotes strip lstrip is_command
asked_in_chat = refl

asked_unpause : asked (codes "!unpause") ≡ some false
unfolding asked unsaid bare lower starts_with second_part strip_quotes strip lstrip is_command
asked_unpause = refl

asked_other : asked (codes "say pauses") ≡ none
unfolding asked unsaid bare lower starts_with second_part strip_quotes strip lstrip is_command
asked_other = refl

truthy_no : cvar_truthy (Cvar.text (codes " No ")) ≡ false
unfolding cvar_truthy lower strip lstrip
truthy_no = refl

-- A timeout that the engine reports, a spoofed command, and the end of the timeout.
abbrev timeout : List Input
timeout =
    Input.poll 1000 true
    ∷ Input.line (codes "pause") false
    ∷ Input.poll 2000 false
    ∷ Input.poll 3500 false
    ∷ []

take_all-paused_example :
    (paused_active false 4000 (take_all timeout (record { latch = false; seen_at = none }))).1
    ≡ (false || (latched false timeout || recent 4000 (last_raw none timeout)))
take_all-paused_example =
    take_all-paused timeout 4000 false (omega arith, (omega arith, (omega arith, omega arith)))
