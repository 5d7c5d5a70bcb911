-- ===== src/Pause/Commands.antt =====
-- What a line of the console or the chat asks for: the text part of `note_client_command` in
-- stats_hub_pause.py.
use mathlib.Core.List.{reverse}
use qlsm_extra.Base.{
  ◌+◌, Bool, true, false, ◌&&◌, ◌||◌, Option, none, some, [], ◌∷◌, leb, ◌==◌, if◌then◌else◌, drop,
}
use qlsm_extra.Base.Text.{starts_with, Text, codes, text_eq, strip, lstrip, is_space}

-- `str.lower` on ASCII.
unfoldable pub lower : Text → Text
lower [] = []
lower (c ∷ cs) = (if leb 65 c && leb c 90 then c + 32 else c) ∷ lower cs

-- `text.split(None, 1)[1]` of a text without space at its ends, with `none` when there is one part.
unfoldable pub second_part : Text → Option Text
second_part [] = none
second_part (c ∷ cs) = if is_space c then some (lstrip cs) else second_part cs

strip_quotes_front : Text → Text
strip_quotes_front [] = []
strip_quotes_front (c ∷ cs) = if c == b'"' then strip_quotes_front cs else c ∷ cs

-- `.strip('"')`
unfoldable pub strip_quotes : Text → Text
unfolding strip_quotes_front
strip_quotes cs = reverse (strip_quotes_front (reverse (strip_quotes_front cs)))

-- `lower == word or lower.startswith(word + " ")`
unfoldable pub is_command : Text → Text → Text → Bool
is_command word word_space cs = text_eq cs word || starts_with word_space cs

-- The text without the words of a chat message; `none` is the early return.
unfoldable pub unsaid : Text → Option Text
unsaid cs =
    if starts_with (codes "say ") (lower cs) || starts_with (codes "say_team ") (lower cs)
    then elim (second_part cs) [ none ↦ none | some said ↦ some (strip_quotes (strip said)) ]
    else some cs

-- Without "!rcon " and "!".
unfoldable pub bare : Text → Text
bare cs =
    let after = if starts_with (codes "!rcon ") (lower cs) then strip (drop 6 cs) else cs in
    let low = lower after in if starts_with (codes "!") low then lstrip (drop 1 low) else low

-- Pause, unpause, or neither; the source tests `is_pause` first.
abbrev pub read_command : Text → Option Bool
read_command cs =
    if is_command (codes "pause") (codes "pause ") cs
    then some true
    else if is_command (codes "unpause") (codes "unpause ") cs
    then some false
    else none

unfoldable pub asked : Text → Option Bool
asked cmd = elim (strip cmd) [
  | [] ↦ none
  | c ∷ cs ↦ elim (unsaid (c ∷ cs)) [ none ↦ none | some said ↦ read_command (bare said) ]
]
