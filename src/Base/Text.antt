-- ===== src/Base/Text.antt =====
-- Python's text operations on lists of code points, for ASCII text: `split`, `strip`, `partition`,
-- `int` and `str`.
use Prim.Native.Char.{code}
use Prim.Native.Nat.{ℕ, ◌+◌, ◌-◌, ◌*◌}
use Prim.Native.String.{String}
use mathlib.Core.Path.{◌≡◌, refl}
use mathlib.Core.Bool.{Bool, true, false, ◌&&◌, ◌||◌}
use mathlib.Core.Option
use mathlib.Core.Option.{Option, none, some}
use mathlib.Core.List.{List, [], ◌∷◌, reverse}
use qlsm_extra.Base.Tests.{leb, ◌==◌, if◌then◌else◌}
use qlsm_extra.Base.Int.{ℤ, pos, negsuc, neg}

abbrev pub Text : Type 0
Text = List ℕ

abbrev pub codes : String → Text
codes String.[] = []
codes (String.◌∷◌ c s) = code c ∷ codes s

abbrev pub text_eq : Text → Text → Bool
text_eq [] [] = true
text_eq [] (_ ∷ _) = false
text_eq (_ ∷ _) [] = false
text_eq (a ∷ s) (b ∷ t) = if a == b then text_eq s t else false

-- Tab to carriage return, the four separators, and the space.
abbrev pub is_space : ℕ → Bool
is_space c = (leb 9 c && leb c 13) || (leb 28 c && leb c 32)

-- `s.startswith(prefix)`
unfoldable pub starts_with : Text → Text → Bool
starts_with [] cs = true
starts_with (p ∷ ps) [] = false
starts_with (p ∷ ps) (c ∷ cs) = if p == c then starts_with ps cs else false

-- `s.lstrip()`, and `s.strip()`
unfoldable pub lstrip : Text → Text
lstrip [] = []
lstrip (c ∷ s) = if is_space c then lstrip s else c ∷ s

unfoldable pub strip : Text → Text
unfolding lstrip
strip s = reverse (lstrip (reverse (lstrip s)))

-- `s.split()`: the words of `s`; `word` holds the last letters read, the last one first.
unfoldable pub split_from : Text → Text → List Text
split_from [] [] = []
split_from (c ∷ word) [] = reverse (c ∷ word) ∷ []
split_from [] (c ∷ s) = if is_space c then split_from [] s else split_from (c ∷ []) s
split_from (d ∷ word) (c ∷ s) =
    let rest = split_from [] s in
    let on = split_from (c ∷ d ∷ word) s in if is_space c then reverse (d ∷ word) ∷ rest else on

unfoldable pub split : Text → List Text
unfolding split_from
split s = split_from [] s

-- `s.partition(sep)` for one character: what stands before it, whether it was found, and what
-- follows it.
unfoldable pub partition : ℕ → Text → Text × Bool × Text
partition sep [] = ([], false, [])
partition sep (c ∷ s) =
    let (before, found, after) = partition sep s in
    if c == sep then ([], true, s) else (c ∷ before, found, after)

abbrev pub is_digit : ℕ → Bool
is_digit c = leb b'0' c && leb c b'9'

-- The digits of `int(s)` after the first, with single underscores between them; `acc` is the value
-- so far.
unfoldable pub digits_from : ℕ → Text → Option ℕ
digits_from acc [] = some acc
digits_from acc (c ∷ []) = if is_digit c then some (acc * 10 + (c - b'0')) else none
digits_from acc (c ∷ d ∷ s) =
    let plain = digits_from (acc * 10 + (c - b'0')) (d ∷ s) in
    let skipped = digits_from acc (d ∷ s) in
    if is_digit c then plain else if (c == b'_') && is_digit d then skipped else none

unfoldable pub unsigned : Text → Option ℕ
unfolding digits_from
unsigned [] = none
unsigned (c ∷ s) = if is_digit c then digits_from (c - b'0') s else none

signed : Text → Option ℤ
unfolding unsigned
signed [] = none
signed (c ∷ s) =
    if c == b'-'
    then Option.map neg (unsigned s)
    else if c == b'+'
    then Option.map pos (unsigned s)
    else Option.map pos (unsigned (c ∷ s))

-- `int(s)`, with `none` for the ValueError.
unfoldable pub int : Text → Option ℤ
unfolding signed strip
int s = signed (strip s)

int_padded : int (codes " -1_200 ") ≡ some (negsuc 1199)
unfolding int
int_padded = refl

split_words : split (codes " rl:2  lg:1 ") ≡ codes "rl:2" ∷ codes "lg:1" ∷ []
unfolding split
split_words = refl

partition_missing : partition b':' (codes "rl") ≡ (codes "rl", false, [])
unfolding partition
partition_missing = refl
