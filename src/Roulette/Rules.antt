-- ===== src/Roulette/Rules.antt =====
-- The rules in a cvar: `_amount`, `parse_rules` and `rule_for` of item_roulette.py.
use qlsm_extra.Base.{
  ℕ, ◌≡◌, refl, Bool, true, false, not, ◌&&◌, ◌||◌, Option, none, some, List, [], ◌∷◌,
  if◌then◌else◌,
}
use qlsm_extra.Base.Text.{Text, codes, text_eq, strip, split, partition, is_digit, unsigned}
use qlsm_extra.Pause.Commands.{lower}
use qlsm_extra.Roulette.Table.{Table, find, set, or_else}

abbrev all_digits : Text → Bool
all_digits [] = true
all_digits (c ∷ s) = is_digit c && all_digits s

abbrev is_empty : Text → Bool
is_empty [] = true
is_empty (_ ∷ _) = false

-- What an amount may be: `stock` is Python's None, `bad` the ValueError.
pub data Amount : Type 0 where
  stock bad : Amount
  fixed : ℕ → Amount

abbrev fixed_of : Option ℕ → Amount
fixed_of none = Amount.bad
fixed_of (some n) = Amount.fixed n

-- `_amount`
unfoldable pub amount : Text → Amount
amount text =
    let s = strip text in
    if is_empty s || text_eq s (codes "*")
    then Amount.stock
    else if not (all_digits s)
    then Amount.bad
    else fixed_of (unsigned s)

-- The amounts of a rule: give and take, where `none` is None.
abbrev pub Rule : Type 0
Rule = Option ℕ × Option ℕ

abbrev rule_of : Amount → Amount → Option Rule
rule_of Amount.bad take = none
rule_of give Amount.bad = none
rule_of Amount.stock Amount.stock = some (none, none)
rule_of Amount.stock (Amount.fixed t) = some (none, some t)
rule_of (Amount.fixed g) Amount.stock = some (some g, none)
rule_of (Amount.fixed g) (Amount.fixed t) = some (some g, some t)

abbrev set_rule : Text → Option Rule → Table Rule → Table Rule
set_rule key none rules = rules
set_rule key (some rule) rules = set key rule rules

-- One token of `parse_rules`: the rules with its rule, or as they are.
unfoldable pub add_token : Text → Table Rule → Table Rule
add_token token rules =
    let (key, found, value) = partition b'=' token in
    let (give, _, take) = partition b'/' value in
    if not found || (is_empty key || is_empty value)
    then rules
    else if is_empty (strip give) && is_empty (strip take)
    then rules
    else set_rule (lower (strip key)) (rule_of (amount give) (amount take)) rules

unfoldable pub add_tokens : List Text → Table Rule → Table Rule
add_tokens [] rules = rules
add_tokens (token ∷ tokens) rules = add_tokens tokens (add_token token rules)

-- `parse_rules`
unfoldable pub parse_rules : Text → Table Rule
parse_rules text = add_tokens (split text) []

-- `rule_for`
unfoldable pub rule_for : Table Rule → Text → Rule
rule_for rules key = or_else (or_else (none, none) (find (codes "default") rules)) (find key rules)

parse_stock :
    parse_rules (codes "ra=100/66 GA=*/33 sg=10 x=1/y")
    ≡ (codes "ra", (some 100, some 66))
      ∷ (codes "ga", (none, some 33))
      ∷ (codes "sg", (some 10, none))
      ∷ []
unfolding parse_rules add_tokens add_token amount split partition strip lower unsigned
parse_stock = refl
