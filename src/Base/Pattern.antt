-- ===== src/Base/Pattern.antt =====
-- Go's path.Match for the patterns of the configuration.
use Prim.Native.Char.{Char}
use Prim.Native.String.{String, compare}
use Prim.Native.Nat.{Ordering}
use mathlib.Core.Bool.{Bool, true, false, not, ◌&&◌, ◌||◌}
use mathlib.Core.Option.{Option, none, some}
use mathlib.Core.List.{List, [], ◌∷◌}
use file_pubsub.Base.Tests.{◌==◌, string_eq, if◌then◌else◌}
use file_pubsub.Base.Lists.{any}

abbrev pub Range : Type 0
Range = String × String

pub data Piece : Type 0 where
  star : Piece
  one_char : Piece
  literal : String → Piece
  class : Bool → List Range → Piece  -- negated or not

-- Where the reading of a pattern stands.
pub data Mode : Type 0 where
  plain escaped opening : Mode
  low low_escaped : Bool → List Range → Mode
  after_low high high_escaped : Bool → List Range → String → Mode

abbrev one : Char → String
one c = String.◌∷◌ c String.[]

-- A range begins, or the class ends when it has one.
abbrev end_class : Bool → List Range → Option (Option Piece × Mode)
end_class negated [] = none
end_class negated (r ∷ rs) = some (some (class negated (r ∷ rs)), plain)

abbrev low_char : Bool → List Range → String → Option (Option Piece × Mode)
low_char negated rs c =
    if c == "]"
    then end_class negated rs
    else if c == "-"
    then none
    else if c == "\\"
    then some (none, low_escaped negated rs)
    else some (none, after_low negated rs c)

abbrev plain_char : String → Option (Option Piece × Mode)
plain_char c =
    if c == "*"
    then some (some star, plain)
    else if c == "?"
    then some (some one_char, plain)
    else if c == "["
    then some (none, opening)
    else if c == "\\"
    then some (none, escaped)
    else some (some (literal c), plain)

-- One character of the pattern; none for a malformed one.
abbrev read_char : Mode → String → Option (Option Piece × Mode)
read_char plain c = plain_char c
read_char escaped c = some (some (literal c), plain)
read_char opening c = if c == "^" then some (none, low true []) else low_char false [] c
read_char (low negated rs) c = low_char negated rs c
read_char (low_escaped negated rs) c = some (none, after_low negated rs c)
read_char (after_low negated rs lo) c =
    if c == "-" then some (none, high negated rs lo) else low_char negated ((lo, lo) ∷ rs) c
read_char (high negated rs lo) c =
    if c == "]" || c == "-"
    then none
    else if c == "\\"
    then some (none, high_escaped negated rs lo)
    else some (none, low negated ((lo, c) ∷ rs))
read_char (high_escaped negated rs lo) c = some (none, low negated ((lo, c) ∷ rs))

abbrev ended : Mode → Option (List Piece)
ended plain = some []
ended m = none

abbrev add_piece : Option Piece → Option (List Piece) → Option (List Piece)
add_piece q none = none
add_piece none (some ps) = some ps
add_piece (some p) (some ps) = some (p ∷ ps)

unfoldable pub read_pattern : Mode → String → Option (List Piece)
read_pattern m String.[] = ended m
read_pattern m (String.◌∷◌ c s) = elim (read_char m (one c)) [
  | none ↦ none
  | some (p, next) ↦ add_piece p (read_pattern next s)
]

abbrev at_most : String → String → Bool
at_most a b = elim (compare a b) [ Ordering.gt ↦ false | _ ↦ true ]

abbrev in_range : String → Range → Bool
in_range c (lo, hi) = at_most lo c && at_most c hi

abbrev fits : Piece → String → Bool
fits star c = false
fits one_char c = not (c == "/")
fits (literal d) c = c == d
fits (class negated rs) c = if negated then not (any (in_range c) rs) else any (in_range c) rs

-- A star stands for any text without a separator.
unfoldable pub star_then : (String → Bool) → String → Bool
star_then rest String.[] = rest String.[]
star_then rest (String.◌∷◌ c s) =
    let longer = star_then rest s in rest (String.◌∷◌ c s) || (not (one c == "/") && longer)

abbrev piece_then : Piece → (String → Bool) → String → Bool
piece_then p rest String.[] = false
piece_then p rest (String.◌∷◌ c s) = fits p (one c) && rest s

abbrev is_nothing : String → Bool
is_nothing s = s == ""

unfoldable pub matches_pieces : List Piece → String → Bool
unfolding star_then
matches_pieces [] s = is_nothing s
matches_pieces (star ∷ ps) s = star_then (matches_pieces ps) s
matches_pieces (p ∷ ps) s = piece_then p (matches_pieces ps) s

abbrev matched_name : Option (List Piece) → String → Option Bool
unfolding matches_pieces
matched_name none name = none
matched_name (some ps) name = some (matches_pieces ps name)

-- path.Match; none is ErrBadPattern, which a malformed pattern gives for every name.
unfoldable pub path_match : String → String → Option Bool
unfolding read_pattern matches_pieces
path_match pattern name = matched_name (read_pattern plain pattern) name
