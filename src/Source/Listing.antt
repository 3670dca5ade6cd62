-- ===== src/Source/Listing.antt =====
-- internal/gateway/source/scp.go: parseSCPList.
pub mod Numerals
pub mod Read
use Prim.Native.Char.{Char}
use file_pubsub.Base.{
  ℕ, zero, suc, ◌+◌, ◌-◌, ◌*◌, ◌^◌, String, Option, none, some, List, [], ◌∷◌, ◌==◌, string_eq, leb,
  ltb, if◌then◌else◌, Result, ok, err, io_error, usage_error,
}
use file_pubsub.Base.Int.{ℤ, pos, negsuc}
use file_pubsub.Source.{validate_name}

abbrev pub one : Char → String
one c = String.◌∷◌ c String.[]

abbrev pub onto_first : Char → List String → List String
onto_first c [] = one c ∷ []
onto_first c (w ∷ ws) = String.◌∷◌ c w ∷ ws

-- strings.Split at a separator of one character.
unfoldable pub split : String → String → List String
split sep String.[] = "" ∷ []
split sep (String.◌∷◌ c s) =
    let rest = split sep s in if one c == sep then "" ∷ rest else onto_first c rest

abbrev pub onto_left : Char → Option (String × String) → Option (String × String)
onto_left c none = none
onto_left c (some (a, b)) = some (String.◌∷◌ c a, b)

-- The parts before and after the first separator.
unfoldable pub cut : String → String → Option (String × String)
cut sep String.[] = none
cut sep (String.◌∷◌ c s) =
    let rest = cut sep s in if one c == sep then some ("", s) else onto_left c rest

-- The three parts of strings.SplitN(line, " ", 3), or none when there are fewer.
abbrev pub second_cut : String → Option (String × String) → Option (String × String × String)
second_cut a none = none
second_cut a (some (b, c)) = some (a, b, c)

unfoldable pub first_cut : Option (String × String) → Option (String × String × String)
unfolding cut
first_cut none = none
first_cut (some (a, rest)) = second_cut a (cut " " rest)

unfoldable pub split_three : String → Option (String × String × String)
unfolding cut first_cut
split_three line = first_cut (cut " " line)

abbrev index_from : ℕ → String → List String → Option ℕ
index_from n d [] = none
index_from n d (x ∷ xs) = if d == x then some n else index_from (n + 1) d xs

unfoldable pub digit_value : String → Option ℕ
digit_value d = index_from 0 d ("0" ∷ "1" ∷ "2" ∷ "3" ∷ "4" ∷ "5" ∷ "6" ∷ "7" ∷ "8" ∷ "9" ∷ [])

-- The value of digits that follow those of a value.
unfoldable pub digits_from : ℕ → String → Option ℕ
digits_from n String.[] = some n
digits_from n (String.◌∷◌ c s) = elim (digit_value (one c)) [
  | none ↦ none
  | some d ↦ digits_from (n * 10 + d) s
]

unfoldable pub digits : String → Option ℕ
digits String.[] = none
digits (String.◌∷◌ c s) = digits_from 0 (String.◌∷◌ c s)

abbrev negate : ℕ → ℤ
negate zero = pos zero
negate (suc n) = negsuc n

-- The range of int64.
abbrev pub positive : Option ℕ → Option ℤ
positive none = none
positive (some n) = if ltb n (2 ^ 63) then some (pos n) else none

abbrev negative : Option ℕ → Option ℤ
negative none = none
negative (some n) = if leb n (2 ^ 63) then some (negate n) else none

-- strconv.ParseInt(s, 10, 64).
unfoldable pub parse_int : String → Option ℤ
unfolding digits
parse_int String.[] = none
parse_int (String.◌∷◌ c s) =
    if one c == "-"
    then negative (digits s)
    else if one c == "+"
    then positive (digits s)
    else positive (digits (String.◌∷◌ c s))

-- strings.TrimPrefix(s, "./").
abbrev after_dot : String → String → String
after_dot whole String.[] = whole
after_dot whole (String.◌∷◌ c s) = if one c == "/" then s else whole

unfoldable pub trim_dot_slash : String → String
trim_dot_slash String.[] = ""
trim_dot_slash (String.◌∷◌ c s) =
    if one c == "." then after_dot (String.◌∷◌ c s) s else String.◌∷◌ c s

-- The FileInfo of a line, where the numbers of the text can be negative, and the time is in seconds
-- from 1970.
pub record Listed : Type 0 where
  pub name : String
  pub size : ℤ
  pub unix_time : ℤ

unfoldable pub named : String → ℤ → ℤ → Result Listed
unfolding validate_name
named name size mtime =
    if validate_name name
    then ok (record { name = name; size = size; unix_time = mtime })
    else err usage_error

unfoldable pub numbered : String → Option ℤ → Option ℤ → Result Listed
unfolding validate_name trim_dot_slash named
numbered path none mtime = err io_error
numbered path (some size) none = err io_error
numbered path (some size) (some mtime) = named (trim_dot_slash path) size mtime

unfoldable pub parts : Option (String × String × String) → Result Listed
unfolding parse_int numbered
parts none = err io_error
parts (some (size, mtime, path)) = numbered path (parse_int size) (parse_int mtime)

unfoldable pub parse_line : String → Result Listed
unfolding parts split_three
parse_line line = parts (split_three line)

abbrev pub collected : Result Listed → Result (List Listed) → Result (List Listed)
collected (err e) rest = err e
collected (ok f) (err e) = err e
collected (ok f) (ok fs) = ok (f ∷ fs)

unfoldable pub parse_lines : List String → Result (List Listed)
unfolding parse_line
parse_lines [] = ok []
parse_lines (line ∷ lines) =
    let rest = parse_lines lines in if line == "" then rest else collected (parse_line line) rest

unfoldable pub parse_scp_list : String → Result (List Listed)
unfolding parse_lines split
parse_scp_list out = parse_lines (split "\n" out)
