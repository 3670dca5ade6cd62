-- ===== src/Command/Flags.antt =====
-- FlagSet.Parse of Go's flag package, for flags that all take a text, as cmd/file-pubsub uses it.
pub mod Laws
use Prim.Native.Char.{code}
use Prim.Native.String.{◌++◌ as append}
use file_pubsub.Base.{
  ℕ, String, Bool, true, false, ◌&&◌, ◌||◌, Option, none, some, List, [], ◌∷◌, ◌==◌, nat_eq,
  string_eq, if◌then◌else◌, contains,
}
use file_pubsub.Base.Dict
use file_pubsub.Base.Dict.{Dict}

-- What one argument is.
pub data Arg : Type 0 where
  operand end_mark bad_syntax : Arg
  flag : String → Option String → Arg  -- the name, and the value after an equals sign

abbrev in_front : String → Arg → Arg
in_front c (flag name value) = flag (append c name) value
in_front c a = a

-- The name up to the first equals sign.
unfoldable pub split_value : String → Arg
split_value String.[] = flag "" none
split_value (String.◌∷◌ c s) =
    let rest = split_value s in
    if code c == b'=' then flag "" (some s) else in_front (String.◌∷◌ c String.[]) rest

-- After the dashes: a name does not start with a dash or an equals sign.
abbrev named : String → Arg
named String.[] = bad_syntax
named (String.◌∷◌ c s) =
    if code c == b'-' || code c == b'='
    then bad_syntax
    else in_front (String.◌∷◌ c String.[]) (split_value s)

abbrev after_dash : String → Arg
after_dash String.[] = operand
after_dash (String.◌∷◌ c s) =
    if code c == b'-' then (if s == "" then end_mark else named s) else named (String.◌∷◌ c s)

unfoldable pub classify : String → Arg
unfolding split_value
classify String.[] = operand
classify (String.◌∷◌ c s) = if code c == b'-' then after_dash s else operand

module _ (defined : List String) where
  -- parseOne over the arguments; the name is of the flag that waits for its value. The result is the
  -- flags that were set, or an error: bad syntax, a name that is not defined (-h and -help among
  -- them), or a value that is missing. The first operand ends the flags.
  unfoldable pub parse_loop :
      List String → Option String → Dict String String → Option (Dict String String)
  unfolding classify
  parse_loop [] none values = some values
  parse_loop [] (some name) values = none
  parse_loop (arg ∷ args) (some name) values = parse_loop args none (Dict.put values name arg)
  parse_loop (arg ∷ args) none values = elim (classify arg) [
    | operand ↦ some values
    | end_mark ↦ some values
    | bad_syntax ↦ none
    | flag name (some value) ↦
        let rest = parse_loop args none (Dict.put values name value) in
        if contains name defined then rest else none
    | flag name none ↦
        let rest = parse_loop args (some name) values in
        if contains name defined then rest else none
  ]

  unfoldable pub parse_flags : List String → Option (Dict String String)
  unfolding parse_loop
  parse_flags args = parse_loop args none []

-- A flag that was not set has its default, the empty text.
abbrev pub flag_value : Dict String String → String → String
flag_value values name = elim (Dict.get values name) [ none ↦ "" | some v ↦ v ]
