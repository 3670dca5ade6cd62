-- ===== src/Config/Expand.antt =====
-- internal/config/config.go: ExpandEnv, over the characters of the file.
pub mod Missing
use Prim.Native.Char.{code}
use Prim.Native.String.{◌++◌ as append}
use file_pubsub.Base.{
  ℕ, zero, suc, ◌+◌, String, Bool, true, false, ◌&&◌, ◌||◌, Option, none, some, List, [], ◌∷◌, ◌++◌,
  ◌==◌, nat_eq, string_eq, leb, if◌then◌else◌, contains,
}

-- The classes [A-Za-z_] and [A-Za-z0-9_].
abbrev is_name_start : ℕ → Bool
is_name_start c = (leb b'A' c && leb c b'Z') || ((leb b'a' c && leb c b'z') || c == b'_')

abbrev is_name_part : ℕ → Bool
is_name_part c = is_name_start c || (leb b'0' c && leb c b'9')

abbrev first_char : String → ℕ
first_char String.[] = 0
first_char (String.◌∷◌ c s) = code c

abbrev more : String → Option (String × ℕ) → Option (String × ℕ)
more c none = none
more c (some (name, k)) = some (append c name, suc k)

-- The rest of a name up to the closing brace, with its length.
unfoldable pub name_end : String → Option (String × ℕ)
name_end String.[] = none
name_end (String.◌∷◌ c s) =
    let rest = name_end s in
    if code c == b'}'
    then some ("", 0)
    else if is_name_part (code c)
    then more (String.◌∷◌ c String.[]) rest
    else none

abbrev after_brace : String → Option (String × ℕ)
after_brace s = if is_name_start (first_char s) then name_end s else none

abbrev after_dollar : String → Option (String × ℕ)
after_dollar String.[] = none
after_dollar (String.◌∷◌ c s) = if code c == b'{' then after_brace s else none

-- envRefPattern at the head of the text: the name, and its length.
unfoldable pub reference : String → Option (String × ℕ)
unfolding name_end
reference String.[] = none
reference (String.◌∷◌ c s) = if code c == b'$' then after_dollar s else none

-- The variables that are not set, each once, in the order of the first reference.
abbrev pub note : String → List String → List String
note name missing = if contains name missing then missing else missing ++ name ∷ []

module _ (lookup_env : String → Option String) where
  abbrev pub value_of : String → String
  value_of name = elim (lookup_env name) [
    | none ↦ append "${" (append name "}")
    | some value ↦ value
  ]

  abbrev pub missing_after : String → List String → List String
  missing_after name missing = elim (lookup_env name) [
    | none ↦ note name missing
    | some value ↦ missing
  ]

  -- ReplaceAllFunc. The number is how much of a reference is still to be passed over.
  unfoldable pub expand_from : String → ℕ → List String → String × List String
  unfolding reference
  expand_from String.[] k missing = ("", missing)
  expand_from (String.◌∷◌ c s) (suc k) missing = expand_from s k missing
  expand_from (String.◌∷◌ c s) zero missing = elim (reference (String.◌∷◌ c s)) [
    | none ↦ let (text, found) = expand_from s zero missing in (String.◌∷◌ c text, found)
    | some (name, n) ↦
        let (text, found) = expand_from s (n + 2) (missing_after name missing) in
        (append (value_of name) text, found)
  ]

  unfoldable pub expand_env : String → String × List String
  unfolding expand_from
  expand_env raw = expand_from raw zero []
