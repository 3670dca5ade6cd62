-- ===== src/Base/Text.antt =====
-- `strings.HasSuffix` and facts about texts.
use Prim.Native.String.{String, ◌++◌}
use Prim.Native.Nat.{ℕ, zero, suc, ◌/◌, ◌%◌}
use mathlib.Core.Bool.{Bool, false, ◌||◌}
use mathlib.Core.List.{List, [], ◌∷◌}
use file_pubsub.Base.Tests.{◌==◌, string_eq}

-- Some tail of the text is the suffix.
unfoldable pub has_suffix : String → String → Bool
has_suffix String.[] suffix = String.[] == suffix
has_suffix (String.◌∷◌ c s) suffix = String.◌∷◌ c s == suffix || has_suffix s suffix

abbrev pub nth : ℕ → List String → String
nth n [] = ""
nth zero (d ∷ ds) = d
nth (suc n) (d ∷ ds) = nth n ds

abbrev pub digit : ℕ → String
digit n = nth n ("0" ∷ "1" ∷ "2" ∷ "3" ∷ "4" ∷ "5" ∷ "6" ∷ "7" ∷ "8" ∷ "9" ∷ [])

-- The verb %d: a number has at most as many digits as its fuel, one more than itself.
unfoldable pub decimal_with : ℕ → ℕ → String
decimal_with zero n = ""
decimal_with (suc fuel) n = elim (n / 10) [
  | zero ↦ digit (n % 10)
  | suc q ↦ decimal_with fuel (suc q) ++ digit (n % 10)
]

unfoldable pub decimal : ℕ → String
unfolding decimal_with
decimal n = decimal_with (suc n) n

unfoldable pub has_slash : String → Bool
has_slash String.[] = false
has_slash (String.◌∷◌ c s) = String.◌∷◌ c String.[] == "/" || has_slash s
