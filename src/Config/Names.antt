-- ===== src/Config/Names.antt =====
-- internal/config/validate.go: names that are safe as one element of a path.
use Prim.Native.Char.{code}
use file_pubsub.Base.{ℕ, String, Bool, true, false, not, ◌&&◌, ◌||◌, ◌==◌, nat_eq, string_eq, leb}

-- The class [A-Za-z0-9._-].
abbrev is_name_char : ℕ → Bool
is_name_char c =
    (leb b'A' c && leb c b'Z')
    || ((leb b'a' c && leb c b'z')
        || ((leb b'0' c && leb c b'9') || (c == b'.' || (c == b'_' || c == b'-'))))

abbrev all_name_chars : String → Bool
all_name_chars String.[] = true
all_name_chars (String.◌∷◌ c s) = is_name_char (code c) && all_name_chars s

-- namePattern, ^[A-Za-z0-9._-]+$.
abbrev matches_name_pattern : String → Bool
matches_name_pattern String.[] = false
matches_name_pattern (String.◌∷◌ c s) = all_name_chars (String.◌∷◌ c s)

unfoldable pub is_safe_name : String → Bool
is_safe_name name = not (name == ".") && (not (name == "..") && matches_name_pattern name)
