-- ===== src/Runtime/Names.antt =====
-- internal/runtime/daemon.go: identity and readBootID, the names under which a node holds a lease.
pub mod Filled
use Prim.Native.Char.{Char}
use Prim.Native.String.{◌++◌ as append}
use file_pubsub.Base.{
  ℕ, ◌/◌, ◌%◌, String, Bool, true, false, Option, none, some, List, [], ◌∷◌, ◌==◌, string_eq,
  contains, if◌then◌else◌,
}
use file_pubsub.Base.Text.{decimal, nth}
use file_pubsub.Usecase.Pipeline.{Identity}

-- What the system answers, none for an error. The names that are given are those of tests.
pub record Host : Type 0 where
  pub given_hostname : String
  pub given_boot_id : String
  pub hostname : Option String
  pub boot_id_file : Option String
  pub random : Option (List ℕ)  -- 16 bytes
  pub clock : ℕ

abbrev one : Char → String
one c = String.◌∷◌ c String.[]

abbrev is_space : String → Bool
is_space c = contains c (" " ∷ "\t" ∷ "\n" ∷ "\r" ∷ [])

-- strings.TrimSpace, for the blanks that such a file has.
unfoldable pub trim_left : String → String
trim_left String.[] = ""
trim_left (String.◌∷◌ c s) =
    let rest = trim_left s in if is_space (one c) then rest else String.◌∷◌ c s

abbrev onto : Char → String → String
onto c String.[] = if is_space (one c) then "" else one c
onto c (String.◌∷◌ d s) = String.◌∷◌ c (String.◌∷◌ d s)

unfoldable pub trim_right : String → String
trim_right String.[] = ""
trim_right (String.◌∷◌ c s) = onto c (trim_right s)

unfoldable pub trim_space : String → String
unfolding trim_left trim_right
trim_space s = trim_right (trim_left s)

abbrev pub hex_digit : ℕ → String
hex_digit n = nth n (
    "0" ∷ "1" ∷ "2" ∷ "3" ∷ "4" ∷ "5" ∷ "6" ∷ "7" ∷ "8" ∷ "9" ∷ "a" ∷ "b" ∷ "c" ∷ "d" ∷ "e" ∷ "f"
    ∷ [])

-- hex.EncodeToString.
unfoldable pub encode_hex : List ℕ → String
encode_hex [] = ""
encode_hex (b ∷ bs) = append (hex_digit (b / 16)) (append (hex_digit (b % 16)) (encode_hex bs))

unfoldable pub random_id : Host → Option (List ℕ) → String
unfolding encode_hex decimal
random_id h none = append "boot-" (decimal h.clock)
random_id h (some bytes) = encode_hex bytes

unfoldable pub filed_id : Host → Option String → String
unfolding trim_space random_id
filed_id h none = random_id h h.random
filed_id h (some text) = if trim_space text == "" then random_id h h.random else trim_space text

unfoldable pub read_boot_id : Host → String
unfolding filed_id
read_boot_id h = filed_id h h.boot_id_file

abbrev pub known_host : Option String → String
known_host none = "unknown-host"
known_host (some name) = if name == "" then "unknown-host" else name

unfoldable pub identity : Host → Identity
unfolding read_boot_id
identity h = record {
  hostname = if h.given_hostname == "" then known_host h.hostname else h.given_hostname;
  boot_id = if h.given_boot_id == "" then read_boot_id h else h.given_boot_id;
}
