-- ===== src/Runtime/Names/Filled.antt =====
-- internal/runtime/daemon.go: the names of a node are never empty.
use Prim.Native.Char.{Char}
use Prim.Native.String.{◌++◌ as append}
use Prim.Native.String.append as Append
use file_pubsub.Base.{
  ℕ, zero, suc, ◌/◌, ◌%◌, ◌<◌, String, ◌≡◌, ◌≢◌, refl, sym, ◌∙◌, ap, arith, Bool, true, false,
  Option, none, some, List, [], ◌∷◌, ◌==◌, string_eq, eq_iff, if◌then◌else◌, Bool-cases, inl, inr,
}
use file_pubsub.Base.Text.{decimal}
use file_pubsub.Runtime.Names.{
  Host, identity, known_host, read_boot_id, filed_id, random_id, encode_hex, hex_digit, trim_space,
}

-- A text with a character in it.
abbrev IsText : String → Type 0
IsText s = (c : Char) × (r : String) × (s ≡ String.◌∷◌ c r)

has_char : String → Bool
has_char String.[] = false
has_char (String.◌∷◌ c s) = true

text-filled : (s : String) → IsText s → (s == "") ≡ false
unfolding has_char
text-filled s (c, r, e) = elim (Bool-cases (s == "")) [
  | inl f ↦
      let empty : s ≡ "" = ground (arith, f, eq_iff s "") in
      absurd (ground (arith, ap has_char (sym e ∙ empty)))
  | inr f ↦ f
]

append-IsText : (s t : String) → IsText s → IsText (append s t)
append-IsText s t (c, r, e) = (c, append r t, ap (λ x. append x t) e ∙ Append.cons c r t)

-- What crypto/rand fills: at least one byte.
abbrev pub IsBytes : Option (List ℕ) → Type 0
IsBytes none = Unit {0}
IsBytes (some []) = true ≡ false
IsBytes (some (b ∷ bs)) = b < 256

hex_digit-IsText : (n : ℕ) → n < 16 → IsText (hex_digit n)
hex_digit-IsText zero h = ("0", "", refl)
hex_digit-IsText (suc zero) h = ("1", "", refl)
hex_digit-IsText (suc (suc zero)) h = ("2", "", refl)
hex_digit-IsText (suc (suc (suc zero))) h = ("3", "", refl)
hex_digit-IsText (suc (suc (suc (suc zero)))) h = ("4", "", refl)
hex_digit-IsText (suc (suc (suc (suc (suc zero))))) h = ("5", "", refl)
hex_digit-IsText (suc (suc (suc (suc (suc (suc zero)))))) h = ("6", "", refl)
hex_digit-IsText (suc (suc (suc (suc (suc (suc (suc zero))))))) h = ("7", "", refl)
hex_digit-IsText (suc (suc (suc (suc (suc (suc (suc (suc zero)))))))) h = ("8", "", refl)
hex_digit-IsText (suc (suc (suc (suc (suc (suc (suc (suc (suc zero))))))))) h = ("9", "", refl)
hex_digit-IsText (suc (suc (suc (suc (suc (suc (suc (suc (suc (suc zero)))))))))) h =
    ("a", "", refl)
hex_digit-IsText (suc (suc (suc (suc (suc (suc (suc (suc (suc (suc (suc zero))))))))))) h =
    ("b", "", refl)
hex_digit-IsText (suc (suc (suc (suc (suc (suc (suc (suc (suc (suc (suc (suc zero)))))))))))) h =
    ("c", "", refl)
hex_digit-IsText (suc (suc (suc (suc (suc (suc (suc (suc (suc (suc (suc (suc (suc zero)))))))))))))
      h =
    ("d", "", refl)
hex_digit-IsText
      (suc (suc (suc (suc (suc (suc (suc (suc (suc (suc (suc (suc (suc (suc zero)))))))))))))) h =
    ("e", "", refl)
hex_digit-IsText
      (suc (suc (suc (suc (suc (suc (suc (suc (suc (suc (suc (suc (suc (suc (suc zero)))))))))))))))
      h =
    ("f", "", refl)
hex_digit-IsText
      (suc
        (suc (suc (suc (suc (suc (suc (suc (suc (suc (suc (suc (suc (suc (suc (suc n))))))))))))))))
      h =
    absurd (omega (arith, h))

random_id-IsText : (h : Host) (r : Option (List ℕ)) → IsBytes r → IsText (random_id h r)
unfolding random_id encode_hex
random_id-IsText h none b = append-IsText "boot-" (decimal h.clock) ("b", "oot-", refl)
random_id-IsText h (some []) b = absurd (ground (arith, b))
random_id-IsText h (some (b ∷ bs)) small =
    append-IsText (hex_digit (b / 16)) (append (hex_digit (b % 16)) (encode_hex bs))
      (hex_digit-IsText (b / 16) (omega (arith, small)))

filed_id-filled :
    (h : Host) (file : Option String) → IsBytes h.random → (filed_id h file == "") ≡ false
unfolding filed_id
filed_id-filled h none b = text-filled (random_id h h.random) (random_id-IsText h h.random b)
filed_id-filled h (some text) b = elim (Bool-cases (trim_space text == "")) [
  | inl e ↦ rw e (text-filled (random_id h h.random) (random_id-IsText h h.random b))
  | inr e ↦ rw e e
]

known_host-filled : (name : Option String) → (known_host name == "") ≡ false
known_host-filled none = refl
known_host-filled (some name) = elim (Bool-cases (name == "")) [
  | inl e ↦ rw e refl
  | inr e ↦ rw e e
]

-- A node has a host name and a boot id, neither of them empty, whatever the system refuses to tell:
-- a lease never names the empty node.
pub identity-IsFilled :
    (h : Host) → IsBytes h.random → ((identity h).hostname ≢ "") × ((identity h).boot_id ≢ "")
unfolding identity read_boot_id
identity-IsFilled h b = (
  not_empty (identity h).hostname
      (chosen h.given_hostname (known_host h.hostname) (known_host-filled h.hostname)),
  not_empty (identity h).boot_id
      (chosen h.given_boot_id (read_boot_id h) (filed_id-filled h h.boot_id_file b)),
)
  where
    not_empty : (s : String) → (s == "") ≡ false → s ≢ ""
    not_empty s e = ground (arith, e, eq_iff s "")

    chosen :
        (given other : String)
        → (other == "") ≡ false
        → ((if given == "" then other else given) == "") ≡ false
    chosen given other e = elim (Bool-cases (given == "")) [ inl g ↦ rw g e | inr g ↦ rw g g ]
