-- ===== src/Source/Listing/Numerals.antt =====
-- strconv.ParseInt as parseSCPList uses it, against the decimal numeral of a number.
use Prim.Native.Char.{Char}
use Prim.Native.String.{◌++◌ as append}
use Prim.Native.String.append as Append
use file_pubsub.Base.{
  ℕ, zero, suc, ◌+◌, ◌*◌, ◌/◌, ◌%◌, ◌^◌, ◌<◌, String, ◌≡◌, ◌⊎◌, refl, sym, ◌∙◌, ap, arith, Bool,
  true, false, not, ◌&&◌, Option, none, some, ◌==◌, string_eq, eq_iff, ltb, Bool-cases,
  Option-cases, inl, inr,
}
use file_pubsub.Base.Int.{pos}
use file_pubsub.Base.Text.{decimal, decimal_with, digit}
use file_pubsub.Source.Listing.{one, digit_value, digits_from, digits, parse_int}

-- The text does not have the character.
unfoldable pub lacks : Char → String → Bool
lacks k String.[] = true
lacks k (String.◌∷◌ c s) = not (one c == one k) && lacks k s

abbrev next_digit : String → ℕ → Option ℕ → Option ℕ
next_digit s n none = none
next_digit s n (some d) = digits_from (n * 10 + d) s

digits_from-step :
    (n : ℕ) (c : Char) (s : String)
    → digits_from n (String.◌∷◌ c s) ≡ next_digit s n (digit_value (one c))
unfolding digits_from
digits_from-step n c s = elim (Option-cases (digit_value (one c))) [
  | inl e ↦ rw (e, digits_from) refl
  | inr (d, e) ↦ rw (e, digits_from) refl
]

-- A character that is no digit is not in a numeral.
digits_from-lacks :
    (k : Char) (n m : ℕ) (s : String)
    → digit_value (one k) ≡ none
    → digits_from n s ≡ some m
    → lacks k s ≡ true
unfolding lacks
digits_from-lacks k n m String.[] strange h = refl
digits_from-lacks k n m (String.◌∷◌ c s) strange h = elim (Option-cases (digit_value (one c))) [
  | inl e ↦ absurd (ground (arith, sym h ∙ digits_from-step n c s ∙ ap (next_digit s n) e))
  | inr (d, e) ↦
      let rest =
        digits_from-lacks k (n * 10 + d) m s strange
          (sym (digits_from-step n c s ∙ ap (next_digit s n) e) ∙ h) in
      elim (Bool-cases (one c == one k)) [
        | inl same ↦
            let equal : one c ≡ one k = ground (arith, same, eq_iff (one c) (one k)) in
            absurd (ground (arith, sym e ∙ ap digit_value equal ∙ strange))
        | inr other ↦ rw other rest
      ]
]

digits_from-digit : (n d : ℕ) → d < 10 → digits_from n (digit d) ≡ some (n * 10 + d)
unfolding digits_from digit_value
digits_from-digit n zero h = refl
digits_from-digit n (suc zero) h = refl
digits_from-digit n (suc (suc zero)) h = refl
digits_from-digit n (suc (suc (suc zero))) h = refl
digits_from-digit n (suc (suc (suc (suc zero)))) h = refl
digits_from-digit n (suc (suc (suc (suc (suc zero))))) h = refl
digits_from-digit n (suc (suc (suc (suc (suc (suc zero)))))) h = refl
digits_from-digit n (suc (suc (suc (suc (suc (suc (suc zero))))))) h = refl
digits_from-digit n (suc (suc (suc (suc (suc (suc (suc (suc zero)))))))) h = refl
digits_from-digit n (suc (suc (suc (suc (suc (suc (suc (suc (suc zero))))))))) h = refl
digits_from-digit n (suc (suc (suc (suc (suc (suc (suc (suc (suc (suc d)))))))))) h =
    absurd (omega (arith, h))

abbrev then_from : String → Option ℕ → Option ℕ
then_from s none = none
then_from s (some n) = digits_from n s

digits_from-append :
    (n : ℕ) (a b : String) → digits_from n (append a b) ≡ then_from b (digits_from n a)
unfolding digits_from
digits_from-append n String.[] b = ap (digits_from n) (Append.nil b)
digits_from-append n (String.◌∷◌ c a) b = elim (Option-cases (digit_value (one c))) [
  | inl e ↦ ap (digits_from n) (Append.cons c a b) ∙ rw (e, digits_from) refl
  | inr (d, e) ↦
      ap (digits_from n) (Append.cons c a b)
      ∙ rw (e, digits_from) (digits_from-append (n * 10 + d) a b)
]

-- A numeral's value, with enough fuel for its digits.
zero_or_more : (n : ℕ) → (n ≡ zero) ⊎ (0 < n)
zero_or_more zero = inl refl
zero_or_more (suc n) = inr (omega arith)

-- The recursive calls' equation comes as a hypothesis.
digits_from-quotient :
    (fuel n q : ℕ)
    → n / 10 ≡ q
    → digits_from 0 (decimal_with fuel q) ≡ some q ⊎ (q ≡ zero)
    → digits_from 0 (decimal_with (suc fuel) n) ≡ some n
unfolding decimal_with
digits_from-quotient fuel n zero e h =
    rw (e, decimal_with) (digits_from-digit 0 (n % 10) (omega arith) ∙ ap some (omega (arith, e)))
digits_from-quotient fuel n (suc q) e (inr h) = absurd (omega (arith, h))
digits_from-quotient fuel n (suc q) e (inl h) =
    rw (e, decimal_with)
      (digits_from-append 0 (decimal_with fuel (suc q)) (digit (n % 10))
        ∙ ap (then_from (digit (n % 10))) h
        ∙ digits_from-digit (suc q) (n % 10) (omega arith)
        ∙ ap some (omega (arith, e)))

-- A numeral's value, with enough fuel for its digits.
digits_from-decimal_with : (fuel n : ℕ) → n < fuel → digits_from 0 (decimal_with fuel n) ≡ some n
digits_from-decimal_with zero n h = absurd (omega (arith, h))
digits_from-decimal_with (suc fuel) n h =
    digits_from-quotient fuel n (n / 10) refl (elim (zero_or_more (n / 10)) [
      | inl e ↦ inr e
      | inr more ↦ inl (digits_from-decimal_with fuel (n / 10) (omega (arith, h, more)))
    ])

digits-filled : (n : ℕ) (s : String) → digits_from 0 s ≡ some (suc n) → digits s ≡ some (suc n)
unfolding digits digits_from
digits-filled n String.[] h = absurd (ground (arith, h))
digits-filled n (String.◌∷◌ c s) h = h

digits-decimal : (n : ℕ) → digits (decimal n) ≡ some n
unfolding digits decimal decimal_with digits_from digit_value
digits-decimal zero = refl
digits-decimal (suc n) =
    digits-filled n (decimal (suc n)) (digits_from-decimal_with (suc (suc n)) (suc n) (omega arith))

digits_from-digits : (s : String) (n : ℕ) → digits s ≡ some n → digits_from 0 s ≡ some n
unfolding digits
digits_from-digits String.[] n h = absurd (ground (arith, h))
digits_from-digits (String.◌∷◌ c s) n h = h

parse_int-positive :
    (s : String) (n : ℕ) → digits s ≡ some n → ltb n (2 ^ 63) ≡ true → parse_int s ≡ some (pos n)
unfolding parse_int digits lacks digit_value
parse_int-positive String.[] n h b = absurd (ground (arith, h))
parse_int-positive (String.◌∷◌ c s) n h b =
    rw (unsigned "-" refl) (rw (unsigned "+" refl) (rw h (rw b refl)))
  where
    unsigned : (k : Char) → digit_value (one k) ≡ none → (one c == one k) ≡ false
    unsigned k strange = elim (Bool-cases (one c == one k)) [
      | inl e ↦ absurd (ground (arith, sym (digits_from-lacks k 0 n (String.◌∷◌ c s) strange h), e))
      | inr e ↦ e
    ]

-- The text is that of the number, in one word.
abbrev pub IsNumeral : String → ℕ → Type 0
IsNumeral s n = (parse_int s ≡ some (pos n)) × (lacks " " s ≡ true) × (lacks "\n" s ≡ true)

pub decimal-IsNumeral : (n : ℕ) → ltb n (2 ^ 63) ≡ true → IsNumeral (decimal n) n
unfolding digit_value
decimal-IsNumeral n b =
    let value = digits_from-digits (decimal n) n (digits-decimal n) in
    (
      parse_int-positive (decimal n) n (digits-decimal n) b,
      digits_from-lacks " " 0 n (decimal n) refl value,
      digits_from-lacks "\n" 0 n (decimal n) refl value,
    )
