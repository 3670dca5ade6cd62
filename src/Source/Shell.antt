-- ===== src/Source/Shell.antt =====
-- internal/gateway/source/scp.go: shellQuote, against how a POSIX shell reads quotes.
use Prim.Native.Char.{Char}
use Prim.Native.String.{◌++◌ as append}
use Prim.Native.String.append as Append
use text.Mathlib.TextLemmas.{append_assoc}
use file_pubsub.Base.{
  String, ◌≡◌, refl, sym, ◌∙◌, ap, arith, false, Option, none, some, ◌==◌, string_eq, eq_iff,
  if◌then◌else◌, Bool-cases, inl, inr,
}

abbrev one : Char → String
one c = String.◌∷◌ c String.[]

-- strings.ReplaceAll(s, "'", `'\''`).
unfoldable pub replace_quotes : String → String
replace_quotes String.[] = ""
replace_quotes (String.◌∷◌ c s) =
    let rest = replace_quotes s in if one c == "'" then append "'\\''" rest else String.◌∷◌ c rest

unfoldable pub shell_quote : String → String
unfolding replace_quotes
shell_quote s = append "'" (append (replace_quotes s) "'")

-- Where the shell stands in a word.
pub data Quoting : Type 0 where
  outside inside escaped : Quoting

abbrev more : Option String → String → Option String
more none c = none
more (some w) c = some (append c w)

-- The word that a POSIX shell makes of a text with single quotes and backslashes: nothing has a
-- meaning inside quotes, and a backslash takes the next character as it is. A text that is not one
-- complete word, by a blank or another special character outside of quotes or an open quote, is none.
unfoldable pub shell_word : Quoting → String → Option String
shell_word outside String.[] = some ""
shell_word inside String.[] = none
shell_word escaped String.[] = none
shell_word outside (String.◌∷◌ c s) =
    let quoted = shell_word inside s in
    let taken = shell_word escaped s in
    if one c == "'" then quoted else if one c == "\\" then taken else none
shell_word inside (String.◌∷◌ c s) =
    let closed = shell_word outside s in
    let on = shell_word inside s in if one c == "'" then closed else more on (one c)
shell_word escaped (String.◌∷◌ c s) = more (shell_word outside s) (one c)

front : (c : Char) (s : String) → append (one c) s ≡ String.◌∷◌ c s
front c s = Append.cons c "" s ∙ ap (λ x. String.◌∷◌ c x) (Append.nil s)

shell_word-other :
    (c : Char) (s : String)
    → (one c == "'") ≡ false
    → shell_word inside (String.◌∷◌ c s) ≡ more (shell_word inside s) (one c)
unfolding shell_word
shell_word-other c s h = rw h refl

-- A quote that was replaced is read back as a quote.
shell_word-escape :
    (t : String) → shell_word inside (append "'\\''" t) ≡ more (shell_word inside t) "'"
unfolding shell_word
shell_word-escape t = ap (shell_word inside) opened
  where
    opened : append "'\\''" t ≡ String.◌∷◌ "'" (String.◌∷◌ "\\" (String.◌∷◌ "'" (String.◌∷◌ "'" t)))
    opened =
        Append.cons "'" "\\''" t
        ∙ ap (λ x. String.◌∷◌ "'" x)
            (Append.cons "\\" "''" t
              ∙ ap (λ x. String.◌∷◌ "\\" x)
                  (Append.cons "'" "'" t
                    ∙ ap (λ x. String.◌∷◌ "'" x)
                        (Append.cons "'" "" t ∙ ap (λ x. String.◌∷◌ "'" x) (Append.nil t))))

shell_word-replace_quotes :
    (s : String) → shell_word inside (append (replace_quotes s) "'") ≡ some s
unfolding replace_quotes shell_word
shell_word-replace_quotes String.[] = refl
shell_word-replace_quotes (String.◌∷◌ c s) = elim (Bool-cases (one c == "'")) [
  | inl e ↦
      let same : one c ≡ "'" = ground (arith, eq_iff (one c) "'") in
      rw e (
        ap (shell_word inside) (append_assoc "'\\''" (replace_quotes s) "'")
        ∙ shell_word-escape (append (replace_quotes s) "'")
        ∙ ap (λ w. more w "'") (shell_word-replace_quotes s)
        ∙ ap (λ x. some (append x s)) (sym same)
        ∙ ap some (front c s))
  | inr e ↦ rw e (
      ap (shell_word inside) (Append.cons c (replace_quotes s) "'")
      ∙ shell_word-other c (append (replace_quotes s) "'") e
      ∙ ap (λ w. more w (one c)) (shell_word-replace_quotes s)
      ∙ ap some (front c s))
]

-- What the shell makes of a quoted text is the text: no character of it has another meaning.
pub shell_word-shell_quote : (s : String) → shell_word outside (shell_quote s) ≡ some s
unfolding shell_quote shell_word
shell_word-shell_quote s =
    let body = append (replace_quotes s) "'" in
    ap (shell_word outside) (front "'" body) ∙ shell_word-replace_quotes s
