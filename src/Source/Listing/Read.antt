-- ===== src/Source/Listing/Read.antt =====
-- internal/gateway/source/scp.go: parseSCPList against what the command prints.
use Prim.Native.Char.{Char}
use Prim.Native.String.{◌++◌ as append}
use Prim.Native.String.append as Append
use file_pubsub.Base.{
  ℕ, ◌^◌, ltb, String, ◌≡◌, refl, sym, ◌∙◌, ap, arith, true, false, some, List, [], ◌∷◌, map, All,
  ◌==◌, string_eq, eq_iff, ok, Bool-cases, inl, inr,
}
use file_pubsub.Base.Int.{pos}
use file_pubsub.Base.Text.{decimal}
use file_pubsub.Source.Listing.Numerals.{lacks, decimal-IsNumeral}
use file_pubsub.Source.{validate_name}
use file_pubsub.Source.Listing.{
  one, cut, first_cut, split, split_three, onto_first, onto_left, trim_dot_slash, Listed, named,
  numbered, parts, parse_line, parse_lines, parse_scp_list,
}

one_self : (k : Char) → (one k == one k) ≡ true
one_self k = ground (arith, eq_iff (one k) (one k))

cut-append :
    (k : Char) (a r : String)
    → lacks k a ≡ true
    → cut (one k) (append a (String.◌∷◌ k r)) ≡ some (a, r)
unfolding cut lacks
cut-append k String.[] r h = ap (cut (one k)) (Append.nil (String.◌∷◌ k r)) ∙ rw (one_self k) refl
cut-append k (String.◌∷◌ c a) r h = elim (Bool-cases (one c == one k)) [
  | inl e ↦ absurd (ground (arith, e, h))
  | inr e ↦
      ap (cut (one k)) (Append.cons c a (String.◌∷◌ k r))
      ∙ rw e (ap (onto_left c) (cut-append k a r (ground (arith, e, h))))
]

split-append :
    (k : Char) (a r : String)
    → lacks k a ≡ true
    → split (one k) (append a (String.◌∷◌ k r)) ≡ a ∷ split (one k) r
unfolding split lacks
split-append k String.[] r h =
    ap (split (one k)) (Append.nil (String.◌∷◌ k r)) ∙ rw (one_self k) refl
split-append k (String.◌∷◌ c a) r h = elim (Bool-cases (one c == one k)) [
  | inl e ↦ absurd (ground (arith, e, h))
  | inr e ↦
      ap (split (one k)) (Append.cons c a (String.◌∷◌ k r))
      ∙ rw e (ap (onto_first c) (split-append k a r (ground (arith, e, h))))
]

lacks-append :
    (k : Char) (a b : String) → lacks k a ≡ true → lacks k b ≡ true → lacks k (append a b) ≡ true
unfolding lacks
lacks-append k String.[] b h g = ap (lacks k) (Append.nil b) ∙ g
lacks-append k (String.◌∷◌ c a) b h g =
    ap (lacks k) (Append.cons c a b) ∙ ground (arith, h, lacks-append k a b (ground (arith, h)) g)

-- What stat prints of a file.
pub record StatLine : Type 0 where
  pub size : ℕ
  pub mtime : ℕ  -- in seconds from 1970
  pub name : String

abbrev pub print_path : StatLine → String
print_path l = String.◌∷◌ "." (String.◌∷◌ "/" l.name)

abbrev pub after_size : StatLine → String
after_size l = append (decimal l.mtime) (String.◌∷◌ " " (print_path l))

abbrev pub print_line : StatLine → String
print_line l = append (decimal l.size) (String.◌∷◌ " " (after_size l))

-- Each line ends with a line feed.
unfoldable pub print_lines : List StatLine → String
print_lines [] = ""
print_lines (l ∷ ls) = append (print_line l) (String.◌∷◌ "\n" (print_lines ls))

-- The numbers fit in int64, and the name, which may have blanks, has no line feed.
abbrev pub IsPlain : StatLine → Type 0
IsPlain l =
    (ltb l.size (2 ^ 63) ≡ true)
    × (ltb l.mtime (2 ^ 63) ≡ true)
    × (lacks "\n" l.name ≡ true)
    × (validate_name l.name ≡ true)

abbrev pub info_of : StatLine → Listed
info_of l = record { name = l.name; size = pos l.size; unix_time = pos l.mtime }

split_three-print_line :
    (l : StatLine)
    → IsPlain l
    → split_three (print_line l) ≡ some (decimal l.size, decimal l.mtime, print_path l)
unfolding split_three first_cut
split_three-print_line l (s, m, n, v) =
    rw (cut-append " " (decimal l.size) (after_size l) (decimal-IsNumeral l.size s).1)
      (rw (cut-append " " (decimal l.mtime) (print_path l) (decimal-IsNumeral l.mtime m).1) refl)

parse_line-print_line : (l : StatLine) → IsPlain l → parse_line (print_line l) ≡ ok (info_of l)
unfolding parse_line parts numbered named trim_dot_slash
parse_line-print_line l (s, m, n, v) =
    ap parts (split_three-print_line l (s, m, n, v))
    ∙ rw ((decimal-IsNumeral l.size s).0) (rw ((decimal-IsNumeral l.mtime m).0) (rw v refl))

print_line-Whole : (l : StatLine) → IsPlain l → lacks "\n" (print_line l) ≡ true
unfolding lacks
print_line-Whole l (s, m, n, v) =
    lacks-append "\n" (decimal l.size) (String.◌∷◌ " " (after_size l))
      (decimal-IsNumeral l.size s).2
      (lacks-append "\n" (decimal l.mtime) (String.◌∷◌ " " (print_path l))
        (decimal-IsNumeral l.mtime m).2 n)

print_line-Filled : (l : StatLine) → IsPlain l → (print_line l == "") ≡ false
unfolding cut
print_line-Filled l (s, m, n, v) = elim (Bool-cases (print_line l == "")) [
  | inl e ↦
      let empty : print_line l ≡ "" = ground (arith, e, eq_iff (print_line l) "") in
      absurd (
        ground (
          arith,
          sym (cut-append " " (decimal l.size) (after_size l) (decimal-IsNumeral l.size s).1)
              ∙ ap (cut " ") empty,
        ))
  | inr e ↦ e
]

-- What find and stat print of files whose names have no line feed and pass validateName is read
-- back as these files, in their order, with the sizes and the times, blanks in names included.
pub parse_scp_list-print_lines :
    (ls : List StatLine) → All IsPlain ls → parse_scp_list (print_lines ls) ≡ ok (map info_of ls)
unfolding parse_scp_list parse_lines split print_lines
parse_scp_list-print_lines [] h = refl
parse_scp_list-print_lines (l ∷ ls) (h, hs) =
    ap parse_lines (split-append "\n" (print_line l) (print_lines ls) (print_line-Whole l h))
    ∙ rw (print_line-Filled l h)
        (rw (parse_line-print_line l h) (rw (parse_scp_list-print_lines ls hs) refl))
