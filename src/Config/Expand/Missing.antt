-- ===== src/Config/Expand/Missing.antt =====
-- internal/config/config.go: the errors of ExpandEnv.
use Prim.Native.Char.{Char}
use file_pubsub.Base.{
  ℕ, zero, suc, ◌+◌, String, ◌≡◌, refl, sym, subst, arith, ◌⊎◌, Bool, true, false, ◌&&◌, ◌||◌,
  Option, none, some, List, [], ◌∷◌, ◌++◌, ◌==◌, string_eq, contains, IsUnique, Option-cases,
  Bool-cases, eq_iff, inl, inr,
}
use file_pubsub.Config.Expand.{reference, note, expand_from, expand_env, missing_after}

-- The names of the references in a text, in order.
unfoldable pub references : String → ℕ → List String
references String.[] k = []
references (String.◌∷◌ c s) (suc k) = references s k
references (String.◌∷◌ c s) zero = elim (reference (String.◌∷◌ c s)) [
  | none ↦ references s zero
  | some (name, n) ↦ name ∷ references s (n + 2)
]

contains-snoc :
    (x n : String) (xs : List String) → contains x (xs ++ n ∷ []) ≡ (contains x xs || n == x)
contains-snoc x n [] = ground arith
contains-snoc x n (y ∷ xs) = ground (arith, contains-snoc x n xs)

IsUnique-snoc :
    (n : String) (xs : List String) → IsUnique xs → contains n xs ≡ false → IsUnique (xs ++ n ∷ [])
IsUnique-snoc n [] u h = (refl, tt)
IsUnique-snoc n (y ∷ xs) (fresh, u) h = (
  ground (arith, contains-snoc y n xs, eq_iff y n, eq_iff n y),
  IsUnique-snoc n xs u (ground arith),
)

contains-note :
    (x n : String) (xs : List String) → contains x (note n xs) ≡ (contains x xs || n == x)
contains-note x n xs = ground (arith, contains-snoc x n xs, eq_iff n x)

IsUnique-note : (n : String) (xs : List String) → IsUnique xs → IsUnique (note n xs)
IsUnique-note n xs u = elim (Bool-cases (contains n xs)) [
  | inl e ↦ rw e u
  | inr e ↦ rw e (IsUnique-snoc n xs u e)
]

module _ (lookup_env : String → Option String) where
  abbrev pub is_unset : String → Bool
  is_unset name = elim (lookup_env name) [ none ↦ true | some value ↦ false ]

  missing_after_cases :
      (n : String) (xs : List String)
      → ((is_unset n ≡ true) × (missing_after lookup_env n xs ≡ note n xs))
        ⊎ ((is_unset n ≡ false) × (missing_after lookup_env n xs ≡ xs))
  missing_after_cases n xs = elim (Option-cases (lookup_env n)) [
    | inl e ↦ inl (rw (is_unset, e) refl, rw (missing_after, e) refl)
    | inr (v, e) ↦ inr (rw (is_unset, e) refl, rw (missing_after, e) refl)
  ]

  contains-missing_after :
      (x n : String) (xs : List String)
      → contains x (missing_after lookup_env n xs) ≡ (contains x xs || (n == x && is_unset x))
  contains-missing_after x n xs = elim (missing_after_cases n xs) [
    | inl (unset, e) ↦ ground (arith, contains-note x n xs, eq_iff n x)
    | inr (set, e) ↦ ground (arith, eq_iff n x)
  ]

  IsUnique-missing_after :
      (n : String) (xs : List String) → IsUnique xs → IsUnique (missing_after lookup_env n xs)
  IsUnique-missing_after n xs u = elim (missing_after_cases n xs) [
    | inl (unset, e) ↦ subst IsUnique (sym e) (IsUnique-note n xs u)
    | inr (set, e) ↦ subst IsUnique (sym e) u
  ]

  -- One step of the scan at a character that is not passed over.
  step_cases :
      (c : Char) (s : String) (xs : List String)
      → ((references (String.◌∷◌ c s) zero ≡ references s zero)
          × ((expand_from lookup_env (String.◌∷◌ c s) zero xs).1
              ≡ (expand_from lookup_env s zero xs).1))
        ⊎ ((n : String) × (k : ℕ) × (references (String.◌∷◌ c s) zero ≡ n ∷ references s k)
            × ((expand_from lookup_env (String.◌∷◌ c s) zero xs).1
                ≡ (expand_from lookup_env s k (missing_after lookup_env n xs)).1))
  unfolding expand_from references
  step_cases c s xs = elim (Option-cases (reference (String.◌∷◌ c s))) [
    | inl e ↦ inl (rw (references, e) refl, rw (expand_from, e) refl)
    | inr ((n, k), e) ↦ inr (n, k + 2, rw (references, e) refl, rw (expand_from, e) refl)
  ]

  expand_from-missing :
      (s : String) (k : ℕ) (xs : List String) (x : String)
      → contains x (expand_from lookup_env s k xs).1
        ≡ (contains x xs || (contains x (references s k) && is_unset x))
  unfolding expand_from references
  expand_from-missing String.[] k xs x = ground arith
  expand_from-missing (String.◌∷◌ c s) (suc k) xs x = expand_from-missing s k xs x
  expand_from-missing (String.◌∷◌ c s) zero xs x = elim (step_cases c s xs) [
    | inl (r, e) ↦ ground (arith, expand_from-missing s zero xs x)
    | inr (n, k, r, e) ↦ ground (
      arith,
      expand_from-missing s k (missing_after lookup_env n xs) x,
      contains-missing_after x n xs,
    )
  ]

  expand_from-IsUnique :
      (s : String) (k : ℕ) (xs : List String)
      → IsUnique xs
      → IsUnique (expand_from lookup_env s k xs).1
  unfolding expand_from
  expand_from-IsUnique String.[] k xs u = u
  expand_from-IsUnique (String.◌∷◌ c s) (suc k) xs u = expand_from-IsUnique s k xs u
  expand_from-IsUnique (String.◌∷◌ c s) zero xs u = elim (step_cases c s xs) [
    | inl (r, e) ↦ subst IsUnique (sym e) (expand_from-IsUnique s zero xs u)
    | inr (n, k, r, e) ↦
        subst IsUnique (sym e)
          (expand_from-IsUnique s k (missing_after lookup_env n xs) (IsUnique-missing_after n xs u))
  ]

  -- The errors of ExpandEnv name exactly the variables that the text refers to and that are not set,
  -- each once.
  pub expand_env_missing :
      (raw : String)
      → let missing = (expand_env lookup_env raw).1 in
        IsUnique missing
        × ((x : String) → contains x missing ≡ (contains x (references raw zero) && is_unset x))
  unfolding expand_env
  expand_env_missing raw =
      (expand_from-IsUnique raw zero [] tt, λ x. ground (arith, expand_from-missing raw zero [] x))
