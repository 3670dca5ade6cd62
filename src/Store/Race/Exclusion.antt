-- ===== src/Store/Race/Exclusion.antt =====
-- internal/gateway/store/manifest.go: writers of one message while no lock counts as abandoned.
use file_pubsub.Base.{
  ℕ, ◌≡◌, ◌≢◌, refl, ◌∙◌, ap, subst, arith, Bool, true, false, Option, none, some, List, [], ◌∷◌,
  ◌==◌, nat_eq, Result, ok, err, Bool-cases, Option-cases, Error, ◌⊎◌, inl, inr, ◌+◌, length,
}
use file_pubsub.Store.Manifest.{Manifest}
use file_pubsub.Store.Race.{Shared, Pc, make, Move, System, at, Step, Reach}
use file_pubsub.Store.Race.Move.{
  start, create, busy, give_up, see_stale, remove_stale, retake, outrun, read, nothing, confirm,
  compare, again, rename, fail_reading, fail_staged, fail_confirmed, fail_matched, own, foreign,
  remove, fail_leaving, fail_releasing,
}
use file_pubsub.Store.Race.Pc.{
  idle, trying, found_stale, retaking, reading, staged, confirmed, matched, leaving, releasing,
}

abbrev then_make : (ℕ → Manifest → Result Manifest) → ℕ → Option Manifest → Option Manifest
then_make mutate i none = none
then_make mutate i (some m) = make mutate i m

-- The manifest after these writers have run one after another, the last one first, if each of them
-- has something to write.
unfoldable pub in_turn : (ℕ → Manifest → Result Manifest) → Manifest → List ℕ → Option Manifest
in_turn mutate m [] = some m
in_turn mutate m (i ∷ is) = then_make mutate i (in_turn mutate m is)

-- Between the creation of the lock file and its removal.
abbrev pub is_inside : Pc → Bool
is_inside idle = false
is_inside trying = false
is_inside found_stale = false
is_inside retaking = false
is_inside _ = true

result_cases {ℓ} :
    {A : Type ℓ} (r : Result A) → ((e : Error) × (r ≡ err e)) ⊎ ((a : A) × (r ≡ ok a))
result_cases (err e) = inl (e, refl)
result_cases (ok a) = inr (a, refl)

module _ (mutate : ℕ → Manifest → Result Manifest) (m : Manifest) where
  -- What a writer's place says of the shared files.
  abbrev Local : Shared → ℕ → Pc → Type 0
  Local s i idle = Unit
  Local s i trying = Unit
  Local s i found_stale = ⊥
  Local s i retaking = ⊥
  Local s i reading = s.lock ≡ some i
  Local s i (staged base n) = (s.lock ≡ some i) × (s.file ≡ base) × (make mutate i base ≡ some n)
  Local s i (confirmed base n) = (s.lock ≡ some i) × (s.file ≡ base) × (make mutate i base ≡ some n)
  Local s i (matched base n) = (s.lock ≡ some i) × (s.file ≡ base) × (make mutate i base ≡ some n)
  Local s i leaving = s.lock ≡ some i
  Local s i releasing = s.lock ≡ some i

  record Inv (s : Shared) (pc : ℕ → Pc) : Type 0 where
    local : (i : ℕ) → Local s i (pc i)
    serial : in_turn mutate m s.renamed ≡ some s.file

  Local-owner : (s : Shared) (i : ℕ) (p : Pc) → Local s i p → is_inside p ≡ true → s.lock ≡ some i
  Local-owner s i reading h k = h
  Local-owner s i (staged base n) h k = h.0
  Local-owner s i (confirmed base n) h k = h.0
  Local-owner s i (matched base n) h k = h.0
  Local-owner s i leaving h k = h
  Local-owner s i releasing h k = h
  Local-owner s i p h k = absurd (ground arith)

  -- A writer whose own lock it is not stands outside, where nothing of the files matters to it.
  Local-outside : (s t : Shared) (j : ℕ) (p : Pc) → s.lock ≢ some j → Local s j p → Local t j p
  Local-outside s t j idle ne h = tt
  Local-outside s t j trying ne h = tt
  Local-outside s t j found_stale ne h = h
  Local-outside s t j retaking ne h = h
  Local-outside s t j p ne h = absurd (ground arith)

  Local-other :
      (p : Pc) {s t : Shared} {i j : ℕ} {q q' : Pc}
      → i ≢ j
      → Move mutate false i s q t q'
      → Local s i q
      → Local s j p
      → Local t j p
  Local-other p {s} {t} {i} {j} ne (create free) mine h = Local-outside s t j p (ground arith) h
  Local-other p {s} {t} {i} {j} ne rename mine h = Local-outside s t j p (ground arith) h
  Local-other p {s} {t} {i} {j} ne remove mine h = Local-outside s t j p (ground arith) h
  Local-other p ne remove_stale mine h = absurd mine
  Local-other p ne (retake x) mine h = absurd mine
  Local-other p ne start mine h = h
  Local-other p ne (busy x) mine h = h
  Local-other p ne give_up mine h = h
  Local-other p ne (see_stale x) mine h = h
  Local-other p ne outrun mine h = h
  Local-other p ne (read x) mine h = h
  Local-other p ne (nothing x) mine h = h
  Local-other p ne (confirm x) mine h = h
  Local-other p ne (compare x) mine h = h
  Local-other p ne (again x) mine h = h
  Local-other p ne fail_reading mine h = h
  Local-other p ne fail_staged mine h = h
  Local-other p ne fail_confirmed mine h = h
  Local-other p ne fail_matched mine h = h
  Local-other p ne (own x) mine h = h
  Local-other p ne (foreign x) mine h = h
  Local-other p ne fail_leaving mine h = h
  Local-other p ne fail_releasing mine h = h

  Local-self :
      {s t : Shared} {i : ℕ} {q q' : Pc} → Move mutate false i s q t q' → Local s i q → Local t i q'
  Local-self start h = tt
  Local-self (create free) h = refl
  Local-self (busy x) h = tt
  Local-self give_up h = tt
  Local-self (see_stale x) h = absurd (ground arith)
  Local-self remove_stale h = absurd h
  Local-self (retake x) h = refl
  Local-self outrun h = tt
  Local-self (read e) h = (h, refl, e)
  Local-self (nothing e) h = h
  Local-self (confirm x) h = h
  Local-self (compare x) h = h
  Local-self (again x) h = h.0
  Local-self rename h = h.0
  Local-self fail_reading h = h
  Local-self fail_staged h = h.0
  Local-self fail_confirmed h = h.0
  Local-self fail_matched h = h.0
  Local-self (own x) h = h
  Local-self (foreign x) h = tt
  Local-self remove h = tt
  Local-self fail_leaving h = tt
  Local-self fail_releasing h = tt

  Move-serial :
      {s t : Shared} {i : ℕ} {q q' : Pc}
      → Move mutate false i s q t q'
      → Local s i q
      → in_turn mutate m s.renamed ≡ some s.file
      → in_turn mutate m t.renamed ≡ some t.file
  unfolding in_turn
  Move-serial {s} {i} rename (mine, same, e) h = rw h (ap (make mutate i) same ∙ e)
  Move-serial (create x) mine h = h
  Move-serial start mine h = h
  Move-serial (busy x) mine h = h
  Move-serial give_up mine h = h
  Move-serial (see_stale x) mine h = h
  Move-serial outrun mine h = h
  Move-serial (read x) mine h = h
  Move-serial (nothing x) mine h = h
  Move-serial (confirm x) mine h = h
  Move-serial (compare x) mine h = h
  Move-serial (again x) mine h = h
  Move-serial fail_reading mine h = h
  Move-serial fail_staged mine h = h
  Move-serial fail_confirmed mine h = h
  Move-serial fail_matched mine h = h
  Move-serial (own x) mine h = h
  Move-serial (foreign x) mine h = h
  Move-serial fail_leaving mine h = h
  Move-serial fail_releasing mine h = h
  Move-serial remove mine h = h
  Move-serial remove_stale mine h = h
  Move-serial (retake x) mine h = h

  Step-Inv : {s t : System} → Step mutate false s t → Inv s.shared s.pc → Inv t.shared t.pc
  Step-Inv {s} (Step.pick i {t} {p} mv) inv = record {
    local = λ j. kept j;
    serial = Move-serial mv (inv.local i) inv.serial;
  }
    where
      kept : (j : ℕ) → Local t j (at s.pc i p j)
      kept j = elim (Bool-cases (i == j)) [
        | inl e ↦ rw e (subst (λ k. Local t k p) (ground arith) (Local-self mv (inv.local i)))
        | inr e ↦ rw e (Local-other (s.pc j) (ground arith) mv (inv.local i) (inv.local j))
      ]

  Reach-Inv : {s : System} → Reach mutate false m s → Inv s.shared s.pc
  unfolding in_turn
  Reach-Inv Reach.begin = record { local = λ i. tt; serial = refl }
  Reach-Inv (Reach.later r st) = Step-Inv st (Reach-Inv r)

  -- While no lock counts as abandoned, and in whatever order the accesses of the writers come and
  -- whichever of them fail, no two writers of one message are between the creation of the lock file
  -- and its removal.
  pub mutual_exclusion :
      {s : System}
      → Reach mutate false m s
      → (i j : ℕ) → is_inside (s.pc i) ≡ true
      → is_inside (s.pc j) ≡ true
      → i ≡ j
  mutual_exclusion {s} r i j in_i in_j =
      let inv = Reach-Inv r in
      let a = Local-owner s.shared i (s.pc i) (inv.local i) in_i in
      let b = Local-owner s.shared j (s.pc j) (inv.local j) in_j in ground arith

  in_turn-revision :
      (is : List ℕ) (n : Manifest)
      → in_turn mutate m is ≡ some n
      → n.revision ≡ m.revision + length is
  unfolding in_turn
  in_turn-revision [] n h = ground arith
  in_turn-revision (i ∷ is) n h = elim (Option-cases (in_turn mutate m is)) [
    | inl e ↦ absurd (ground arith)
    | inr (before, e) ↦ elim (result_cases (mutate i before)) [
      | inl (x, f) ↦ absurd (ground arith)
      | inr (n', f) ↦ ground (arith, in_turn-revision is before e)
    ]
  ]

  -- While no lock counts as abandoned, no update is lost: the stored manifest is what the writers
  -- that have renamed theirs into place give one after another in that order, each from the result
  -- of the one before, and its revision counts them.
  pub updates_in_turn :
      {s : System}
      → Reach mutate false m s
      → (in_turn mutate m s.shared.renamed ≡ some s.shared.file)
        × (s.shared.file.revision ≡ m.revision + length s.shared.renamed)
  updates_in_turn {s} r =
      let kept = (Reach-Inv r).serial in
      (kept, in_turn-revision s.shared.renamed s.shared.file kept)
