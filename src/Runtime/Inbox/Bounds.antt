-- ===== src/Runtime/Inbox/Bounds.antt =====
-- internal/runtime/daemon.go: minFallbackInterval against the intervals of the inboxes.
use file_pubsub.Base.{
  ℕ, zero, suc, ◌≡◌, refl, arith, Bool, true, false, not, ◌&&◌, ◌||◌, List, [], ◌∷◌, ◌==◌,
  string_eq, if◌then◌else◌, all, any, leb, nat_eq, ◌⊎◌, inl, inr, Bool-cases,
}
use file_pubsub.Base.Int.{ℤ, pos, negsuc, leb_ℤ}
use file_pubsub.Config.{Config, Topic, is_zero}
use file_pubsub.Runtime.Inbox.{is_inbox, interval_of, smaller, fallback_loop, min_fallback_interval}

abbrev pub is_positive : ℤ → Bool
is_positive n = leb_ℤ (pos 1) n

-- The interval is at most that of every inbox.
abbrev pub is_bound : ℤ → ℤ → List Topic → Bool
is_bound polling r ts = all (λ t. not (is_inbox t) || leb_ℤ r (interval_of polling t)) ts

-- Some inbox has this interval.
abbrev pub is_attained : ℤ → ℤ → List Topic → Bool
is_attained polling r ts =
    any (λ t. is_inbox t && (leb_ℤ r (interval_of polling t) && leb_ℤ (interval_of polling t) r)) ts

module _ (k : ℕ) where
  -- The polling interval.
  abbrev polling : ℤ
  polling = pos (suc k)

  interval_of-positive : (t : Topic) → (j : ℕ) × (interval_of polling t ≡ pos (suc j))
  interval_of-positive t = positive t.source.fallback_poll_interval refl
    where
      positive :
          (n : ℤ)
          → t.source.fallback_poll_interval ≡ n
          → (j : ℕ) × (interval_of polling t ≡ pos (suc j))
      positive (pos zero) e = rw e (k, ground arith)
      positive (pos (suc j)) e = rw e (j, ground arith)
      positive (negsuc j) e = rw e (k, refl)

  abbrev least : ℕ → ℕ → ℕ
  least n j = if n == 0 || not (leb n (suc j)) then suc j else n

  smaller-pos : (n j : ℕ) → smaller (pos n) (pos (suc j)) ≡ pos (least n j)
  smaller-pos n j = ground arith

  abbrev LoopSpec : List Topic → ℕ → ℕ → Type 0
  LoopSpec ts n m =
      ((m ≡ n) × (any is_inbox ts ≡ false))
      ⊎ ((is_positive (pos m) ≡ true)
          × ((n ≡ 0) ⊎ (leb_ℤ (pos m) (pos n) ≡ true))
          × (is_bound polling (pos m) ts ≡ true)
          × (((m ≡ n) × (is_positive (pos n) ≡ true)) ⊎ (is_attained polling (pos m) ts ≡ true)))

  no_inbox : (r : ℤ) (ts : List Topic) → any is_inbox ts ≡ false → is_bound polling r ts ≡ true
  no_inbox r [] h = refl
  no_inbox r (t ∷ ts) h = ground (arith, no_inbox r ts)

  fallback_loop_lem :
      (ts : List Topic) (n : ℕ)
      → (m : ℕ) × (fallback_loop polling ts (pos n) ≡ pos m) × LoopSpec ts n m
  unfolding fallback_loop
  fallback_loop_lem [] n = (n, refl, inl (refl, refl))
  fallback_loop_lem (t ∷ ts) n = elim (Bool-cases (is_inbox t)) [
    | inr e₀ ↦ let (m, e, h) = fallback_loop_lem ts n in rw e₀ (m, e, ground arith)
    | inl e₁ ↦
        let (j, i) = interval_of-positive t in
        let (m, e, h) = fallback_loop_lem ts (least n j) in
        rw (e₁, i, smaller-pos n j) (m, e, ground (arith, no_inbox (pos m) ts))
  ]

  settled :
      (ts : List Topic) (m : ℕ)
      → LoopSpec ts 0 m
      → let r = if is_zero (pos m) then polling else pos m in
        (is_positive r ≡ true)
        × (is_bound polling r ts ≡ true)
        × ((is_attained polling r ts ≡ true) ⊎ ((any is_inbox ts ≡ false) × (r ≡ polling)))
  settled ts m (inl (e, h)) = rw e (ground arith, no_inbox polling ts h, inr (h, refl))
  settled ts m (inr (h, n, b, a)) = ground arith

  -- The result is a positive number of seconds, no inbox has a shorter interval, and some inbox has
  -- this one or there is no inbox and it is the polling interval.
  pub min_fallback_interval_lem :
      (cfg : Config)
      → cfg.polling_interval ≡ polling
      → let r = min_fallback_interval cfg in
        (is_positive r ≡ true)
        × (is_bound polling r cfg.topics ≡ true)
        × ((is_attained polling r cfg.topics ≡ true)
            ⊎ ((any is_inbox cfg.topics ≡ false) × (r ≡ polling)))
  unfolding min_fallback_interval
  min_fallback_interval_lem cfg same =
      let (m, e, h) = fallback_loop_lem cfg.topics 0 in rw (same, e) (settled cfg.topics m h)
