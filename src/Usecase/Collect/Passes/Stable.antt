-- ===== src/Usecase/Collect/Passes/Stable.antt =====
-- internal/usecase/collect.go: which files collectByStability collects.
use file_pubsub.Base.{
  ◌*◌, ◌≡◌, refl, ◌∙◌, sym, ap, Bool, true, false, ◌⊎◌, Option, none, some, string_eq, pair_eq,
  arith, if◌then◌else◌, Bool-cases, inl, inr,
}
use file_pubsub.Base.Int.{to_ℕ}
use file_pubsub.Base.Dict
use file_pubsub.Config.{Topic}
use file_pubsub.Domain.Limits.{second}
use file_pubsub.Domain.Stability.{Observation, is_stable, is_excluded, is_unchanged}
use file_pubsub.Store.World.{World, Env, now}
use file_pubsub.Store.Files.{is_processed}
use file_pubsub.Source.{Connector, FileInfo}
use file_pubsub.Usecase.Pipeline.{Pipeline}
use file_pubsub.Usecase.Collect.Passes.{
  stability_file, skip_processed, observe, observed, unless_processed,
}

-- The source, the archive and the manifests of a world.
abbrev pub IsIdle : World → World → Type 0
IsIdle w w' = (w'.manifests ≡ w.manifests) × (w'.archive ≡ w.archive) × (w'.originals ≡ w.originals)

module _ (env : Env) (p : Pipeline) (t : Topic) (conn : Connector) (f : FileInfo) where
  -- The file was seen before, with the same size and time, at least the interval ago.
  abbrev pub IsSettledFile : World → World → Type 0
  IsSettledFile w v =
      (is_excluded f.name t.source.exclude_patterns ≡ false)
      × (prev : Observation) × (Dict.get w.observations (t.name, f.name) ≡ some prev)
      × (is_stable prev (observe env p t conn f (now env v))
            (to_ℕ t.source.stability_interval * second)
          ≡ true)

  skip_processed-IsIdle :
      (w : World)
      → let v = (skip_processed env p t f w).1 in IsIdle w v × (v.observations ≡ w.observations)
  unfolding skip_processed is_processed
  skip_processed-IsIdle w = ground arith

  observed-IsIdle :
      (v : World) (o : Option Observation)
      → Dict.get v.observations (t.name, f.name) ≡ o
      → is_excluded f.name t.source.exclude_patterns ≡ false
      → IsIdle v (observed env p t conn f v o).1 ⊎ IsSettledFile v v
  observed-IsIdle v none seen kept = inl (refl, refl, refl)
  observed-IsIdle v (some prev) seen kept =
      let curr = observe env p t conn f (now env v) in
      let interval = to_ℕ t.source.stability_interval * second in
      elim (Bool-cases (is_unchanged prev curr)) [
        | inr changed ↦ rw changed (inl (refl, refl, refl))
        | inl same ↦ elim (Bool-cases (is_stable prev curr interval)) [
          | inl stable ↦ inr (kept, prev, seen, stable)
          | inr early ↦ rw (same, early) (inl (refl, refl, refl))
        ]
      ]

  skipped-IsIdle :
      (w : World) (q : Bool × World)
      → IsIdle w q.1
      → q.1.observations ≡ w.observations
      → is_excluded f.name t.source.exclude_patterns ≡ false
      → IsIdle w (unless_processed env p t conn f q).1 ⊎ IsSettledFile w q.1
  skipped-IsIdle w (true, v) idle same kept = inl idle
  skipped-IsIdle w (false, v) (a, b, c) same kept =
      elim (observed-IsIdle v (Dict.get v.observations (t.name, f.name)) refl kept) [
        | inl (d, e, g) ↦ inl (d ∙ a, e ∙ b, g ∙ c)
        | inr (k, prev, seen, stable) ↦
            inr (k, prev, sym (ap (λ o. Dict.get o (t.name, f.name)) same) ∙ seen, stable)
      ]

  -- One file of collectByStability leaves the manifests, the archive and the source as they were,
  -- unless it matches no exclude pattern and an earlier cycle of this process observed it with the
  -- size and time it has now, at least the stability interval before.
  pub stability_file-IsIdle :
      (w : World)
      → IsIdle w (stability_file env p t conn f w).1
        ⊎ IsSettledFile w (skip_processed env p t f w).1
  unfolding stability_file
  stability_file-IsIdle w = by_pattern (is_excluded f.name t.source.exclude_patterns) refl
    where
      by_pattern :
          (b : Bool)
          → is_excluded f.name t.source.exclude_patterns ≡ b
          → IsIdle w
              (if b
                then (true, w)
                else unless_processed env p t conn f (skip_processed env p t f w)).1
            ⊎ IsSettledFile w (skip_processed env p t f w).1
      by_pattern true out = inl (refl, refl, refl)
      by_pattern false kept =
          let (idle, same) = skip_processed-IsIdle w in
          skipped-IsIdle w (skip_processed env p t f w) idle same kept
