-- ===== src/Store/Race/Lost.antt =====
-- internal/gateway/store/manifest.go: two writers of one message when a lock counts as abandoned.
use file_pubsub.Base.{ℕ, ◌≡◌, refl, true, some, [], ◌∷◌, nat_eq, Result}
use file_pubsub.Store.Manifest.{Manifest}
use file_pubsub.Store.Race.{make, Move, System, Reach, go}

module _ (mutate : ℕ → Manifest → Result Manifest) (m m₀ m₁ : Manifest)
    (first : make mutate 0 m ≡ some m₀) (second : make mutate 1 m ≡ some m₁) where
  -- When a lock may count as abandoned while its holder is still alive, an update is lost: two
  -- writers that each have something to write can both rename their result into place, the second
  -- writer first, and the stored manifest is then what the first one made of the manifest at the
  -- start, without the second one's update.
  pub lost_update :
      (s : System) × Reach mutate true m s × (s.shared.renamed ≡ 0 ∷ 1 ∷ []) × (s.shared.file ≡ m₀)
  lost_update =
      let checked =
        go 0
          (go 0 (go 0 (go 0 (go 0 Reach.begin Move.start) (Move.create refl)) (Move.read first))
            (Move.confirm refl))
          (Move.compare refl) in
      let taken =
        go 1 (go 1 (go 1 (go 1 checked Move.start) (Move.see_stale refl)) Move.remove_stale)
          (Move.retake refl) in
      let finished =
        go 1 (go 1 (go 1 (go 1 taken (Move.read second)) (Move.confirm refl)) (Move.compare refl))
          Move.rename in
      (_, go 0 finished Move.rename, refl, refl)
