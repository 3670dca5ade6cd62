-- ===== src/Usecase/Collect/Order.antt =====
-- internal/usecase/collect.go: the search for a message id.
use Prim.Native.String.{◌++◌ as append}
use file_pubsub.Base.{
  ℕ, zero, suc, ◌+◌, String, ◌≡◌, refl, ap, subst, ◌⊎◌, none, string_eq, pair_eq, arith, Bool-cases,
  Option-cases, inl, inr,
}
use file_pubsub.Base.Dict
use file_pubsub.Base.Text.{decimal}
use file_pubsub.Store.World.{World, Env, next, fails}
use file_pubsub.Store.ManifestStore.{manifest_exists}
use file_pubsub.Usecase.Collect.{unique_from, unique_message_id}

-- The last id that the loop tries, from round number `seq` with candidate `id`.
abbrev pub last_id : ℕ → ℕ → String → String → String
last_id zero seq base id = id
last_id (suc rounds) seq base id = append base (append "_" (decimal (seq + rounds)))

last_id-suc :
    (rounds seq : ℕ) (base id : String)
    → last_id rounds (suc seq) base (append base (append "_" (decimal seq)))
      ≡ last_id (suc rounds) seq base id
last_id-suc zero seq base id = ap (λ (n : ℕ). append base (append "_" (decimal n))) (omega arith)
last_id-suc (suc rounds) seq base id =
    ap (λ (n : ℕ). append base (append "_" (decimal n))) (omega arith)

module _ (env : Env) where
  abbrev FreshSpec : String → World → String × World → Type 0
  FreshSpec last w (found, w') =
      ((Dict.get w.manifests found ≡ none) ⊎ (found ≡ last)) × (w'.manifests ≡ w.manifests)

  unique_from_lem :
      (rounds seq : ℕ) (base id : String) (w : World)
      → FreshSpec (last_id rounds seq base id) w (unique_from env rounds seq base id w)
  unfolding unique_from manifest_exists
  unique_from_lem zero seq base id w = (inr refl, refl)
  unique_from_lem (suc rounds) seq base id w =
      let next_id = append base (append "_" (decimal seq)) in
      let rest = unique_from_lem rounds (suc seq) base next_id (next w) in
      let (found, w') = unique_from env rounds (suc seq) base next_id (next w) in
      let on : FreshSpec (last_id (suc rounds) seq base id) w (found, w') =
        subst (λ (l : String). FreshSpec l w (found, w')) (last_id-suc rounds seq base id) rest in
      elim (Bool-cases (fails env w)) [
        | inl bad ↦ rw bad on
        | inr fine ↦ elim (Option-cases (Dict.get w.manifests id)) [
          | inl free ↦ rw (fine, free) (inl free, refl)
          | inr (m, taken) ↦ rw (fine, taken) on
        ]
      ]

  -- The id that uniqueMessageID gives has no manifest, or it is the candidate with number 10000;
  -- the search changes no manifest.
  pub unique_message_id_lem :
      (base : String) (w : World)
      → let (id, w') = unique_message_id env base w in
        ((Dict.get w.manifests id ≡ none) ⊎ (id ≡ append base "_10000"))
        × (w'.manifests ≡ w.manifests)
  unfolding unique_message_id decimal
  unique_message_id_lem base w = unique_from_lem 9999 2 base base w
