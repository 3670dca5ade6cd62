-- ===== src/Usecase/Pipeline/Complete.antt =====
-- internal/usecase/pipeline.go: deliverPending when nothing fails.
use file_pubsub.Base.{
  ℕ, String, ◌≡◌, refl, ◌∙◌, sym, true, false, ◌⊎◌, Option, none, some, List, [], ◌∷◌, ◌==◌,
  string_eq, pair_eq, arith, eq_iff, Bool-cases, Option-cases, inl, inr, contains, subst,
}
use file_pubsub.Config.{Topic, Subscription, find_subscription, subscription_names}
use file_pubsub.Domain.Pending.{is_resolved, pending_subscriptions, contains-pending_subscriptions}
use file_pubsub.Domain.State.{SubscriptionStatus}
use file_pubsub.Store.Manifest.{Manifest, SubscriptionDelivery, subscription_states}
use file_pubsub.Store.World.{World, Env, Bytes, IsHealthy}
use file_pubsub.Usecase.Pipeline.{Pipeline, deliver_one, deliver_each, deliver_pending, place}
use file_pubsub.Usecase.Pipeline.Placing.{entry_of, payload, entry_of-set_self}
use file_pubsub.Usecase.Pipeline.Deliver.{one_frame, one_kept, contains-subscription_names}

abbrev pub IsDelivered : Option SubscriptionDelivery → Type 0
IsDelivered none = ⊥
IsDelivered (some s) = s.status ≡ SubscriptionStatus.delivered

module _ (env : Env) (h : IsHealthy env) (p : Pipeline) (topic : Topic) where
  one_failures :
      (name : String) (f : ℕ) (m : Manifest) (w : World) (c : Bytes)
      → payload m w ≡ some c
      → (deliver_one env p topic name (f, m, w)).0 ≡ f
  unfolding deliver_one place
  one_failures name f m w c here =
      elim (Option-cases (find_subscription topic.subscriptions name)) [
        | inl e ↦ rw (e, deliver_one) refl
        | inr (sub, e) ↦ rw (e, deliver_one, here, h.works w.ops) refl
      ]

  one-IsDelivered :
      (name : String) (sub : Subscription) (f : ℕ) (m : Manifest) (w : World) (c : Bytes)
      → payload m w ≡ some c
      → find_subscription topic.subscriptions name ≡ some sub
      → IsDelivered (entry_of (deliver_one env p topic name (f, m, w)).1 name)
  unfolding deliver_one place
  one-IsDelivered name sub f m w c here found =
      rw (found, deliver_one, here, h.works w.ops) (rw (entry_of-set_self m name _ _ _ _) refl)

  payload-one :
      (name : String) (f : ℕ) (m : Manifest) (w : World)
      → let (f', m', w') = deliver_one env p topic name (f, m, w) in payload m' w' ≡ payload m w
  payload-one name f m w =
      let (same, archive) = one_frame env p topic name f m w in
      let (id, of, file) = same in rw (archive, id, of) refl

  each_failures :
      (names : List String) (f : ℕ) (m : Manifest) (w : World) (c : Bytes)
      → payload m w ≡ some c
      → (deliver_each env p topic names (f, m, w)).0 ≡ f
  unfolding deliver_each
  each_failures [] f m w c here = refl
  each_failures (name ∷ names) f m w c here =
      let (f', m', w') = deliver_one env p topic name (f, m, w) in
      each_failures names f' m' w' c (payload-one name f m w ∙ here)
      ∙ one_failures name f m w c here

  one_more :
      (name j : String) (sub : Subscription) (f : ℕ) (m : Manifest) (w : World) (c : Bytes)
      → payload m w ≡ some c
      → find_subscription topic.subscriptions j ≡ some sub
      → ((name == j) ≡ true) ⊎ IsDelivered (entry_of m j)
      → IsDelivered (entry_of (deliver_one env p topic name (f, m, w)).1 j)
  one_more name j sub f m w c here found due = elim (Bool-cases (name == j)) [
    | inl e ↦
        subst (λ (k : String). IsDelivered (entry_of (deliver_one env p topic k (f, m, w)).1 j))
          (sym ((eq_iff name j).0 e)) (one-IsDelivered j sub f m w c here found)
    | inr ne ↦
        rw (one_kept env p topic name f m w j (λ e. ground (arith, eq_iff name j, e)))
          (elim due [ inl e ↦ absurd (cc) | inr old ↦ old ])
  ]

  each-IsDelivered :
      (names : List String) (j : String) (sub : Subscription) (f : ℕ) (m : Manifest) (w : World)
      (c : Bytes)
      → payload m w ≡ some c
      → find_subscription topic.subscriptions j ≡ some sub
      → (contains j names ≡ true) ⊎ IsDelivered (entry_of m j)
      → IsDelivered (entry_of (deliver_each env p topic names (f, m, w)).1 j)
  unfolding deliver_each
  each-IsDelivered [] j sub f m w c here found (inl never) = absurd (cc)
  each-IsDelivered [] j sub f m w c here found (inr old) = old
  each-IsDelivered (name ∷ names) j sub f m w c here found due =
      let (f', m', w') = deliver_one env p topic name (f, m, w) in
      each-IsDelivered names j sub f' m' w' c (payload-one name f m w ∙ here) found (elim due [
        | inr old ↦ inr (one_more name j sub f m w c here found (inr old))
        | inl listed ↦ elim (Bool-cases (name == j)) [
          | inl e ↦ inr (one_more name j sub f m w c here found (inl e))
          | inr ne ↦ inl (ground arith)
        ]
      ])

  -- When nothing fails and the archive holds the payload, deliverPending counts no failure, and
  -- every configured subscription that was neither delivered nor isolated is recorded as delivered.
  pub deliver_pending-IsHealthy :
      (m : Manifest) (w : World) (c : Bytes) (j : String) (sub : Subscription)
      → payload m w ≡ some c
      → find_subscription topic.subscriptions j ≡ some sub
      → is_resolved (subscription_states m j) ≡ false
      → let (f, m', w') = deliver_pending env p m topic w in (f ≡ 0) × IsDelivered (entry_of m' j)
  unfolding deliver_pending
  deliver_pending-IsHealthy m w c j sub here found open_ =
      let states = subscription_states m in
      let configured = subscription_names topic.subscriptions in
      let names = pending_subscriptions states configured in
      let due = contains-pending_subscriptions states configured j in
      let listed = contains-subscription_names topic.subscriptions j sub found in
      (
        each_failures names 0 m w c here,
        each-IsDelivered names j sub 0 m w c here found (inl (ground (arith, due, listed, open_))),
      )
