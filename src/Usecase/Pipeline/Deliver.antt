-- ===== src/Usecase/Pipeline/Deliver.antt =====
-- internal/usecase/pipeline.go: deliverPending over all pending subscriptions.
use file_pubsub.Base.{
  ℕ, String, ◌≡◌, ◌≢◌, refl, ◌∙◌, ap, true, false, Option, none, some, List, [], ◌∷◌, ◌==◌,
  string_eq, pair_eq, eq_iff, arith, Option-cases, subst, Bool-cases, ◌⊎◌, inl, inr, contains,
}
use file_pubsub.Base.Dict
use file_pubsub.Base.Dict.{get-put, get-put_self}
use file_pubsub.Config.{Topic, Subscription, find_subscription, subscription_names}
use file_pubsub.Domain.Pending.{is_resolved, pending_subscriptions, contains-pending_subscriptions}
use file_pubsub.Store.Manifest.{Manifest, SubscriptionDelivery, subscription_states}
use file_pubsub.Store.World.{World, Env, Bytes}
use file_pubsub.Usecase.Pipeline.{Pipeline, deliver_one, deliver_each, deliver_pending, place}
use file_pubsub.Usecase.Pipeline.Placing.{
  entry_of, payload, placed_at, SameMessage, EntryIsHonest, Honest, written_frame, written_entry_ne,
  one_written, one_placed, one_honest, place_frame,
}

module _ (env : Env) (p : Pipeline) (topic : Topic) where
  pub one_absent :
      (name : String) (f : ℕ) (m : Manifest) (w : World)
      → find_subscription topic.subscriptions name ≡ none
      → deliver_one env p topic name (f, m, w) ≡ (f, m, w)
  unfolding deliver_one
  one_absent name f m w e = rw (e, deliver_one) refl

  pub one_frame :
      (name : String) (f : ℕ) (m : Manifest) (w : World)
      → let (f', m', w') = deliver_one env p topic name (f, m, w) in
        SameMessage m m' × (w'.archive ≡ w.archive)
  one_frame name f m w = elim (Option-cases (find_subscription topic.subscriptions name)) [
    | inl e ↦ rw (one_absent name f m w e) ((refl, refl, refl), refl)
    | inr (sub, e) ↦ rw (one_written env p name f m topic w sub e) (
        let (r, v) = place env m sub w in
        let (same, archive, files) = written_frame env p name f m r v in
        (same, archive ∙ ap (λ (x : World). x.archive) (place_frame env m sub w)))
  ]

  pub one_kept :
      (name : String) (f : ℕ) (m : Manifest) (w : World) (j : String)
      → name ≢ j
      → entry_of (deliver_one env p topic name (f, m, w)).1 j ≡ entry_of m j
  one_kept name f m w j ne = elim (Option-cases (find_subscription topic.subscriptions name)) [
    | inl e ↦ rw (one_absent name f m w e) refl
    | inr (sub, e) ↦
        rw (one_written env p name f m topic w sub e)
          (written_entry_ne env p name f m (place env m sub w).0 (place env m sub w).1 j ne)
  ]

  one_file :
      (name : String) (f : ℕ) (m : Manifest) (w : World) (key : String × String)
      → let file = Dict.get (deliver_one env p topic name (f, m, w)).2.placed key in
        (file ≡ Dict.get w.placed key) ⊎ ((file ≡ payload m w) × (payload m w ≢ none))
  one_file name f m w key = elim (Option-cases (find_subscription topic.subscriptions name)) [
    | inl e ↦ rw (one_absent name f m w e) (inl refl)
    | inr (sub, e) ↦ one_placed env p name f m topic w sub e key
  ]

-- An honest entry stays so when its file is kept or becomes the payload.
EntryIsHonest-file :
    (a file file' : Option Bytes) (e : Option SubscriptionDelivery)
    → EntryIsHonest a file e
    → ((file' ≡ file) ⊎ ((file' ≡ a) × (a ≢ none)))
    → EntryIsHonest a file' e
EntryIsHonest-file a file file' none h k = h
EntryIsHonest-file a file file' (some s) h (inl k) = rw k h
EntryIsHonest-file a file file' (some s) h (inr (k, present)) = ground arith

-- A message and an archive that stay the same leave the payload and the file's name.
EntryIsHonest-same :
    (m m' : Manifest) (w w' : World) (sub : Subscription) (e : Option SubscriptionDelivery)
    → SameMessage m m'
    → w'.archive ≡ w.archive
    → EntryIsHonest (payload m w) (placed_at m sub w') e
    → EntryIsHonest (payload m' w') (placed_at m' sub w') e
EntryIsHonest-same m m' w w' sub e same archive h =
    let a : payload m' w' ≡ payload m w = cc in
    let b : placed_at m' sub w' ≡ placed_at m sub w' = cc in rw (a, b) h

EntryIsHonest-back :
    (m m' : Manifest) (w w' : World) (sub : Subscription) (e : Option SubscriptionDelivery)
    → SameMessage m m'
    → w'.archive ≡ w.archive
    → EntryIsHonest (payload m' w') (placed_at m' sub w') e
    → EntryIsHonest (payload m w) (placed_at m sub w') e
EntryIsHonest-back m m' w w' sub e same archive h =
    let a : payload m w ≡ payload m' w' = cc in
    let b : placed_at m sub w' ≡ placed_at m' sub w' = cc in rw (a, b) h

module _ (env : Env) (p : Pipeline) (topic : Topic) where
  -- One more round keeps an honest entry honest, and makes its own entry so.
  one_Honest :
      (name j : String) (sub : Subscription) (f : ℕ) (m : Manifest) (w : World)
      → find_subscription topic.subscriptions j ≡ some sub
      → ((name == j) ≡ true) ⊎ Honest sub j (f, m, w)
      → Honest sub j (deliver_one env p topic name (f, m, w))
  one_Honest name j sub f m w found h =
      let (f', m', w') = deliver_one env p topic name (f, m, w) in
      let (same, archive) = one_frame env p topic name f m w in
      EntryIsHonest-same m m' w w' sub (entry_of m' j) same archive (entry (Bool-cases (name == j)))
    where
      entry :
          ((name == j) ≡ true) ⊎ ((name == j) ≡ false)
          → let (f', m', w') = deliver_one env p topic name (f, m, w) in
            EntryIsHonest (payload m w) (placed_at m sub w') (entry_of m' j)
      entry (inl e) =
          let same = (eq_iff name j).0 e in
          subst
            (λ (k : String).
              find_subscription topic.subscriptions k ≡ some sub
              → let (f', m', w') = deliver_one env p topic name (f, m, w) in
                EntryIsHonest (payload m w) (placed_at m sub w') (entry_of m' k))
            same (λ here. one_honest env p name f m topic w sub here) found
      entry (inr ne) = kept h
        where
          kept :
              ((name == j) ≡ true) ⊎ Honest sub j (f, m, w)
              → let (f', m', w') = deliver_one env p topic name (f, m, w) in
                EntryIsHonest (payload m w) (placed_at m sub w') (entry_of m' j)
          kept (inl e) = absurd (cc)
          kept (inr old) = rw (one_kept env p topic name f m w j (λ e. cc ((eq_iff name j).1 e))) (
              EntryIsHonest-file _ _ _ _ old
                (one_file env p topic name f m w (sub.directory, m.original_file_name)))

  each_frame :
      (names : List String) (f : ℕ) (m : Manifest) (w : World)
      → let (f', m', w') = deliver_each env p topic names (f, m, w) in
        SameMessage m m' × (w'.archive ≡ w.archive)
  unfolding deliver_each
  each_frame [] f m w = ((refl, refl, refl), refl)
  each_frame (name ∷ names) f m w =
      let (f', m', w') = deliver_one env p topic name (f, m, w) in
      let (a, b) = one_frame env p topic name f m w in
      let (c, d) = each_frame names f' m' w' in ((c.0 ∙ a.0, c.1 ∙ a.1, c.2 ∙ a.2), d ∙ b)

  each_kept :
      (names : List String) (f : ℕ) (m : Manifest) (w : World) (j : String)
      → contains j names ≡ false
      → entry_of (deliver_each env p topic names (f, m, w)).1 j ≡ entry_of m j
  unfolding deliver_each
  each_kept [] f m w j h = refl
  each_kept (name ∷ names) f m w j h =
      let (f', m', w') = deliver_one env p topic name (f, m, w) in
      each_kept names f' m' w' j (ground arith)
      ∙ one_kept env p topic name f m w j (λ e. ground (arith, eq_iff name j))

  each_Honest :
      (names : List String) (j : String) (sub : Subscription) (f : ℕ) (m : Manifest) (w : World)
      → find_subscription topic.subscriptions j ≡ some sub
      → (contains j names ≡ true) ⊎ Honest sub j (f, m, w)
      → Honest sub j (deliver_each env p topic names (f, m, w))
  unfolding deliver_each
  each_Honest [] j sub f m w found (inl h) = absurd (cc)
  each_Honest [] j sub f m w found (inr h) = h
  each_Honest (name ∷ names) j sub f m w found h =
      let (f', m', w') = deliver_one env p topic name (f, m, w) in
      each_Honest names j sub f' m' w' found (next_round h)
    where
      next_round :
          (contains j (name ∷ names) ≡ true) ⊎ Honest sub j (f, m, w)
          → (contains j names ≡ true) ⊎ Honest sub j (deliver_one env p topic name (f, m, w))
      next_round (inr old) = inr (one_Honest name j sub f m w found (inr old))
      next_round (inl due) = elim (Bool-cases (name == j)) [
        | inl e ↦ inr (one_Honest name j sub f m w found (inl e))
        | inr ne ↦ inl (ground arith)
      ]

pub contains-subscription_names :
    (subs : List Subscription) (j : String) (sub : Subscription)
    → find_subscription subs j ≡ some sub
    → contains j (subscription_names subs) ≡ true
unfolding find_subscription subscription_names
contains-subscription_names [] j sub h = absurd (cc)
contains-subscription_names (s ∷ subs) j sub h =
    ground (arith, contains-subscription_names subs j sub)

-- Whatever copies fail, a configured subscription that was delivered or isolated keeps its entry.
-- Any other one has afterwards an entry that says delivered, and then the message's archived
-- payload lies in its directory under the original file name, or an entry that says failed.
pub deliver_pending_lem :
    (env : Env) (p : Pipeline) (m : Manifest) (topic : Topic) (w : World) (j : String)
    (sub : Subscription)
    → find_subscription topic.subscriptions j ≡ some sub
    → let (f, m', w') = deliver_pending env p m topic w in
      (is_resolved (subscription_states m j) ≡ true → entry_of m' j ≡ entry_of m j)
      × (is_resolved (subscription_states m j) ≡ false
          → EntryIsHonest (payload m w) (placed_at m sub w') (entry_of m' j))
unfolding deliver_pending
deliver_pending_lem env p m topic w j sub found =
    let states = subscription_states m in
    let configured = subscription_names topic.subscriptions in
    let names = pending_subscriptions states configured in
    let due = contains-pending_subscriptions states configured j in
    let listed = contains-subscription_names topic.subscriptions j sub found in
    let (f, m', w') = deliver_each env p topic names (0, m, w) in
    let (same, archive) = each_frame env p topic names 0 m w in
    (
      λ done. each_kept env p topic names 0 m w j (ground (arith, due)),
      λ open_.
          EntryIsHonest-back m m' w w' sub (entry_of m' j) same archive
            (each_Honest env p topic names j sub 0 m w found (inl (ground (arith, due, listed)))),
    )
