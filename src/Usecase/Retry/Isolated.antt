-- ===== src/Usecase/Retry/Isolated.antt =====
-- internal/usecase/retry.go: the DLQ and the manifest during isolateToDLQ.
use file_pubsub.Base.{
  ℕ, String, ◌≡◌, refl, ◌∙◌, ap, ◌⊎◌, Option, none, some, List, [], ◌∷◌, ◌==◌, string_eq, pair_eq,
  arith, eq_iff, ◌+◌, Result, ok, err, Bool-cases, Option-cases, inl, inr,
}
use file_pubsub.Base.Dict
use file_pubsub.Base.Dict.{Dict, get-put}
use file_pubsub.Config.{Topic}
use file_pubsub.Domain.State.{MessageStatus, failed, retrying}
use file_pubsub.Store.Manifest.{Manifest, SubscriptionDelivery}
use file_pubsub.Store.World.{World, Env, IsAlone, DlqMeta, now}
use file_pubsub.Store.Files.{isolate}
use file_pubsub.Store.Files.Laws.{isolate_lem}
use file_pubsub.Store.Update.Outcome.{stored}
use file_pubsub.Store.Update.Frame.{but_manifests-update}
use file_pubsub.Usecase.Fanout.{logged}
use file_pubsub.Usecase.Pipeline.{Pipeline, record_delivery, transition_status, record_callback}
use file_pubsub.Usecase.Pipeline.Record.{transition_status_lem, TransitionSpec}
use file_pubsub.Usecase.Retry.{
  isolate_to_dlq, isolated_or_reverted, dlq_meta_of, mark_isolated, failed_subs, isolation_reason,
}

-- The subscriptions' entries that the store has for a message.
abbrev pub entries_in : String → Dict String Manifest → Option (List SubscriptionDelivery)
entries_in id d = elim (Dict.get d id) [ none ↦ none | some m ↦ some m.subscriptions ]

abbrev pub stored_entries : String → World → Option (List SubscriptionDelivery)
stored_entries id w = entries_in id w.manifests

module _ (env : Env) (p : Pipeline) (alone : IsAlone env) where
  -- The DLQ has payload and metadata, or no stored entry has changed.
  abbrev pub IsIsolated : Manifest → World → World → Type 0
  IsIsolated m w w' =
      ((Dict.get w'.dlq (m.topic, m.message_id) ≡ Dict.get w.archive (m.topic, m.message_id))
        × (Dict.get w'.dlq_meta (m.topic, m.message_id) ≡ some (dlq_meta_of env p m (now env w))))
      ⊎ ((id : String) → stored_entries id w' ≡ stored_entries id w)

  isolate-manifests :
      (o : Option (List ℕ)) (meta : DlqMeta) (w : World)
      → (isolate env o meta w).1.manifests ≡ w.manifests
  unfolding isolate
  isolate-manifests o meta w = elim (Option-cases o) [
    | inl missing ↦ ground (arith, missing)
    | inr (content, there) ↦ ground (arith, there)
  ]

  logged-same :
      (event_type : String) (m : Manifest) {A : Type 0} (q : Result A × World)
      → ((logged event_type m q).manifests ≡ q.1.manifests)
        × ((logged event_type m q).dlq ≡ q.1.dlq)
        × ((logged event_type m q).dlq_meta ≡ q.1.dlq_meta)
  logged-same event_type m (ok _, w) = (refl, refl, refl)
  logged-same event_type m (err e, w) = (refl, refl, refl)

  mark_isolated-same :
      (t : ℕ) (reason : String) (names : List String) (m : Manifest) (w : World)
      → let (m', w') = mark_isolated env p t reason names (m, w) in
        (w'.dlq ≡ w.dlq) × (w'.dlq_meta ≡ w.dlq_meta)
  unfolding mark_isolated
  mark_isolated-same t reason [] m w = (refl, refl)
  mark_isolated-same t reason (name ∷ names) m w = mark_isolated-same t reason names _ _

  stored-entries :
      (id : String) (base : Manifest) (to : MessageStatus) (n : ℕ) (w : World) (j : String)
      → Dict.get w.manifests id ≡ some base
      → stored_entries j (stored id (record base { status = to; revision = n }) w)
        ≡ stored_entries j w
  stored-entries id base to n w j found = elim (Bool-cases (id == j)) [
    | inl same ↦ ground (
      arith,
      get-put w.manifests id j (record base { status = to; revision = n }),
      eq_iff id j,
      found,
    )
    | inr differ ↦
        ground (arith, get-put w.manifests id j (record base { status = to; revision = n }))
  ]

  transition-entries :
      (id : String) (from to : MessageStatus) (w : World) (j : String)
      → stored_entries j (transition_status env id from to w).1 ≡ stored_entries j w
  transition-entries id from to w j =
      let (r, w') = transition_status env id from to w in
      spec r w' (transition_status_lem env alone id from to w)
    where
      spec :
          (r : Result (Unit {0})) (w' : World)
          → TransitionSpec env alone id from to w r w'
          → stored_entries j w' ≡ stored_entries j w
      spec (err e) w' same = ap (stored_entries j) same
      spec (ok _) w' (base, found, inl (differs, same)) = ap (stored_entries j) same
      spec (ok _) w' (base, found, inr (was, valid, same)) =
          ap (stored_entries j) same ∙ stored-entries id base to (base.revision + 1) w j found

  reverted :
      (m : Manifest) (t : Topic) (at : ℕ) (q : Result (Unit {0}) × World) (w : World)
      → q.1.manifests ≡ w.manifests
      → (q.0 ≡ ok tt
          → (Dict.get q.1.dlq (m.topic, m.message_id) ≡ Dict.get w.archive (m.topic, m.message_id))
            × (Dict.get q.1.dlq_meta (m.topic, m.message_id)
                ≡ some (dlq_meta_of env p m (now env w))))
      → IsIsolated m w (isolated_or_reverted env p m t at q)
  unfolding isolated_or_reverted record_delivery
  reverted m t at (err e, v) w same done = inr (λ id.
      ap (entries_in id)
        (logged-same "dlq_isolation_failed" m
          (transition_status env m.message_id retrying failed v)).0
      ∙ (transition-entries m.message_id retrying failed v id ∙ ap (entries_in id) same))
  reverted m t at (ok _, v) w same done =
      let reason = isolation_reason m in
      let (m', v') = mark_isolated env p at reason (failed_subs m.subscriptions) (m, v) in
      let marked = mark_isolated-same at reason (failed_subs m.subscriptions) m v in
      let log = logged-same "retry_failed" m (record_delivery env m' t v') in
      let kept = but_manifests-update env alone m'.message_id (record_callback m' t) v' in
      let (payload, meta) = done refl in
      inl (
        ap (λ d. Dict.get d (m.topic, m.message_id))
              (log.1 ∙ (ap (λ (u : World). u.dlq) kept ∙ marked.0))
            ∙ payload,
        ap (λ d. Dict.get d (m.topic, m.message_id))
              (log.2 ∙ (ap (λ (u : World). u.dlq_meta) kept ∙ marked.1))
            ∙ meta,
      )

  -- Whatever fails while no other process runs, after isolateToDLQ either the DLQ holds what the
  -- archive held for the message and the metadata with its topic, id, reason and retry count, or no
  -- stored subscription entry of any message has changed, so none is newly recorded as isolated.
  pub isolate_to_dlq_lem :
      (m : Manifest) (t : Topic) (w : World) → IsIsolated m w (isolate_to_dlq env p m t w)
  unfolding isolate_to_dlq
  isolate_to_dlq_lem m t w =
      let meta = dlq_meta_of env p m (now env w) in
      let content = Dict.get w.archive (m.topic, m.message_id) in
      reverted m t (now env w) (isolate env content meta w) w (isolate-manifests content meta w)
        (λ good. isolate_lem env content meta w good)
