-- ===== src/Usecase/Keeps/Retrying.antt =====
-- internal/usecase: retry.go and retention.go do not write data_dir/lock.
use file_pubsub.Base.{
  ℕ, suc, String, ◌≡◌, refl, ◌∙◌, arith, Result, ok, err, List, [], ◌∷◌, string_eq, pair_eq, true,
  false, Bool, Option-cases, inl, inr,
}
use file_pubsub.Base.Dict
use file_pubsub.Config.{Topic, find_topic}
use file_pubsub.Domain.State.{MessageStatus, status_eq}
use file_pubsub.Store.World.{World, Env, IsAlone, now, emit}
use file_pubsub.Store.Manifest.{Manifest}
use file_pubsub.Store.ManifestStore.{list_manifests}
use file_pubsub.Store.Files.{isolate, exists}
use file_pubsub.Usecase.Pipeline.{Pipeline, event, ensure_lease, deliver_pending, transition_status}
use file_pubsub.Usecase.Retry.{
  mark_isolated, isolated_or_reverted, isolate_to_dlq, dlq_meta_of, retry_delivered, retry_started,
  retry_start, retry_leased, retry_message, retry_listed, retry, isolation_reason, failed_subs,
}
use file_pubsub.Usecase.Retention.{
  retention_message, retention_exists, retention_deleted, retention_listed, retention,
}
use file_pubsub.Usecase.Keeps.{Keeps, Leaves}
use file_pubsub.Usecase.Keeps.Files.{
  list_manifests-Keeps, isolate-Keeps, exists-Keeps, delete-Keeps,
}
use file_pubsub.Usecase.Keeps.Stages.{
  ensure_lease-Keeps, record_delivery-Keeps, transition_status-Keeps, deliver_pending-Keeps,
  each_message-Leaves,
}

module _ (env : Env) (alone : IsAlone env) (p : Pipeline) where
  mark_isolated-Keeps :
      (t : ℕ) (reason : String) (names : List String) (r : Manifest × World)
      → (mark_isolated env p t reason names r).1.lease ≡ r.1.lease
  unfolding mark_isolated
  mark_isolated-Keeps t reason [] r = refl
  mark_isolated-Keeps t reason (name ∷ names) (m, w) = mark_isolated-Keeps t reason names _

  isolated_or_reverted-Keeps :
      (m : Manifest) (t : Topic) (at : ℕ) (q : Result (Unit {0}) × World)
      → (isolated_or_reverted env p m t at q).lease ≡ q.1.lease
  unfolding isolated_or_reverted
  isolated_or_reverted-Keeps m t at (err e, w) = ground (
    arith,
    transition_status-Keeps env alone p m.message_id MessageStatus.retrying MessageStatus.failed w,
  )
  isolated_or_reverted-Keeps m t at (ok _, w) =
      let names = failed_subs m.subscriptions in
      let (m', v) = mark_isolated env p at (isolation_reason m) names (m, w) in
      ground (
        arith,
        mark_isolated-Keeps at (isolation_reason m) names (m, w),
        record_delivery-Keeps env alone p m' t v,
      )

  isolate_to_dlq-Keeps : (m : Manifest) (t : Topic) → Leaves (isolate_to_dlq env p m t)
  unfolding isolate_to_dlq
  isolate_to_dlq-Keeps m t w =
      let file = Dict.get w.archive (m.topic, m.message_id) in
      let meta = dlq_meta_of env p m (now env w) in
      isolated_or_reverted-Keeps m t (now env w) (isolate env file meta w)
      ∙ isolate-Keeps env file meta w

  retry_delivered-Keeps :
      (m : Manifest) (t : Topic) (q : Result (Unit {0}) × World)
      → (retry_delivered env p m t q).lease ≡ q.1.lease
  unfolding retry_delivered
  retry_delivered-Keeps m t (err e, w) = refl
  retry_delivered-Keeps m t (ok _, w) =
      let sending = record m { status = MessageStatus.delivering } in
      let sent = emit (event m.message_id m.topic "" "retry") w in
      let (failures, m', v) = deliver_pending env p sending t sent in
      ground (
        arith,
        deliver_pending-Keeps env alone p sending t sent,
        record_delivery-Keeps env alone p m' t v,
        record_delivery-Keeps env alone p (record m' { retry_count = suc m'.retry_count }) t v,
      )

  retry_started-Keeps :
      (m : Manifest) (t : Topic) (q : Result (Unit {0}) × World)
      → (retry_started env p m t q).lease ≡ q.1.lease
  unfolding retry_started
  retry_started-Keeps m t (err e, w) = refl
  retry_started-Keeps m t (ok _, w) =
      let m' = record m { status = MessageStatus.retrying } in
      let q =
        transition_status env m.message_id MessageStatus.retrying MessageStatus.delivering w in
      ground (
        arith,
        isolate_to_dlq-Keeps m' t w,
        retry_delivered-Keeps m' t q,
        transition_status-Keeps env alone p m.message_id MessageStatus.retrying
            MessageStatus.delivering w,
      )

  retry_start-Keeps : (m : Manifest) → Keeps (retry_start env p m)
  unfolding retry_start
  retry_start-Keeps m w = ground (
    arith,
    transition_status-Keeps env alone p m.message_id MessageStatus.failed MessageStatus.retrying w,
  )

  retry_leased-Keeps :
      (m : Manifest) (t : Topic) (q : Result (Unit {0}) × World)
      → (retry_leased env p m t q).1.lease ≡ q.1.lease
  unfolding retry_leased
  retry_leased-Keeps m t (err e, w) = refl
  retry_leased-Keeps m t (ok _, w) =
      retry_started-Keeps m t (retry_start env p m w) ∙ retry_start-Keeps m w

  retry_message-Keeps : (m : Manifest) → Keeps (retry_message env p m)
  unfolding retry_message
  retry_message-Keeps m w = elim (Option-cases (find_topic p.cfg.topics m.topic)) [
    | inl e ↦ rw e (ground arith)
    | inr (t, e) ↦ rw e (
        ground
          (arith, ensure_lease-Keeps env alone p w, retry_leased-Keeps m t (ensure_lease env p w)))
  ]

  retry_listed-Keeps :
      (q : Result (List Manifest) × World) → (retry_listed env p q).lease ≡ q.1.lease
  retry_listed-Keeps (err e, w) = refl
  retry_listed-Keeps (ok ms, w) =
      each_message-Leaves env alone p (retry_message env p) retry_message-Keeps ms w

  pub retry-Leaves : Leaves (retry env p)
  unfolding retry
  retry-Leaves w = retry_listed-Keeps (list_manifests env w) ∙ list_manifests-Keeps env w

  retention_exists-Keeps :
      (m : Manifest) (q : Result Bool × World) → (retention_exists env m q).lease ≡ q.1.lease
  unfolding retention_exists retention_deleted
  retention_exists-Keeps m (err e, w) = refl
  retention_exists-Keeps m (ok false, w) = refl
  retention_exists-Keeps m (ok true, w) = ground (arith, delete-Keeps env m.topic m.message_id w)

  retention_message-Keeps : (t : ℕ) (m : Manifest) → Keeps (retention_message env t m)
  unfolding retention_message
  retention_message-Keeps t m w = ground (
    arith,
    exists-Keeps env m.topic m.message_id w,
    retention_exists-Keeps m (exists env m.topic m.message_id w),
  )

  retention_listed-Keeps :
      (q : Result (List Manifest) × World) → (retention_listed env q).lease ≡ q.1.lease
  retention_listed-Keeps (err e, w) = refl
  retention_listed-Keeps (ok ms, w) =
      each_message-Leaves env alone p (retention_message env (now env w))
        (retention_message-Keeps (now env w)) ms w

  pub retention-Leaves : Leaves (retention env)
  unfolding retention
  retention-Leaves w = retention_listed-Keeps (list_manifests env w) ∙ list_manifests-Keeps env w
