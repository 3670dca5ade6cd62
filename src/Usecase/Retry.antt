-- ===== src/Usecase/Retry.antt =====
-- internal/usecase/retry.go: failed messages are delivered again, or isolated after the limit.
pub mod Isolated
use file_pubsub.Base.{
  ℕ, suc, String, Bool, true, false, not, ◌||◌, none, some, List, [], ◌∷◌, ◌==◌, ltb, string_eq,
  pair_eq, if◌then◌else◌, Result, ok, err,
}
use file_pubsub.Base.Dict
use file_pubsub.Config.{Topic, find_topic}
use file_pubsub.Domain.Limits.{should_isolate}
use file_pubsub.Domain.State.{SubscriptionStatus, status_eq, failed, retrying, delivering}
use file_pubsub.Store.Manifest.{
  Manifest, SubscriptionDelivery, set_subscription_state, append_event,
}
use file_pubsub.Store.World.{World, Env, DlqMeta, Io, emit, now}
use file_pubsub.Store.Files.{isolate}
use file_pubsub.Store.ManifestStore.{list_manifests}
use file_pubsub.Usecase.Pipeline.{
  Pipeline, event, ensure_lease, transition_status, deliver_pending, record_delivery,
  delivery_event,
}
use file_pubsub.Usecase.Fanout.{each_message, logged}

abbrev pub is_failed_status : SubscriptionStatus → Bool
is_failed_status failed = true
is_failed_status _ = false

unfoldable pub failed_subs : List SubscriptionDelivery → List String
failed_subs [] = []
failed_subs (s ∷ ss) =
    let rest = failed_subs ss in if is_failed_status s.status then s.subscription ∷ rest else rest

-- The first error text of a failed subscription.
failure_reason : List SubscriptionDelivery → String
failure_reason [] = ""
failure_reason (s ∷ ss) =
    let rest = failure_reason ss in
    if is_failed_status s.status then (if s.last_error == "" then rest else s.last_error) else rest

unfoldable pub isolation_reason : Manifest → String
unfolding failure_reason
isolation_reason m =
    let reason = failure_reason m.subscriptions in
    if reason == "" then "delivery failed repeatedly" else reason

module _ (env : Env) (p : Pipeline) where
  -- The loop that marks the failed subscriptions as isolated.
  unfoldable pub mark_isolated : ℕ → String → List String → Manifest × World → Manifest × World
  mark_isolated t reason [] r = r
  mark_isolated t reason (name ∷ names) (m, w) = mark_isolated t reason names (
    append_event (set_subscription_state m name SubscriptionStatus.dlq none reason)
        (delivery_event t name "dlq_isolated" reason),
    emit (event m.message_id m.topic name "dlq_isolated") w,
  )

  unfoldable pub isolated_or_reverted : Manifest → Topic → ℕ → Result (Unit {0}) × World → World
  unfolding mark_isolated
  isolated_or_reverted m t at (err e, w) =
      emit (event m.message_id m.topic "" "dlq_isolation_failed")
        (logged "dlq_isolation_failed" m (transition_status env m.message_id retrying failed w))
  isolated_or_reverted m t at (ok _, w) =
      let (m', w') = mark_isolated at (isolation_reason m) (failed_subs m.subscriptions) (m, w) in
      logged "retry_failed" m (record_delivery env m' t w')

  unfoldable pub dlq_meta_of : Manifest → ℕ → DlqMeta
  dlq_meta_of m t = record {
    message_id = m.message_id;
    topic = m.topic;
    isolation_reason = isolation_reason m;
    failure_count = m.retry_count;
    isolated_at = t;
  }

  unfoldable pub isolate_to_dlq : Manifest → Topic → World → World
  unfolding isolated_or_reverted dlq_meta_of
  isolate_to_dlq m t w =
      isolated_or_reverted m t (now env w)
        (isolate env (Dict.get w.archive (m.topic, m.message_id)) (dlq_meta_of m (now env w)) w)

  unfoldable pub retry_delivered : Manifest → Topic → Result (Unit {0}) × World → World
  retry_delivered m t (err e, w) = emit (event m.message_id m.topic "" "retry_failed") w
  retry_delivered m t (ok _, w) =
      let sent = emit (event m.message_id m.topic "" "retry") w in
      let (failures, m', w') = deliver_pending env p (record m { status = delivering }) t sent in
      let counted = if ltb 0 failures then record m' { retry_count = suc m'.retry_count } else m' in
      logged "retry_failed" m (record_delivery env counted t w')

  unfoldable pub retry_started : Manifest → Topic → Result (Unit {0}) × World → World
  unfolding retry_delivered isolate_to_dlq
  retry_started m t (err e, w) = emit (event m.message_id m.topic "" "retry_failed") w
  retry_started m t (ok _, w) =
      let m' = record m { status = retrying } in
      if should_isolate m.retry_count p.cfg.retry_max_count
      then isolate_to_dlq m' t w
      else retry_delivered m' t (transition_status env m.message_id retrying delivering w)

  unfoldable pub retry_start : Manifest → Io (Unit {0})
  retry_start m w =
      if m.status == failed
      then transition_status env m.message_id failed retrying w
      else (ok tt, w)

  unfoldable pub retry_leased : Manifest → Topic → Result (Unit {0}) × World → Bool × World
  unfolding retry_started retry_start
  retry_leased m t (err e, w) = (false, emit (event m.message_id m.topic "" "lease_lost") w)
  retry_leased m t (ok _, w) = (true, retry_started m t (retry_start m w))

  unfoldable pub retry_message : Manifest → World → Bool × World
  unfolding retry_leased
  retry_message m w =
      if not (m.status == failed || m.status == retrying)
      then (true, w)
      else elim (find_topic p.cfg.topics m.topic) [
        | none ↦ (true, emit (event m.message_id m.topic "" "retry_skipped") w)
        | some t ↦ retry_leased m t (ensure_lease env p w)
      ]

  abbrev pub retry_listed : Result (List Manifest) × World → World
  retry_listed (err e, w) = emit (event "" "" "" "retry_failed") w
  retry_listed (ok ms, w) = each_message env retry_message ms w

  unfoldable pub retry : World → World
  unfolding retry_message each_message
  retry w = retry_listed (list_manifests env w)
