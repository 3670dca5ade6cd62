-- ===== src/Usecase/Pipeline.antt =====
-- internal/usecase/pipeline.go: what the stages share. The logger and, where `has_metrics` says so,
-- the metrics registry are part of the world.
pub mod Settle
pub mod Placing
pub mod Deliver
pub mod Complete
pub mod Record
use Prim.Native.String.{◌++◌ as append}
use file_pubsub.Base.{
  ℕ, zero, suc, ◌+◌, String, Bool, true, false, not, ◌&&◌, ◌||◌, Option, none, some, List, [], ◌∷◌,
  ◌++◌, ◌==◌, ltb, string_eq, pair_eq, if◌then◌else◌, Result, ok, err, Error, lease_lost,
  skip_manifest_update, invalid_transition, map,
}
use file_pubsub.Base.Dict
use file_pubsub.Base.Dict.{Dict}
use file_pubsub.Config.{Config, Topic, Subscription, find_subscription, subscription_names}
use file_pubsub.Domain.State.{
  MessageStatus, SubscriptionStatus, status_eq, status_beq, delivered, failed, dlq,
  validate_transition,
}
use file_pubsub.Domain.Pending.{pending_subscriptions}
use file_pubsub.Store.Manifest.{
  Manifest, DeliveryEvent, set_subscription_state, subscription_states, append_event,
  append_missing_events, merge_subscriptions,
}
use file_pubsub.Store.World.{World, Env, LogEvent, Metrics, Bytes, Io, fails, now, next, emit, pure}
use file_pubsub.Store.Files.{copy_file_atomic}
use file_pubsub.Store.ManifestStore.{Mutate}
use file_pubsub.Store.Update.{update}
use file_pubsub.Store.Lease.{holds_lease}

-- The node that leaseChecker asks for.
pub record Identity : Type 0 where
  pub hostname : String
  pub boot_id : String

pub record Pipeline : Type 0 where
  pub cfg : Config
  pub lease : Option Identity
  pub has_metrics : Bool

abbrev pub event : String → String → String → String → LogEvent
event message_id topic subscription event_type = record {
  message_id = message_id;
  topic = topic;
  subscription = subscription;
  event_type = event_type;
}

abbrev pub delivery_event : ℕ → String → String → String → DeliveryEvent
delivery_event t name event_type detail = record {
  at = t;
  subscription = name;
  event_type = event_type;
  detail = detail;
}

abbrev pub count_of : Dict String ℕ → String → ℕ
count_of d topic = elim (Dict.get d topic) [ none ↦ 0 | some n ↦ n ]

-- Any answer but "held" stops the stage.
abbrev pub lease_answer : Result Bool × World → Result (Unit {0}) × World
lease_answer (ok true, w) = (ok tt, w)
lease_answer (_, w) = (err lease_lost, w)

unfoldable pub ensure_lease : Env → Pipeline → Io (Unit {0})
ensure_lease env p w = elim p.lease [
  | none ↦ (ok tt, w)
  | some id ↦ lease_answer (holds_lease env id.hostname id.boot_id (now env w) w)
]

-- The three flags of the loop in settle.
pub record Flags : Type 0 where
  pub all_delivered : Bool
  pub any_failed : Bool
  pub any_dlq : Bool

abbrev see : SubscriptionStatus → Flags → Flags
see delivered f = f
see failed f = record f { all_delivered = false; any_failed = true }
see dlq f = record f { all_delivered = false; any_dlq = true }
see _ f = record f { all_delivered = false }

settle_loop : (String → SubscriptionStatus) → List String → Flags → Flags
settle_loop states [] f = f
settle_loop states (name ∷ names) f = settle_loop states names (see (states name) f)

abbrev is_empty {ℓ} : {A : Type ℓ} → List A → Bool
is_empty [] = true
is_empty (_ ∷ _) = false

abbrev first_time : Option ℕ → ℕ → Option ℕ
first_time none t = some t
first_time (some s) t = some s

abbrev conclude : ℕ → Manifest → Flags → Manifest
conclude t m f =
    if f.all_delivered
    then record m { status = MessageStatus.delivered; delivered_at = first_time m.delivered_at t }
    else if f.any_failed
    then record m { status = MessageStatus.failed }
    else if f.any_dlq
    then record m { status = MessageStatus.dlq }
    else m

unfoldable pub settle : ℕ → Topic → Manifest → Manifest
unfolding settle_loop
settle t topic m = conclude t m (
    settle_loop (subscription_states m) (subscription_names topic.subscriptions) (record {
      all_delivered = not (is_empty topic.subscriptions);
      any_failed = false;
      any_dlq = false;
    }))

-- The callback of recordDelivery over the manifest that was read under the lock.
unfoldable pub record_callback : Manifest → Topic → Mutate
unfolding settle
record_callback m topic t base =
    let merged = append_missing_events (merge_subscriptions base m) m.delivery_events in
    let counted =
      if ltb base.retry_count m.retry_count
      then record merged { retry_count = m.retry_count }
      else merged in
    ok (settle t topic counted)

-- The callback of transitionStatus.
unfoldable pub transition_callback : MessageStatus → MessageStatus → Mutate
transition_callback from to t base =
    if not (base.status == from)
    then err skip_manifest_update
    else elim (validate_transition base.status to) [
      | some e ↦ err e
      | none ↦ ok (record base { status = to })
    ]

abbrev forget {ℓ} : {A : Type ℓ} → Result A × World → Result (Unit {0}) × World
forget (ok _, w) = (ok tt, w)
forget (err e, w) = (err e, w)

-- The failures so far, the manifest in memory, and the world.
abbrev pub Delivery : Type 0
Delivery = ℕ × Manifest × World

module _ (env : Env) where
  unfoldable pub record_delivery : Manifest → Topic → Io Manifest
  record_delivery m topic = update env m.message_id (record_callback m topic)

  unfoldable pub transition_status : String → MessageStatus → MessageStatus → Io (Unit {0})
  transition_status id from to w = forget (update env id (transition_callback from to) w)

  -- The text that the manifest keeps of a failed delivery.
  abbrev pub failure_detail : String
  failure_detail = append "write to subscription directory failed: " (
      append env.error_text
        ". check the directory path, permissions and disk space; the delivery is retried up to retry_max_count and then isolated to the DLQ")

  abbrev count_failure : Pipeline → String → World → World
  count_failure p topic w =
      if p.has_metrics
      then record w {
        metrics = record w.metrics {
          delivery_failure_total =
              Dict.put w.metrics.delivery_failure_total topic
                (suc (count_of w.metrics.delivery_failure_total topic));
        };
      }
      else w

  -- What one copy's outcome writes into the manifest.
  unfoldable pub delivered_one :
      Pipeline → String → ℕ → Manifest → Result (Unit {0}) × World → Delivery
  delivered_one p name failures m (ok _, w) = (
    failures,
    append_event (set_subscription_state m name SubscriptionStatus.delivered (some (now env w)) "")
        (delivery_event (now env w) name "delivered" ""),
    emit (event m.message_id m.topic name "delivered") w,
  )
  delivered_one p name failures m (err e, w) = (
    suc failures,
    append_event (set_subscription_state m name SubscriptionStatus.failed none failure_detail)
        (delivery_event (now env w) name "delivery_failed" failure_detail),
    count_failure p m.topic (emit (event m.message_id m.topic name "delivery_failed") w),
  )

  -- CopyFileAtomic of the archive file into a subscription's directory.
  unfoldable pub place : Manifest → Subscription → Io (Unit {0})
  unfolding copy_file_atomic
  place m sub w =
      copy_file_atomic env (Dict.get w.archive (m.topic, m.message_id))
        (λ content v. record v {
          placed = Dict.put v.placed (sub.directory, m.original_file_name) content;
        })
        w

  -- One round of the loop in deliverPending.
  unfoldable pub deliver_one : Pipeline → Topic → String → Delivery → Delivery
  unfolding place delivered_one
  deliver_one p topic name (failures, m, w) = elim (find_subscription topic.subscriptions name) [
    | none ↦ (failures, m, w)
    | some sub ↦ delivered_one p name failures m (place m sub w)
  ]

  unfoldable pub deliver_each : Pipeline → Topic → List String → Delivery → Delivery
  unfolding deliver_one
  deliver_each p topic [] d = d
  deliver_each p topic (name ∷ names) d = deliver_each p topic names (deliver_one p topic name d)

  unfoldable pub deliver_pending : Pipeline → Manifest → Topic → World → Delivery
  unfolding deliver_each
  deliver_pending p m topic w =
      deliver_each p topic
        (pending_subscriptions (subscription_states m) (subscription_names topic.subscriptions))
        (0, m, w)
