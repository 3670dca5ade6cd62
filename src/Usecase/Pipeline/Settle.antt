-- ===== src/Usecase/Pipeline/Settle.antt =====
-- internal/usecase/pipeline.go: settle against a description of the status by quantifiers.
use file_pubsub.Base.{
  ℕ, String, ◌≡◌, Bool, true, false, not, ◌&&◌, ◌||◌, List, [], ◌∷◌, all, any, if◌then◌else◌, arith,
}
use file_pubsub.Config.{Topic, subscription_names}
use file_pubsub.Domain.State.{MessageStatus, SubscriptionStatus, delivered, failed, dlq}
use file_pubsub.Store.Manifest.{Manifest, subscription_states}
use file_pubsub.Usecase.Pipeline.{Flags, see, settle_loop, settle, is_empty, first_time}

abbrev pub is_delivered : SubscriptionStatus → Bool
is_delivered delivered = true
is_delivered _ = false

abbrev pub is_failed : SubscriptionStatus → Bool
is_failed failed = true
is_failed _ = false

abbrev pub is_dlq : SubscriptionStatus → Bool
is_dlq dlq = true
is_dlq _ = false

see_lem :
    (s : SubscriptionStatus) (f : Flags)
    → ((see s f).all_delivered ≡ (f.all_delivered && is_delivered s))
      × ((see s f).any_failed ≡ (f.any_failed || is_failed s))
      × ((see s f).any_dlq ≡ (f.any_dlq || is_dlq s))
see_lem s f = ground arith

settle_loop_lem :
    (states : String → SubscriptionStatus) (names : List String) (f : Flags)
    → let g = settle_loop states names f in
      (g.all_delivered ≡ (f.all_delivered && all (λ n. is_delivered (states n)) names))
      × (g.any_failed ≡ (f.any_failed || any (λ n. is_failed (states n)) names))
      × (g.any_dlq ≡ (f.any_dlq || any (λ n. is_dlq (states n)) names))
unfolding settle_loop
settle_loop_lem states [] f = ground arith
settle_loop_lem states (name ∷ names) f =
    ground (arith, settle_loop_lem states names (see (states name) f), see_lem (states name) f)

-- The status that the configured subscriptions' states give a message that had status `old`.
abbrev pub status_of : List String → (String → SubscriptionStatus) → MessageStatus → MessageStatus
status_of names states old =
    if not (is_empty names) && all (λ n. is_delivered (states n)) names
    then MessageStatus.delivered
    else if any (λ n. is_failed (states n)) names
    then MessageStatus.failed
    else if any (λ n. is_dlq (states n)) names
    then MessageStatus.dlq
    else old

is_empty-subscription_names :
    (topic : Topic)
    → is_empty (subscription_names topic.subscriptions) ≡ is_empty topic.subscriptions
unfolding subscription_names
is_empty-subscription_names topic = ground arith

-- A message is settled as delivered exactly when the topic has subscriptions and all of them are
-- delivered; otherwise one failed subscription makes it failed, otherwise an isolated one makes it
-- dlq, and otherwise it keeps its status. The time of delivery is set once and never moved, and
-- nothing else of the manifest changes.
pub settle_lem :
    (t : ℕ) (topic : Topic) (m : Manifest)
    → let names = subscription_names topic.subscriptions in
      let m' = settle t topic m in
      (m'.status ≡ status_of names (subscription_states m) m.status)
      × (m'.delivered_at ≡ (
          if not (is_empty names) && all (λ n. is_delivered (subscription_states m n)) names
          then first_time m.delivered_at t
          else m.delivered_at))
      × (m' ≡ record m { status = m'.status; delivered_at = m'.delivered_at })
unfolding settle
settle_lem t topic m = ground (
  arith,
  is_empty-subscription_names topic,
  settle_loop_lem (subscription_states m) (subscription_names topic.subscriptions) (record {
    all_delivered = not (is_empty topic.subscriptions);
    any_failed = false;
    any_dlq = false;
  }),
)
