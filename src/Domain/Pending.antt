-- ===== src/Domain/Pending.antt =====
-- internal/domain/idempotency.go: which subscriptions still need a delivery.
use file_pubsub.Base.{
  String, ◌≡◌, Bool, true, false, ◌&&◌, not, List, [], ◌∷◌, arith, contains, string_eq, eq_iff,
  if◌then◌else◌, refl,
}
use file_pubsub.Domain.State.{SubscriptionStatus, delivered, dlq}

-- The `switch`: a delivered or isolated subscription is passed over.
unfoldable pub is_resolved : SubscriptionStatus → Bool
is_resolved delivered = true
is_resolved dlq = true
is_resolved _ = false

unfoldable pub pending_subscriptions : (String → SubscriptionStatus) → List String → List String
pending_subscriptions states [] = []
pending_subscriptions states (name ∷ rest) =
    let pending = pending_subscriptions states rest in
    if is_resolved (states name) then pending else name ∷ pending

-- A name is pending exactly when it is configured and neither delivered nor isolated.
pub contains-pending_subscriptions :
    (states : String → SubscriptionStatus) (names : List String) (n : String)
    → contains n (pending_subscriptions states names)
      ≡ (contains n names && not (is_resolved (states n)))
unfolding pending_subscriptions
contains-pending_subscriptions states [] n = refl
contains-pending_subscriptions states (name ∷ rest) n =
    ground (arith, eq_iff name n, contains-pending_subscriptions states rest n)
