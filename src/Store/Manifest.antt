-- ===== src/Store/Manifest.antt =====
-- internal/gateway/store/manifest.go: the delivery record of one message, and its pure methods.
-- Times are nanoseconds; a nil `*time.Time` is `none`.
pub mod States
pub mod Merge
pub mod Events
use file_pubsub.Base.{
  ℕ, suc, String, Bool, true, false, ◌&&◌, ◌||◌, Option, none, some, List, [], ◌∷◌, ◌++◌, ◌==◌,
  nat_eq, string_eq, if◌then◌else◌, contains,
}
use file_pubsub.Domain.Limits.{Message}
use file_pubsub.Domain.State.{MessageStatus, SubscriptionStatus, collected, delivered, dlq, unset}

pub record SubscriptionDelivery : Type 0 where
  pub subscription : String
  pub status : SubscriptionStatus
  pub delivered_at : Option ℕ
  pub last_error : String

pub record ReplayRecord : Type 0 where
  pub replayed_at : ℕ
  pub target_subscriptions : List String
  pub result : String

pub record DeliveryEvent : Type 0 where
  pub at : ℕ
  pub subscription : String
  pub event_type : String
  pub detail : String

pub record Manifest : Type 0 where
  pub message_id : String
  pub topic : String
  pub original_file_name : String
  pub collected_at : ℕ
  pub status : MessageStatus
  pub archive_path : String
  pub saved_at : Option ℕ
  pub retention_deadline : Option ℕ
  pub subscriptions : List SubscriptionDelivery
  pub retry_count : ℕ
  pub delivered_at : Option ℕ
  pub replay_records : List ReplayRecord
  pub delivery_events : List DeliveryEvent
  pub revision : ℕ

unfoldable pub new_manifest : Message → Manifest
new_manifest msg = record {
  message_id = msg.message_id;
  topic = msg.topic;
  original_file_name = msg.original_file_name;
  collected_at = msg.collected_at;
  status = collected;
  archive_path = "";
  saved_at = none;
  retention_deadline = none;
  subscriptions = [];
  retry_count = 0;
  delivered_at = none;
  replay_records = [];
  delivery_events = [];
  revision = 0;
}

-- The loop of SetSubscriptionState: the first entry of that name is replaced, else one is appended.
unfoldable pub set_entry :
    SubscriptionDelivery → List SubscriptionDelivery → List SubscriptionDelivery
set_entry s [] = s ∷ []
set_entry s (x ∷ xs) =
    let rest = set_entry s xs in if x.subscription == s.subscription then s ∷ xs else x ∷ rest

unfoldable pub set_subscription_state :
    Manifest → String → SubscriptionStatus → Option ℕ → String → Manifest
unfolding set_entry
set_subscription_state m name status delivered_at last_error = record m {
  subscriptions =
      set_entry
        (record {
          subscription = name;
          status = status;
          delivered_at = delivered_at;
          last_error = last_error;
        })
        m.subscriptions;
}

-- The map that SubscriptionStates builds, as a function: a later entry of a name overwrites.
unfoldable pub last_state :
    SubscriptionStatus → List SubscriptionDelivery → String → SubscriptionStatus
last_state found [] name = found
last_state found (x ∷ xs) name =
    last_state (if x.subscription == name then x.status else found) xs name

unfoldable pub subscription_states : Manifest → String → SubscriptionStatus
unfolding last_state
subscription_states m = last_state unset m.subscriptions

unfoldable pub find_entry : List SubscriptionDelivery → String → Option SubscriptionDelivery
find_entry [] name = none
find_entry (x ∷ xs) name =
    let rest = find_entry xs name in if x.subscription == name then some x else rest

unfoldable pub find_subscription : Manifest → String → Option SubscriptionDelivery
unfolding find_entry
find_subscription base name = find_entry base.subscriptions name

unfoldable pub append_event : Manifest → DeliveryEvent → Manifest
append_event m e = record m { delivery_events = m.delivery_events ++ e ∷ [] }

unfoldable pub append_replay : Manifest → ReplayRecord → Manifest
append_replay m r = record m { replay_records = m.replay_records ++ r ∷ [] }

-- Equal `eventKey`s: the key joins the four fields by NUL, which no name contains.
abbrev pub same_event : DeliveryEvent → DeliveryEvent → Bool
same_event d e =
    d.at == e.at
    && (d.subscription == e.subscription && (d.event_type == e.event_type && d.detail == e.detail))

abbrev pub has_event : DeliveryEvent → List DeliveryEvent → Bool
has_event e [] = false
has_event e (x ∷ xs) = same_event x e || has_event e xs

-- The set `existing` holds the keys of the events that are already in the list.
unfoldable pub add_missing : List DeliveryEvent → List DeliveryEvent → List DeliveryEvent
add_missing present [] = present
add_missing present (e ∷ events) =
    add_missing (if has_event e present then present else present ++ e ∷ []) events

unfoldable pub append_missing_events : Manifest → List DeliveryEvent → Manifest
unfolding add_missing
append_missing_events m events = record m { delivery_events = add_missing m.delivery_events events }

unfoldable pub is_settled : SubscriptionStatus → Bool
is_settled delivered = true
is_settled dlq = true
is_settled _ = false

abbrev settled_entry : Option SubscriptionDelivery → Bool
settled_entry none = false
settled_entry (some s) = is_settled s.status

-- mergeSubscriptions: one subscription of the update, then the loop over all.
unfoldable pub merge_entry :
    List SubscriptionDelivery → SubscriptionDelivery → List SubscriptionDelivery
unfolding is_settled find_entry set_entry
merge_entry base u =
    if settled_entry (find_entry base u.subscription) then base else set_entry u base

unfoldable pub merge_entries :
    List SubscriptionDelivery → List SubscriptionDelivery → List SubscriptionDelivery
unfolding merge_entry
merge_entries base [] = base
merge_entries base (u ∷ upd) = merge_entries (merge_entry base u) upd

unfoldable pub merge_subscriptions : Manifest → Manifest → Manifest
unfolding merge_entries
merge_subscriptions base upd = record base {
  subscriptions = merge_entries base.subscriptions upd.subscriptions;
}
