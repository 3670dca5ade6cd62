-- ===== src/Tests/Stores.antt =====
-- The stores at the sample installation.
use file_pubsub.Base.{
  suc, ◌≡◌, refl, true, some, none, List, [], ◌∷◌, ok, string_eq, pair_eq, nat_eq,
}
use file_pubsub.Base.Dict
use file_pubsub.Domain.State.{SubscriptionStatus}
use file_pubsub.Store.Manifest.{
  Manifest, DeliveryEvent, merge_subscriptions, find_subscription, find_entry, is_settled,
}
use file_pubsub.Store.Manifest.Merge.{settled_at, settled-merge_subscriptions}
use file_pubsub.Store.World.{World, DlqMeta}
use file_pubsub.Store.ManifestStore.{Mutate}
use file_pubsub.Store.Update.{update, bump}
use file_pubsub.Store.Update.Outcome.{Outcome, update_lem}
use file_pubsub.Store.Update.Progress.{update-IsHealthy}
use file_pubsub.Tests.Installation.{
  calm, calm-IsAlone, calm-IsHealthy, entry, message, payload, world,
}

abbrev retried : Mutate
retried t base = ok (record base { retry_count = suc base.retry_count })

update_lem_example : let (r, w') = update calm "m1" retried world in Outcome "m1" retried world r w'
update_lem_example = update_lem calm calm-IsAlone "m1" retried world

update-IsHealthy_example :
    let (r, w') = update calm "m1" retried world in
    (r ≡ ok (bump message (record message { retry_count = 2 })))
    × (Dict.get w'.manifests "m1" ≡ some (bump message (record message { retry_count = 2 })))
    × (Dict.get w'.locks "m1" ≡ none)
unfolding Dict.get
update-IsHealthy_example =
    update-IsHealthy calm calm-IsHealthy calm-IsAlone "m1" retried message
      (record message { retry_count = 2 }) world (λ e. cc) refl refl refl

-- What the other writer knows: mail has its copy, and audit is thought to have failed.
abbrev later : Manifest
later = record message {
  subscriptions =
      entry "audit" SubscriptionStatus.failed ∷ entry "mail" SubscriptionStatus.delivered ∷ [];
}

settled-merge_subscriptions_example :
    find_subscription (merge_subscriptions message later) "audit"
    ≡ find_subscription message "audit"
unfolding find_entry is_settled
settled-merge_subscriptions_example = settled-merge_subscriptions message later "audit" settled
  where
    settled : settled_at "audit" message.subscriptions ≡ true
    settled = refl

abbrev news : List DeliveryEvent
news =
    record { at = 101; subscription = ""; event_type = "archived"; detail = "" }
    ∷ record { at = 200; subscription = "mail"; event_type = "delivered"; detail = "" }
    ∷ []

abbrev working : World
working = record world { work = (("orders", "m2"), payload) ∷ [] }

abbrev meta : DlqMeta
meta = record {
  message_id = "m1";
  topic = "orders";
  isolation_reason = "disk full";
  failure_count = 3;
  isolated_at = 900;
}
