-- ===== src/Tests/Stages.antt =====
-- The stages of a cycle at the sample installation.
use Prim.Native.String.{◌++◌ as append}
use file_pubsub.Base.{
  ◌≡◌, refl, true, false, some, none, [], ◌∷◌, eq_iff, nat_eq, string_eq, pair_eq, arith, ◌⊎◌,
}
use file_pubsub.Base.Dict
use file_pubsub.Config.{find_topic, find_subscription, subscription_names}
use file_pubsub.Domain.Limits.{Message, is_expired}
use file_pubsub.Domain.Pending.{is_resolved}
use file_pubsub.Domain.State.{MessageStatus}
use file_pubsub.Source.{Connector, FileInfo, local}
use file_pubsub.Store.Manifest.{Manifest, subscription_states}
use file_pubsub.Store.World.{World}
use file_pubsub.Store.ManifestStore.{list_manifests}
use file_pubsub.Usecase.Pipeline.{
  Pipeline, Identity, settle, record_delivery, transition_status, deliver_pending,
}
use file_pubsub.Usecase.Pipeline.Settle.{settle_lem}
use file_pubsub.Usecase.Pipeline.Placing.{EntryIsHonest, entry_of, placed_at}
use file_pubsub.Usecase.Pipeline.Placing as Placing
use file_pubsub.Usecase.Pipeline.Complete.{IsDelivered, deliver_pending-IsHealthy}
use file_pubsub.Usecase.Pipeline.Deliver.{deliver_pending_lem}
use file_pubsub.Usecase.Pipeline.Record.{
  DeliverySpec, record_delivery_lem, TransitionSpec, transition_status_lem,
}
use file_pubsub.Usecase.Collect.{unique_message_id, collect_message}
use file_pubsub.Usecase.Collect.Order.{unique_message_id_lem}
use file_pubsub.Usecase.Collect.Originals.{IsSafe, KeepsArchive, collect_message-IsSafe}
use file_pubsub.Usecase.Collect.Passes.{stability_file, skip_processed}
use file_pubsub.Usecase.Collect.Passes.Stable.{IsIdle, IsSettledFile, stability_file-IsIdle}
use file_pubsub.Usecase.Fanout.{fanout}
use file_pubsub.Usecase.Retry.{retry, isolate_to_dlq}
use file_pubsub.Usecase.Retry.Isolated.{IsIsolated, isolate_to_dlq_lem}
use file_pubsub.Usecase.Retention.{retention}
use file_pubsub.Usecase.Retention.Safe.{retention-keeps, retention-IsHealthy}
use file_pubsub.Usecase.Replay.{ReplayParams, replay, validate_replay}
use file_pubsub.Usecase.Replay.Checked.{Untouched, replay-Untouched}
use file_pubsub.Usecase.Fenced.{but_log, stages-IsFenced}
use file_pubsub.Tests.Installation.{
  calm, calm-IsAlone, calm-IsHealthy, invoices, message, node_b, orders, payload, pipeline, world,
}

settle_lem_example :
    let m' = settle 900 orders message in
    (m'.status ≡ MessageStatus.failed)
    × (m'.delivered_at ≡ none)
    × (m' ≡ record message { status = m'.status; delivered_at = m'.delivered_at })
unfolding subscription_states subscription_names
settle_lem_example = settle_lem 900 orders message

record_delivery_lem_example :
    let (r, w') = record_delivery calm message orders world in
    DeliverySpec message orders world r w'
record_delivery_lem_example = record_delivery_lem calm calm-IsAlone message orders world

transition_status_lem_example :
    let (r, w') = transition_status calm "m1" MessageStatus.delivering MessageStatus.failed world in
    TransitionSpec calm calm-IsAlone "m1" MessageStatus.delivering MessageStatus.failed world r w'
transition_status_lem_example =
    transition_status_lem calm calm-IsAlone "m1" MessageStatus.delivering MessageStatus.failed world

deliver_pending_lem_example :
    let (f, m', w') = deliver_pending calm pipeline message orders world in
    (is_resolved (subscription_states message "invoices") ≡ true
      → entry_of m' "invoices" ≡ entry_of message "invoices")
    × (is_resolved (subscription_states message "invoices") ≡ false
        → EntryIsHonest
            (Placing.payload message world)
            (placed_at message invoices w')
            (entry_of m' "invoices"))
unfolding find_subscription
deliver_pending_lem_example =
    deliver_pending_lem calm pipeline message orders world "invoices" invoices refl

abbrev inbox : Connector
inbox = local calm "/in"

inbox-KeepsArchive : KeepsArchive inbox
unfolding local
inbox-KeepsArchive name w = ground arith

abbrev arrived : FileInfo
arrived = record { name = "a.csv"; size = 3; mod_time = 50 }

abbrev next_message : Message
next_message = record {
  message_id = "m2";
  topic = "orders";
  original_file_name = "a.csv";
  collected_at = 900;
}

collect_message-IsSafe_example :
    IsSafe calm pipeline inbox inbox-KeepsArchive orders next_message payload world
      (collect_message calm pipeline orders inbox (arrived ∷ []) next_message payload world).1
collect_message-IsSafe_example =
    collect_message-IsSafe calm pipeline inbox inbox-KeepsArchive calm-IsAlone orders (arrived ∷ [])
      next_message payload world

unique_message_id_lem_example :
    let (id, w') = unique_message_id calm "m1" world in
    ((Dict.get world.manifests id ≡ none) ⊎ (id ≡ append "m1" "_10000"))
    × (w'.manifests ≡ world.manifests)
unique_message_id_lem_example = unique_message_id_lem calm "m1" world

abbrev node_a : Identity
node_a = record { hostname = "a"; boot_id = "boot-a" }

abbrev fenced_world : World
fenced_world = record world { lease = some node_b }

abbrev demoted : Pipeline
demoted = record pipeline { lease = some node_a }

stages-IsFenced_example :
    (but_log (fanout calm demoted fenced_world) ≡ but_log fenced_world)
    × (but_log (retry calm demoted fenced_world) ≡ but_log fenced_world)
stages-IsFenced_example =
    stages-IsFenced calm demoted node_a refl fenced_world
      (node_b, refl, λ e. ground (arith, eq_iff "b" "a"))

-- The sample message is due but not settled; the second one is both.
abbrev settled : Manifest
settled = record message { message_id = "m2"; status = MessageStatus.delivered }

abbrev old_world : World
old_world = record world {
  manifests = ("m1", message) ∷ ("m2", settled) ∷ [];
  archive = (("orders", "m1"), payload) ∷ (("orders", "m2"), payload) ∷ [];
}

abbrev listed_world : World
listed_world = record old_world { ops = 3 }

retention-keeps_example :
    Dict.get (retention calm old_world).archive ("orders", "m1") ≡ some payload
unfolding list_manifests Dict.get is_expired
retention-keeps_example =
    retention-keeps calm ("orders", "m1") (message ∷ settled ∷ []) old_world listed_world refl refl

retention-IsHealthy_example : Dict.get (retention calm old_world).archive ("orders", "m2") ≡ none
unfolding list_manifests Dict.get is_expired
retention-IsHealthy_example =
    retention-IsHealthy calm calm-IsHealthy (λ n. refl) ("orders", "m2") (message ∷ settled ∷ [])
      old_world listed_world refl

abbrev params : ReplayParams
params = record { topic = "orders"; message_id = "m1"; from = 0; to = 0; subscription = "invoices" }

replay-Untouched_example :
    Untouched calm pipeline calm-IsAlone invoices world (replay calm pipeline params world).1
unfolding validate_replay find_subscription find_topic
replay-Untouched_example =
    replay-Untouched calm pipeline calm-IsAlone params orders invoices world refl refl refl

isolate_to_dlq_lem_example :
    IsIsolated calm pipeline calm-IsAlone message world
      (isolate_to_dlq calm pipeline message orders world)
isolate_to_dlq_lem_example = isolate_to_dlq_lem calm pipeline calm-IsAlone message orders world

-- The file was seen unchanged a long time before.
abbrev watched : World
watched = record world {
  observations =
      (("orders", "a.csv"), record { name = "a.csv"; size = 3; mod_time = 50; observed_at = 60 })
      ∷ [];
}

stability_file-IsIdle_example :
    IsIdle watched (stability_file calm pipeline orders inbox arrived watched).1
    ⊎ IsSettledFile calm pipeline orders inbox arrived watched
        (skip_processed calm pipeline orders arrived watched).1
stability_file-IsIdle_example = stability_file-IsIdle calm pipeline orders inbox arrived watched

deliver_pending-IsHealthy_example :
    let (f, m', w') = deliver_pending calm pipeline message orders world in
    (f ≡ 0) × IsDelivered (entry_of m' "invoices")
unfolding find_subscription Dict.get is_resolved subscription_states
deliver_pending-IsHealthy_example =
    deliver_pending-IsHealthy calm calm-IsHealthy pipeline orders message world payload "invoices"
      invoices refl refl not_resolved
  where
    not_resolved : is_resolved (subscription_states message "invoices") ≡ false
    not_resolved = refl
