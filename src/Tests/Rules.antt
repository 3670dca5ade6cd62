-- ===== src/Tests/Rules.antt =====
-- The rules without state at sample values.
use file_pubsub.Base.{String, refl, false, none, List, [], ◌∷◌, nat_eq, string_eq, pair_eq}
use file_pubsub.Config.Validate.{validate}
use file_pubsub.Config.Names.{is_safe_name}
use file_pubsub.Config.Sound.{IsSound, validate-IsSound}
use file_pubsub.Domain.State.{SubscriptionStatus}
use file_pubsub.Store.World.{World, SourceFile}
use file_pubsub.Usecase.Status.{StatusRow, StatusSummary}
use file_pubsub.Tests.Installation.{world, config, payload}

validate-IsSound_example : IsSound config
unfolding validate is_safe_name
validate-IsSound_example = validate-IsSound config refl

abbrev listed : List String
listed = "a.csv" ∷ "a.csv.done" ∷ "b.csv" ∷ []

abbrev original : SourceFile
original = record { size = 3; mod_time = 50; content = payload }

abbrev with_source : World
with_source = record world { originals = (("/in", "a.csv"), original) ∷ [] }

abbrev row : SubscriptionStatus → StatusRow
row status = record {
  message_id = "m1";
  topic = "orders";
  subscription = "audit";
  status = status;
  retry = 0;
  delivered_at = none;
  replay = false;
}

abbrev rows : List StatusRow
rows =
    row SubscriptionStatus.delivered
    ∷ row SubscriptionStatus.failed
    ∷ row SubscriptionStatus.delivered
    ∷ []

abbrev audit_summary : StatusSummary
audit_summary = record {
  topic = "orders";
  subscription = "audit";
  delivered = 2;
  failed = 1;
  dlq = 0;
}
