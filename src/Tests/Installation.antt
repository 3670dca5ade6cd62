-- ===== src/Tests/Installation.antt =====
-- One topic with three subscriptions, one archived message, and an environment in which nothing
-- fails and no other process runs.
use file_pubsub.Base.{◌+◌, String, refl, true, false, some, none, [], ◌∷◌}
use file_pubsub.Base.Int.{pos}
use file_pubsub.Config.{Config, Topic, Subscription, Source}
use file_pubsub.Domain.State.{MessageStatus, SubscriptionStatus}
use file_pubsub.Store.Manifest.{Manifest, SubscriptionDelivery}
use file_pubsub.Store.World.{World, Env, IsAlone, IsHealthy, Bytes, LockRecord}
use file_pubsub.Usecase.Pipeline.{Pipeline}

abbrev pub calm : Env
calm = record {
  fault = λ n. false;
  clock = λ n. 1000 + n;
  random_token = λ n. "token";
  others = λ n w. w;
  canceled = λ n. false;
  alive = λ pid. true;
  leaves = λ n. false;
  zone = λ t. record { offset = pos 0; start = 0; stop = 0 };
  error_text = "disk full";
  format = λ t. "20250101T000000";
}

abbrev pub calm-IsAlone : IsAlone calm
calm-IsAlone = record { quiet = λ n w. refl }

abbrev pub calm-IsHealthy : IsHealthy calm
calm-IsHealthy = record { works = λ n. refl }

abbrev pub entry : String → SubscriptionStatus → SubscriptionDelivery
entry name status = record {
  subscription = name;
  status = status;
  delivered_at = none;
  last_error = "";
}

abbrev pub source : Source
source = record {
  kind = "local";
  host = "";
  port = pos 0;
  directory = "/in";
  original_file_handling = "delete";
  stability_interval = pos 5;
  exclude_patterns = [];
  auth = record { username = ""; password = ""; key_file = "" };
  completion = record { mode = ""; suffix = "" };
  fallback_poll_interval = pos 0;
}

abbrev pub invoices : Subscription
invoices = record { name = "invoices"; directory = "/out/invoices" }

abbrev pub orders : Topic
orders = record {
  name = "orders";
  description = "";
  source = source;
  subscriptions =
      record { name = "audit"; directory = "/out/audit" }
      ∷ invoices
      ∷ record { name = "mail"; directory = "/out/mail" }
      ∷ [];
}

abbrev pub config : Config
config = record {
  polling_interval = pos 60;
  archive_retention = pos 7;
  retry_max_count = pos 3;
  metrics_port = pos 9090;
  data_dir = "/data";
  topics = orders ∷ [];
  high_availability = none;
}

abbrev pub pipeline : Pipeline
pipeline = record { cfg = config; lease = none; has_metrics = true }

-- Audit has its copy, invoices has failed, mail has not been tried.
abbrev pub message : Manifest
message = record {
  message_id = "m1";
  topic = "orders";
  original_file_name = "a.csv";
  collected_at = 100;
  status = MessageStatus.delivering;
  archive_path = "archive/orders/m1";
  saved_at = some 101;
  retention_deadline = some 500;
  subscriptions =
      entry "audit" SubscriptionStatus.delivered ∷ entry "invoices" SubscriptionStatus.failed ∷ [];
  retry_count = 1;
  delivered_at = none;
  replay_records = [];
  delivery_events =
      record { at = 101; subscription = ""; event_type = "archived"; detail = "" } ∷ [];
  revision = 4;
}

abbrev pub payload : Bytes
payload = 1 ∷ 2 ∷ 3 ∷ []

abbrev pub world : World
world = record {
  manifests = ("m1", message) ∷ [];
  locks = [];
  work = [];
  archive = (("orders", "m1"), payload) ∷ [];
  dlq = [];
  dlq_meta = [];
  processed = [];
  placed = [];
  originals = [];
  lease = none;
  log = [];
  metrics = record {
    last_collect = [];
    processed_total = [];
    delivery_failure_total = [];
    dlq_count = [];
    backlog_count = [];
  };
  observations = [];
  ops = 0;
}

abbrev pub node_b : LockRecord
node_b = record {
  pid = 7;
  acquired_at = 0;
  hostname = "b";
  boot_id = "boot-b";
  renewed_at = 1000;
  ttl = 90;
  generation = 3;
}
