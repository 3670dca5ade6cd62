-- ===== src/Config.antt =====
-- internal/config/config.go: the configuration and its defaults. Numbers are Go's signed ints.
pub mod Names
pub mod Validate
pub mod Expand
pub mod Load
pub mod Sound
pub mod Defaults
use file_pubsub.Base.{
  ℕ, ◌+◌, ◌/◌, String, Bool, true, false, ◌&&◌, ◌||◌, Option, none, some, List, [], ◌∷◌, ◌==◌,
  string_eq, if◌then◌else◌, map,
}
use file_pubsub.Base.Int.{ℤ, pos, negsuc, leb_ℤ}

pub record Completion : Type 0 where
  pub mode : String
  pub suffix : String

pub record Auth : Type 0 where
  pub username : String
  pub password : String
  pub key_file : String

pub record Source : Type 0 where
  pub kind : String  -- Type
  pub host : String
  pub port : ℤ
  pub directory : String
  pub original_file_handling : String
  pub stability_interval : ℤ  -- StabilityCheck.Interval
  pub exclude_patterns : List String
  pub auth : Auth
  pub completion : Completion
  pub fallback_poll_interval : ℤ

pub record Subscription : Type 0 where
  pub name : String
  pub directory : String

pub record Topic : Type 0 where
  pub name : String
  pub description : String
  pub source : Source
  pub subscriptions : List Subscription

pub record HighAvailability : Type 0 where
  pub uniqueness_method : String
  pub lease_ttl : ℤ
  pub heartbeat_interval : ℤ

pub record Config : Type 0 where
  pub polling_interval : ℤ
  pub archive_retention : ℤ
  pub retry_max_count : ℤ
  pub metrics_port : ℤ
  pub data_dir : String
  pub topics : List Topic
  pub high_availability : Option HighAvailability

-- The int is at most zero.
abbrev pub not_positive : ℤ → Bool
not_positive n = leb_ℤ n (pos 0)

abbrev pub is_zero : ℤ → Bool
is_zero n = leb_ℤ n (pos 0) && leb_ℤ (pos 0) n

abbrev pub default_lease_ttl : ℤ
default_lease_ttl = pos 90

abbrev or_text : String → String → String
or_text s default = if s == "" then default else s

abbrev third : ℤ → ℤ
third (pos n) = pos (n / 3)
third (negsuc n) = pos 0  -- not reached: the ttl is positive here

ha_defaults : HighAvailability → HighAvailability
ha_defaults ha =
    let ttl = if not_positive ha.lease_ttl then default_lease_ttl else ha.lease_ttl in
    record {
      uniqueness_method = or_text ha.uniqueness_method "lease";
      lease_ttl = ttl;
      heartbeat_interval =
          if not_positive ha.heartbeat_interval then third ttl else ha.heartbeat_interval;
    }

-- The suffix that a completion mode has by default.
abbrev default_suffix : String → String
default_suffix mode = if mode == "rename" then ".tmp" else if mode == "marker" then ".done" else ""

completion_defaults : Completion → Completion
completion_defaults c =
    let mode = or_text c.mode "stability" in
    record { mode = mode; suffix = or_text c.suffix (default_suffix mode) }

source_defaults : ℤ → Source → Source
unfolding completion_defaults
source_defaults polling_interval s =
    let s' = record s { original_file_handling = or_text s.original_file_handling "delete" } in
    if s.kind == "inbox"
    then record s' {
      completion = completion_defaults s.completion;
      fallback_poll_interval =
          if is_zero s.fallback_poll_interval then polling_interval else s.fallback_poll_interval;
    }
    else s'

topic_defaults : ℤ → List Topic → List Topic
unfolding source_defaults
topic_defaults polling_interval [] = []
topic_defaults polling_interval (t ∷ ts) =
    record t { source = source_defaults polling_interval t.source }
    ∷ topic_defaults polling_interval ts

-- The first argument is filepath.Dir of the configuration's path.
unfoldable pub apply_defaults : String → Config → Config
unfolding ha_defaults topic_defaults
apply_defaults config_dir c = record c {
  data_dir = or_text c.data_dir config_dir;
  high_availability = elim c.high_availability [ none ↦ none | some ha ↦ some (ha_defaults ha) ];
  topics = topic_defaults c.polling_interval c.topics;
}

-- findTopic of usecase/pipeline.go and findConfigTopic of the status command.
unfoldable pub find_topic : List Topic → String → Option Topic
find_topic [] name = none
find_topic (t ∷ ts) name = let rest = find_topic ts name in if t.name == name then some t else rest

-- findSubscription of usecase/pipeline.go.
unfoldable pub find_subscription : List Subscription → String → Option Subscription
find_subscription [] name = none
find_subscription (s ∷ ss) name =
    let rest = find_subscription ss name in if s.name == name then some s else rest

unfoldable pub subscription_names : List Subscription → List String
subscription_names [] = []
subscription_names (s ∷ ss) = s.name ∷ subscription_names ss
