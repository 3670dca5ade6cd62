-- ===== src/Command/Run.antt =====
-- cmd/file-pubsub/main.go, status.go and replay.go: the commands and their exit codes.
pub mod Configured
pub mod Locked
pub mod Reading
use file_pubsub.Base.{
  ℕ, String, Bool, true, false, not, ◌&&◌, ◌||◌, Option, none, some, List, [], ◌∷◌, ◌==◌, string_eq,
  if◌then◌else◌, Result, ok, err, Error, already_locked, usage_error, any, length, ◌+◌,
}
use file_pubsub.Base.Dict.{Dict}
use file_pubsub.Config.{Config, Topic, Subscription, Source, find_topic}
use file_pubsub.Config.Load.{Host, Loaded, loaded, load}
use file_pubsub.Source.{Connector}
use file_pubsub.Store.World.{World, Env, DlqMeta, now}
use file_pubsub.Store.Lease.{acquire, lock_release}
use file_pubsub.Usecase.Pipeline.{Pipeline, Identity}
use file_pubsub.Usecase.Replay.{ReplayParams, replay}
use file_pubsub.Usecase.Status.{StatusFilter, StatusRow, status_rows, dlq_list}
use file_pubsub.Runtime.Run.{Round, Node, Exit, exited, running, run as run_daemon}
use file_pubsub.Command.Flags.{parse_flags, flag_value}

-- What the commands get from the system and from time.Parse, and what the daemon meets.
pub record Outside : Type 0 where
  pub host : Host
  pub parse_date : String → Option ℕ  -- time.Parse with the layout 2006-01-02
  pub pid : ℕ
  pub node : Identity
  pub remote : Source → Connector
  pub rounds : List Round

pub data Status : Type 0 where
  working : Status  -- the daemon has not ended
  exit : ℕ → Status

-- What a successful command prints.
pub data Output : Type 0 where
  silent : Output
  validated : (topics subscriptions : ℕ) → Output
  dlq_table : List DlqMeta → Output
  status_table : List StatusRow → Output
  replayed : ℕ → Output

pub record Outcome : Type 0 where
  pub status : Status
  pub output : Output
  pub world : World

abbrev pub ends : ℕ → World → Outcome
ends code w = record { status = exit code; output = silent; world = w }

abbrev pub exit_ok : ℕ
exit_ok = 0

abbrev pub exit_runtime : ℕ
exit_runtime = 1

abbrev pub exit_usage : ℕ
exit_usage = 2

abbrev pub exit_duplicate : ℕ
exit_duplicate = 3

abbrev pub config_of : Loaded → Option Config
config_of (loaded cfg) = some cfg
config_of _ = none

unfoldable pub load_config : Host → String → Option Config
load_config host path = if path == "" then none else config_of (load host path)

-- The flags and the configuration, without which a command ends with the usage code.
abbrev pub with_config :
    Host → List String → List String → World → (Dict String String → Config → Outcome) → Outcome
with_config host defined args w body = elim (parse_flags defined args) [
  | none ↦ ends exit_usage w
  | some values ↦ elim (load_config host (flag_value values "config")) [
    | none ↦ ends exit_usage w
    | some cfg ↦ body values cfg
  ]
]

-- NewPipeline.
abbrev pub new_pipeline : Config → Bool → Pipeline
new_pipeline cfg has_metrics = record { cfg = cfg; lease = none; has_metrics = has_metrics }

unfoldable pub count_subscriptions : List Topic → ℕ
count_subscriptions [] = 0
count_subscriptions (t ∷ ts) = length t.subscriptions + count_subscriptions ts

unfoldable pub cmd_config_validate : Outside → List String → World → Outcome
unfolding count_subscriptions load_config
cmd_config_validate o args w = with_config o.host ("config" ∷ []) args w (λ values cfg. record {
  status = exit exit_ok;
  output = validated (length cfg.topics) (count_subscriptions cfg.topics);
  world = w;
})

-- validateStatusArgs: whether it has no complaint.
abbrev pub is_subscription : String → Subscription → Bool
is_subscription name s = s.name == name

abbrev pub has_subscription : String → String → Topic → Bool
has_subscription topic subscription t =
    (topic == "" || t.name == topic) && any (is_subscription subscription) t.subscriptions

abbrev is_known : List Topic → String → Bool
is_known topics name = elim (find_topic topics name) [ none ↦ false | some t ↦ true ]

unfoldable pub validate_status_args : Config → String → String → String → Bool
validate_status_args cfg topic subscription status =
    (status == "" || (status == "delivered" || (status == "failed" || status == "dlq")))
    && ((topic == "" || is_known cfg.topics topic)
        && (subscription == "" || any (has_subscription topic subscription) cfg.topics))

abbrev pub listed : Result (List DlqMeta) × World → Outcome
listed (err e, w) = ends exit_runtime w
listed (ok metas, w) = record { status = exit exit_ok; output = dlq_table metas; world = w }

abbrev pub tabled : Result (List StatusRow) × World → Outcome
tabled (err e, w) = ends exit_runtime w
tabled (ok rows, w) = record { status = exit exit_ok; output = status_table rows; world = w }

abbrev pub status_flags : List String
status_flags = "config" ∷ "topic" ∷ "subscription" ∷ "status" ∷ []

abbrev pub show_status : Env → World → Config → String → String → String → Outcome
show_status env w cfg topic subscription status =
    if not (validate_status_args cfg topic subscription status)
    then ends exit_usage w
    else if status == "dlq" && subscription == ""
    then listed (dlq_list env (new_pipeline cfg false) topic w)
    else tabled
        (status_rows env (record { topic = topic; subscription = subscription; status = status }) w)

unfoldable pub cmd_status : Env → Outside → List String → World → Outcome
unfolding validate_status_args load_config
cmd_status env o args w = with_config o.host status_flags args w (λ values cfg.
    show_status env w cfg (flag_value values "topic") (flag_value values "subscription")
      (flag_value values "status"))

-- parseDate: an empty text is the zero time.
abbrev pub date_of : Outside → String → Option ℕ
date_of o s = if s == "" then some 0 else o.parse_date s

abbrev pub replay_ended : (ℕ × Option Error) × World → Outcome
replay_ended ((n, none), w) = record { status = exit exit_ok; output = replayed n; world = w }
replay_ended ((n, some usage_error), w) = ends exit_usage w
replay_ended ((n, some e), w) = ends exit_runtime w

-- Under the lock.
abbrev pub replay_locked : Env → Outside → Dict String String → Config → World → Outcome
replay_locked env o values cfg w = elim (date_of o (flag_value values "from")) [
  | none ↦ ends exit_usage w
  | some from ↦ elim (date_of o (flag_value values "to")) [
    | none ↦ ends exit_usage w
    | some to ↦ replay_ended (
        replay env (new_pipeline cfg false)
          (record {
            topic = flag_value values "topic";
            message_id = flag_value values "message-id";
            from = from;
            to = to;
            subscription = flag_value values "subscription";
          })
          w)
  ]
]

-- The deferred release, whose error is ignored.
abbrev pub unlocked : Env → Outcome → Outcome
unlocked env r = record r { world = (lock_release env r.world).1 }

abbrev pub replay_acquired : Env → (World → Outcome) → Result (Unit {0}) × World → Outcome
replay_acquired env body (err already_locked, w) = ends exit_duplicate w
replay_acquired env body (err e, w) = ends exit_runtime w
replay_acquired env body (ok _, w) = unlocked env (body w)

abbrev pub replay_flags : List String
replay_flags = "config" ∷ "topic" ∷ "message-id" ∷ "from" ∷ "to" ∷ "subscription" ∷ []

unfoldable pub cmd_replay : Env → Outside → List String → World → Outcome
unfolding load_config
cmd_replay env o args w = with_config o.host replay_flags args w (λ values cfg.
    replay_acquired env (replay_locked env o values cfg) (acquire env o.pid (now env w) w))

abbrev pub served : Exit × Node → Outcome
served (running, n) = record { status = working; output = silent; world = n.world }
served (exited (ok _), n) = ends exit_ok n.world
served (exited (err already_locked), n) = ends exit_duplicate n.world
served (exited (err e), n) = ends exit_runtime n.world

unfoldable pub cmd_serve : Env → Outside → List String → World → Outcome
unfolding load_config
cmd_serve env o args w =
    with_config o.host ("config" ∷ []) args w (λ values cfg.
      served (run_daemon env (new_pipeline cfg true) o.remote o.pid o.node o.rounds w))

abbrev pub cmd_config : Outside → List String → World → Outcome
cmd_config o [] w = ends exit_usage w
cmd_config o (name ∷ args) w =
    if name == "validate" then cmd_config_validate o args w else ends exit_usage w

-- The arguments after the program's name.
unfoldable pub run : Env → Outside → List String → World → Outcome
unfolding cmd_serve cmd_status cmd_replay cmd_config_validate
run env o [] w = ends exit_usage w
run env o (command ∷ args) w =
    if command == "serve"
    then cmd_serve env o args w
    else if command == "status"
    then cmd_status env o args w
    else if command == "replay"
    then cmd_replay env o args w
    else if command == "config"
    then cmd_config o args w
    else ends exit_usage w
