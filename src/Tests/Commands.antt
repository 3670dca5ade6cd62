-- ===== src/Tests/Commands.antt =====
-- The command line and the configuration file of the installation.
use file_pubsub.Base.{
  ◌≢◌, String, ◌≡◌, refl, true, false, some, none, List, [], ◌∷◌, ◌==◌, string_eq, if◌then◌else◌,
  err, io_error, nat_eq,
}
use file_pubsub.Base.Dict
use file_pubsub.Base.Dict.{Dict}
use file_pubsub.Config.{Source, apply_defaults}
use file_pubsub.Config.Validate.{validate}
use file_pubsub.Config.Names.{is_safe_name}
use file_pubsub.Config.Expand.{expand_env}
use file_pubsub.Config.Load.{Host, load}
use file_pubsub.Config.Load.Checked.{IsLoaded, load-IsLoaded}
use file_pubsub.Source.{Connector}
use file_pubsub.Store.World.{World}
use file_pubsub.Store.ManifestStore.Frame.{but_ops}
use file_pubsub.Store.Lease.{pid_record, lease_record}
use file_pubsub.Runtime.Active.{signal, leave}
use file_pubsub.Runtime.Run.{Round}
use file_pubsub.Command.Flags.{parse_flags, classify}
use file_pubsub.Command.Run.{
  Outside, exit, exit_duplicate, load_config, cmd_replay, cmd_status, cmd_config_validate,
}
use file_pubsub.Command.Run.Locked.{ReplaySpec, cmd_replay_lem, cmd_replay_lease}
use file_pubsub.Command.Run.Reading.{status-Reads}
use file_pubsub.Tests.Installation.{calm, calm-IsAlone, calm-IsHealthy, world, config}

abbrev absent : Source → Connector
absent s = record {
  list = λ w. (err io_error, w);
  fetch = λ name w. (err io_error, w);
  remove = λ name w. (err io_error, w);
}

abbrev host : Host
host = record {
  read_file = λ path. if path == "c.yaml" then some "topics" else none;
  lookup_env = λ name. if name == "PORT" then some "9090" else none;
  decode = λ text. some config;
  dir_of = λ path. "/etc";
}

abbrev shutdown : Round
shutdown = record {
  listens = true;
  events = signal ∷ leave ∷ [];
  signaled = false;
  done_first = false;
}

abbrev outside : Outside
outside = record {
  host = host;
  parse_date = λ text. none;
  pid = 8;
  node = record { hostname = "a"; boot_id = "boot-a" };
  remote = absent;
  rounds = shutdown ∷ [];
}

-- Another process runs.
abbrev locked : World
locked = record world { lease = some (pid_record 7 500) }

abbrev flags : Dict String String
flags = ("config", "c.yaml") ∷ ("topic", "orders") ∷ ("topic", "-x") ∷ []

abbrev raw : String
raw = "port: ${PORT} user: ${USER} again: ${USER} $x"

load-IsLoaded_example : IsLoaded host "c.yaml" config
unfolding load expand_env validate is_safe_name apply_defaults
load-IsLoaded_example = load-IsLoaded host "c.yaml" config refl

abbrev args : List String
args = "-config" ∷ "c.yaml" ∷ []

abbrev set : Dict String String
set = ("config", "c.yaml") ∷ []

cmd_replay_lem_example :
    ReplaySpec calm calm-IsAlone calm-IsHealthy outside true locked
      (cmd_replay calm outside args locked)
unfolding parse_flags classify load_config load expand_env validate is_safe_name apply_defaults
    Dict.put Dict.get
cmd_replay_lem_example =
    cmd_replay_lem calm calm-IsAlone calm-IsHealthy outside args set config locked refl refl

-- The lock file is the lease of a serve with high availability.
abbrev leased : World
leased = record world { lease = some (lease_record "b" "boot-b" 90 3 1000) }

cmd_replay_lease_example :
    let r = cmd_replay calm outside args leased in
    (r.status ≢ exit exit_duplicate) × (r.world.lease ≡ none)
unfolding parse_flags classify load_config load expand_env validate is_safe_name apply_defaults
    Dict.put Dict.get
cmd_replay_lease_example =
    cmd_replay_lease calm calm-IsAlone calm-IsHealthy outside args set config leased "b" "boot-b" 90
      3 1000 refl refl refl

status-Reads_example :
    (but_ops (cmd_status calm outside args world).world ≡ but_ops world)
    × (but_ops (cmd_config_validate outside args world).world ≡ but_ops world)
status-Reads_example = status-Reads calm outside args world
