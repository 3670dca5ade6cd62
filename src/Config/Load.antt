-- ===== src/Config/Load.antt =====
-- internal/config/config.go: Load. The configuration file, the environment variables, the YAML
-- decoder and filepath.Dir are given.
pub mod Checked
use file_pubsub.Base.{String, Bool, Option, none, some, List, [], ◌∷◌}
use file_pubsub.Config.{Config, apply_defaults}
use file_pubsub.Config.Validate.{Violation, validate}
use file_pubsub.Config.Expand.{expand_env}

pub record Host : Type 0 where
  pub read_file : String → Option String
  pub lookup_env : String → Option String
  pub decode : String → Option Config  -- yaml.Unmarshal into Config
  pub dir_of : String → String  -- filepath.Dir

pub data Loaded : Type 0 where
  unreadable undecodable : Loaded
  invalid : List String → List Violation → Loaded  -- the variables that are not set come first
  loaded : Config → Loaded

abbrev pub checked : Config → List String → List Violation → Loaded
checked cfg [] [] = loaded cfg
checked cfg missing violations = invalid missing violations

module _ (host : Host) where
  abbrev pub decoded : String → List String → Option Config → Loaded
  decoded path missing none = undecodable
  decoded path missing (some c) =
      let cfg = apply_defaults (host.dir_of path) c in checked cfg missing (validate cfg)

  abbrev pub expanded : String → Option String → Loaded
  expanded path none = unreadable
  expanded path (some raw) =
      let (text, missing) = expand_env host.lookup_env raw in
      decoded path missing (host.decode text)

  unfoldable pub load : String → Loaded
  load path = expanded path (host.read_file path)
