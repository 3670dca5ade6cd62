-- ===== src/Command/Run/Configured.antt =====
-- cmd/file-pubsub: the flags and the configuration before a command starts.
use file_pubsub.Base.{String, ◌≡◌, ap, ◌∙◌, Option, none, some, List, Option-cases, ◌⊎◌, inl, inr}
use file_pubsub.Base.Dict.{Dict}
use file_pubsub.Config.{Config}
use file_pubsub.Config.Load.{Host}
use file_pubsub.Store.World.{World}
use file_pubsub.Command.Flags.{parse_flags, flag_value}
use file_pubsub.Command.Run.{Outcome, ends, exit_usage, load_config, with_config}

module _ (host : Host) (defined args : List String) (w : World)
    (body : Dict String String → Config → Outcome) where
  -- The command with these flags.
  abbrev configured : Option (Dict String String) → Outcome
  configured none = ends exit_usage w
  configured (some values) = elim (load_config host (flag_value values "config")) [
    | none ↦ ends exit_usage w
    | some cfg ↦ body values cfg
  ]

  abbrev begun : Dict String String → Option Config → Outcome
  begun values none = ends exit_usage w
  begun values (some cfg) = body values cfg

  pub with_config-some :
      (values : Dict String String) (cfg : Config)
      → parse_flags defined args ≡ some values
      → load_config host (flag_value values "config") ≡ some cfg
      → with_config host defined args w body ≡ body values cfg
  with_config-some values cfg parsed found = ap configured parsed ∙ ap (begun values) found

  pub with_config_cases :
      (with_config host defined args w body ≡ ends exit_usage w)
      ⊎ ((values : Dict String String) × (cfg : Config) × (with_config host defined args w body
            ≡ body values cfg))
  with_config_cases = elim (Option-cases (parse_flags defined args)) [
    | inl e ↦ inl (ap configured e)
    | inr (values, e) ↦ elim (Option-cases (load_config host (flag_value values "config"))) [
      | inl f ↦ inl (ap configured e ∙ ap (begun values) f)
      | inr (cfg, f) ↦ inr (values, cfg, ap configured e ∙ ap (begun values) f)
    ]
  ]
