-- ===== src/Config/Load/Checked.antt =====
-- internal/config/config.go: what Load gives.
use file_pubsub.Base.{
  zero, String, ◌≡◌, refl, arith, true, false, some, List, [], ◌∷◌, string_eq, contains,
  Option-cases, inl, inr,
}
use file_pubsub.Config.{Config, apply_defaults}
use file_pubsub.Config.Validate.{Violation, validate}
use file_pubsub.Config.Sound.{IsSound, validate-IsSound}
use file_pubsub.Config.Expand.{expand_env}
use file_pubsub.Config.Expand.Missing.{references, is_unset, expand_env_missing}
use file_pubsub.Config.Load.{Host, loaded, checked, load}

module _ (host : Host) (path : String) where
  -- What a configuration that was loaded comes from.
  pub record IsLoaded (cfg : Config) : Type 0 where
    pub raw : String
    pub here : host.read_file path ≡ some raw
    pub set :
        (x : String) → contains x (references raw zero) ≡ true → is_unset host.lookup_env x ≡ false
    pub source : Config
    pub decodes : host.decode (expand_env host.lookup_env raw).0 ≡ some source
    pub filled : cfg ≡ apply_defaults (host.dir_of path) source
    pub sound : IsSound cfg

  checked-loaded :
      (c cfg : Config) (missing : List String) (violations : List Violation)
      → checked c missing violations ≡ loaded cfg
      → (missing ≡ []) × (violations ≡ []) × (cfg ≡ c)
  checked-loaded c cfg [] [] h = (refl, refl, ground arith)
  checked-loaded c cfg [] (v ∷ vs) h = absurd (ground arith)
  checked-loaded c cfg (x ∷ xs) vs h = absurd (ground arith)

  -- A configuration that Load returns was read from the path; every variable that the file refers to
  -- is set; it is what the decoder makes of the expanded text, with its defaults filled in; and it
  -- satisfies what Validate asks for.
  pub load-IsLoaded : (cfg : Config) → load host path ≡ loaded cfg → IsLoaded cfg
  unfolding load
  load-IsLoaded cfg h = elim (Option-cases (host.read_file path)) [
    | inl e ↦ absurd (ground arith)
    | inr (raw, e) ↦
        let (text, missing) = expand_env host.lookup_env raw in
        elim (Option-cases (host.decode text)) [
          | inl d ↦ absurd (ground arith)
          | inr (c, d) ↦
              let filled = apply_defaults (host.dir_of path) c in
              let (no_missing, no_violation, same) =
                checked-loaded filled cfg missing (validate filled) (ground arith) in
              record {
                raw = raw;
                here = e;
                set = λ x r. ground (arith, (expand_env_missing host.lookup_env raw).1 x);
                source = c;
                decodes = d;
                filled = same;
                sound = rw same (validate-IsSound filled no_violation);
              }
        ]
  ]
