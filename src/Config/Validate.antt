-- ===== src/Config/Validate.antt =====
-- internal/config/validate.go: every violation of a configuration, in the order of the checks. A
-- violation is its key path and cause; the remedy's text is left out.
use file_pubsub.Base.{
  ℕ, suc, String, Bool, true, false, not, ◌&&◌, ◌||◌, Option, none, some, List, [], ◌∷◌, ◌++◌, ◌==◌,
  string_eq, if◌then◌else◌, contains,
}
use file_pubsub.Base.Int.{pos, negsuc, leb_ℤ}
use file_pubsub.Config.{Config, Topic, Source, Subscription, HighAvailability, not_positive}
use file_pubsub.Base.Pattern.{path_match}
use file_pubsub.Config.Names.{is_safe_name}

pub data NameViolation : Type 0 where
  missing unsafe duplicated : NameViolation

pub data SourceViolation : Type 0 where
  type_missing type_unsupported directory_missing port_range handling_unsupported : SourceViolation
  interval_not_positive mode_unsupported fallback_negative : SourceViolation
  host_missing username_missing credentials_missing : SourceViolation
  bad_pattern : ℕ → SourceViolation

pub data Violation : Type 0 where
  polling_interval archive_retention retry_max_count metrics_port no_topics : Violation
  uniqueness_method lease_ttl heartbeat_interval heartbeat_not_below_ttl : Violation
  topic_name : ℕ → NameViolation → Violation
  source : ℕ → SourceViolation → Violation
  no_subscriptions : ℕ → Violation
  subscription_name : ℕ → ℕ → NameViolation → Violation
  subscription_directory : ℕ → ℕ → Violation

-- `if b { add(v) }`.
abbrev pub check {ℓ} : {A : Type ℓ} → Bool → A → List A
check true v = v ∷ []
check false v = []

unfoldable pub validate_high_availability : Option HighAvailability → List Violation
validate_high_availability none = []
validate_high_availability (some ha) =
    check (not (ha.uniqueness_method == "lease" || ha.uniqueness_method == "external_cluster"))
      uniqueness_method
    ++ (check (not_positive ha.lease_ttl) lease_ttl
        ++ (check (not_positive ha.heartbeat_interval) heartbeat_interval
            ++ check (not (not_positive ha.lease_ttl) && leb_ℤ ha.lease_ttl ha.heartbeat_interval)
                heartbeat_not_below_ttl))

unfoldable pub requires_stability_check : Source → Bool
requires_stability_check s =
    if not (s.kind == "inbox")
    then true
    else s.completion.mode == "" || s.completion.mode == "stability"

validate_inbox : Source → List SourceViolation
validate_inbox s =
    check
      (not (
        s.completion.mode == ""
        || (s.completion.mode == "stability"
            || (s.completion.mode == "rename" || s.completion.mode == "marker"))))
      mode_unsupported
    ++ check (leb_ℤ s.fallback_poll_interval (negsuc 0)) fallback_negative

validate_remote : Source → List SourceViolation
validate_remote s =
    check (s.host == "") host_missing
    ++ (check (s.auth.username == "") username_missing
        ++ check (s.auth.password == "" && s.auth.key_file == "") credentials_missing)

abbrev is_remote : String → Bool
is_remote kind = kind == "ftp" || (kind == "sftp" || kind == "scp")

abbrev is_source_kind : String → Bool
is_source_kind kind = kind == "local" || (is_remote kind || kind == "inbox")

abbrev is_bad : Option Bool → Bool
is_bad none = true
is_bad (some _) = false

-- `path.Match(p, "")` reports a malformed pattern.
validate_patterns : ℕ → List String → List SourceViolation
validate_patterns k [] = []
validate_patterns k (p ∷ ps) =
    check (is_bad (path_match p "")) (bad_pattern k) ++ validate_patterns (suc k) ps

-- The checks that every supported source goes through.
validate_common : Source → List SourceViolation
unfolding requires_stability_check validate_patterns
validate_common s =
    check (s.directory == "") directory_missing
    ++ (check (leb_ℤ s.port (negsuc 0) || leb_ℤ (pos 65536) s.port) port_range
        ++ (check (not (s.original_file_handling == "delete" || s.original_file_handling == "copy"))
              handling_unsupported
            ++ (check (requires_stability_check s && not_positive s.stability_interval)
                  interval_not_positive
                ++ validate_patterns 0 s.exclude_patterns)))

unfoldable pub validate_source : Source → List SourceViolation
unfolding validate_common validate_inbox validate_remote
validate_source s =
    if s.kind == ""
    then type_missing ∷ []
    else if not (is_source_kind s.kind)
    then type_unsupported ∷ []
    else validate_common s
      ++ (if s.kind == "inbox"
          then validate_inbox s
          else if is_remote s.kind
          then validate_remote s
          else [])

-- A name against the names accepted before it.
abbrev pub check_name : List String → String → Option NameViolation
check_name seen name =
    if name == ""
    then some missing
    else if not (is_safe_name name)
    then some unsafe
    else if contains name seen
    then some duplicated
    else none

abbrev pub name_check : (NameViolation → Violation) → Option NameViolation → List Violation
name_check place none = []
name_check place (some v) = place v ∷ []

-- Only an accepted name is recorded.
abbrev pub seen_after : List String → String → Option NameViolation → List String
seen_after seen name none = name ∷ seen
seen_after seen name (some _) = seen

unfoldable pub validate_subscriptions : ℕ → ℕ → List String → List Subscription → List Violation
validate_subscriptions i j seen [] = []
validate_subscriptions i j seen (s ∷ ss) =
    let named = check_name seen s.name in
    name_check (subscription_name i j) named
    ++ (check (s.directory == "") (subscription_directory i j)
        ++ validate_subscriptions i (suc j) (seen_after seen s.name named) ss)

abbrev pub is_empty {ℓ} : {A : Type ℓ} → List A → Bool
is_empty [] = true
is_empty (_ ∷ _) = false

abbrev pub at_source : ℕ → List SourceViolation → List Violation
at_source i [] = []
at_source i (v ∷ vs) = source i v ∷ at_source i vs

unfoldable pub validate_topics : ℕ → List String → List Topic → List Violation
unfolding validate_source validate_subscriptions
validate_topics i seen [] = []
validate_topics i seen (t ∷ ts) =
    let named = check_name seen t.name in
    name_check (topic_name i) named
    ++ (at_source i (validate_source t.source)
        ++ (check (is_empty t.subscriptions) (no_subscriptions i)
            ++ (validate_subscriptions i 0 [] t.subscriptions
                ++ validate_topics (suc i) (seen_after seen t.name named) ts)))

unfoldable pub validate : Config → List Violation
unfolding validate_high_availability validate_topics
validate c =
    check (not_positive c.polling_interval) polling_interval
    ++ (check (not_positive c.archive_retention) archive_retention
        ++ (check (not_positive c.retry_max_count) retry_max_count
            ++ (check (not_positive c.metrics_port || leb_ℤ (pos 65536) c.metrics_port) metrics_port
                ++ (check (is_empty c.topics) no_topics
                    ++ (validate_high_availability c.high_availability
                        ++ validate_topics 0 [] c.topics)))))
