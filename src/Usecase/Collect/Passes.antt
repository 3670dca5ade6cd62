-- ===== src/Usecase/Collect/Passes.antt =====
-- internal/usecase/collect.go: which files of a source directory are collected in a cycle.
pub mod Stable
use file_pubsub.Base.{
  ℕ, ◌*◌, String, Bool, true, false, not, ◌&&◌, ◌||◌, Option, none, some, List, [], ◌∷◌, ◌==◌,
  string_eq, nat_eq, pair_eq, contains, if◌then◌else◌, Result, ok, err, lease_lost, map,
}
use file_pubsub.Base.Int.{to_ℕ}
use file_pubsub.Base.Dict
use file_pubsub.Base.Dict.{Dict}
use file_pubsub.Config.{Topic, Source, Completion}
use file_pubsub.Domain.Limits.{second}
use file_pubsub.Domain.State.{status_eq}
use file_pubsub.Domain.Stability.{Observation, is_stable, is_excluded, is_unchanged}
use file_pubsub.Domain.Completion.{has_completion_suffix, marker_of, ready_by_marker}
use file_pubsub.Store.World.{World, Env, Io, emit, now}
use file_pubsub.Store.Files.{is_processed}
use file_pubsub.Store.Files.Directory.{cleanup_work_temp_files}
use file_pubsub.Source.{FileInfo, Connector, new_connector}
use file_pubsub.Usecase.Pipeline.{Pipeline, event}
use file_pubsub.Usecase.Collect.{collect_file}

unfoldable pub is_immediate_inbox : Source → Bool
is_immediate_inbox s =
    s.kind == "inbox" && (s.completion.mode == "rename" || s.completion.mode == "marker")

unfoldable pub skip_by_completion : Completion → String → (String → Bool) → Bool
skip_by_completion c name marker_ready =
    if c.mode == "rename"
    then has_completion_suffix name c.suffix
    else if c.mode == "marker"
    then has_completion_suffix name c.suffix || not (marker_ready name)
    else false

abbrev names_of : List FileInfo → List String
names_of files = map (λ (f : FileInfo). f.name) files

-- The map `byName`: the last file of a name stays.
abbrev by_name : Option FileInfo → List FileInfo → String → Option FileInfo
by_name found [] name = found
by_name found (f ∷ files) name = by_name (if f.name == name then some f else found) files name

-- markerReadiness: the maps are empty unless the mode is "marker".
unfoldable pub marker_readiness :
    Completion → List FileInfo → (String → Bool) × (String → Option FileInfo)
marker_readiness c files =
    if c.mode == "marker"
    then (λ n. contains n (ready_by_marker (names_of files) c.suffix), by_name none files)
    else (λ n. false, λ n. none)

-- What one file does to the pass: whether it goes on, and the world.
abbrev pub after_collect : String → Result (Unit {0}) × World → (World → World) → Bool × World
after_collect topic (ok _, w) done = (true, done w)
after_collect topic (err lease_lost, w) done = (false, emit (event "" topic "" "lease_lost") w)
after_collect topic (err e, w) done = (true, emit (event "" topic "" "collect_failed") w)

abbrev pub forget_observation : String → String → World → World
forget_observation topic name w = record w {
  observations = Dict.remove w.observations (topic, name);
}

-- The last loop of collectByStability.
unfoldable pub prune :
    String → List String → Dict (String × String) Observation → Dict (String × String) Observation
prune topic present [] = []
prune topic present (((t, name), o) ∷ d) =
    let rest = prune topic present d in
    if t == topic && not (contains name present) then rest else ((t, name), o) ∷ rest

abbrev pub next_file : Bool × World → (World → Bool × World) → Bool × World
next_file (true, w) rest = rest w
next_file (false, w) rest = (false, w)

-- A loop over the files that a lost lease ends.
unfoldable pub each_file : (FileInfo → World → Bool × World) → List FileInfo → World → Bool × World
each_file body [] w = (true, w)
each_file body (f ∷ files) w = next_file (body f w) (λ v. each_file body files v)

module _ (env : Env) (p : Pipeline) where
  abbrev pub skip_answer : String → Result Bool × World → Bool × World
  skip_answer topic (ok done, w) = (done, w)
  skip_answer topic (err e, w) = (true, emit (event "" topic "" "collect_failed") w)

  unfoldable pub skip_processed : Topic → FileInfo → World → Bool × World
  skip_processed t f w =
      if t.source.original_file_handling == "copy"
      then skip_answer t.name (is_processed env t.name f.name f.mod_time f.size w)
      else (false, w)

  abbrev pub done_answer : Result Bool × World → Bool × World
  done_answer (ok done, w) = (done, w)
  done_answer (err e, w) = (true, w)

  unfoldable pub marker_processed : Topic → FileInfo → World → Bool × World
  marker_processed t f w = done_answer (is_processed env t.name f.name f.mod_time f.size w)

  abbrev pub with_marker : FileInfo → Bool × World → (List FileInfo × Bool) × World
  with_marker mf (true, w) = (([], true), w)
  with_marker mf (false, w) = ((mf ∷ [], false), w)

  unfoldable pub marker_companions :
      Topic
      → Completion
      → FileInfo
      → (String → Option FileInfo)
      → World
      → (List FileInfo × Bool) × World
  unfolding marker_processed
  marker_companions t c f by_file w =
      if not (c.mode == "marker")
      then (([], false), w)
      else elim (by_file (marker_of f.name c.suffix)) [
        | none ↦ (([], false), w)
        | some mf ↦
            if t.source.original_file_handling == "copy"
            then with_marker mf (marker_processed t mf w)
            else ((mf ∷ [], false), w)
      ]

  module _ (t : Topic) (conn : Connector) where
    abbrev pub observe : FileInfo → ℕ → Observation
    observe f t = record { name = f.name; size = f.size; mod_time = f.mod_time; observed_at = t }

    abbrev pub keep_observation : FileInfo → World → Bool × World
    keep_observation f w = (
      true,
      record w { observations = Dict.put w.observations (t.name, f.name) (observe f (now env w)) },
    )

    abbrev pub observed : FileInfo → World → Option Observation → Bool × World
    observed f w none = keep_observation f w
    observed f w (some prev) =
        if not (is_unchanged prev (observe f (now env w)))
        then keep_observation f w
        else if is_stable prev (observe f (now env w)) (to_ℕ t.source.stability_interval * second)
        then after_collect t.name (collect_file env p t conn f [] w)
            (forget_observation t.name f.name)
        else (true, w)

    abbrev pub unless_processed : FileInfo → Bool × World → Bool × World
    unless_processed f (true, w) = (true, w)
    unless_processed f (false, w) = observed f w (Dict.get w.observations (t.name, f.name))

    unfoldable pub stability_file : FileInfo → World → Bool × World
    unfolding skip_processed
    stability_file f w =
        if is_excluded f.name t.source.exclude_patterns
        then (true, w)
        else unless_processed f (skip_processed t f w)

    abbrev pub pruned : List FileInfo → Bool × World → World
    pruned files (false, w) = w
    pruned files (true, w) = record w {
      observations = prune t.name (names_of files) w.observations;
    }

    unfoldable pub collect_by_stability : List FileInfo → World → World
    unfolding stability_file each_file prune
    collect_by_stability files w = pruned files (each_file stability_file files w)

    abbrev pub with_companions : FileInfo → (List FileInfo × Bool) × World → Bool × World
    with_companions f ((cs, true), w) = (true, w)
    with_companions f ((cs, false), w) =
        after_collect t.name (collect_file env p t conn f cs w) (λ v. v)

    abbrev pub unless_done : FileInfo → (String → Option FileInfo) → Bool × World → Bool × World
    unless_done f by_file (true, w) = (true, w)
    unless_done f by_file (false, w) =
        with_companions f (marker_companions t t.source.completion f by_file w)

    unfoldable pub completion_file :
        (String → Bool) × (String → Option FileInfo) → FileInfo → World → Bool × World
    unfolding marker_companions skip_by_completion
    completion_file (ready, by_file) f w =
        if skip_by_completion t.source.completion f.name ready
        then (true, w)
        else if is_excluded f.name t.source.exclude_patterns
        then (true, w)
        else unless_done f by_file (skip_processed t f w)

    unfoldable pub collect_by_completion : List FileInfo → World → World
    unfolding completion_file each_file marker_readiness
    collect_by_completion files w =
        (each_file (completion_file (marker_readiness t.source.completion files)) files w).1

    abbrev pub collected_at : World → World
    collected_at w =
        if p.has_metrics
        then record w {
          metrics = record w.metrics {
            last_collect = Dict.put w.metrics.last_collect t.name (now env w);
          };
        }
        else w

    abbrev pub collect_listed : Result (List FileInfo) × World → Result (Unit {0}) × World
    collect_listed (err e, w) = (err e, w)
    collect_listed (ok files, w) = (
      ok tt,
      collected_at (
          if is_immediate_inbox t.source
          then collect_by_completion files w
          else collect_by_stability files w),
    )

  abbrev pub connected : Topic → Result Connector → Io (Unit {0})
  connected t (err e) w = (err e, w)
  connected t (ok conn) w = collect_listed t conn (conn.list w)

  -- The fetch directory, which is emptied of temporary files too, is not part of the world.
  unfoldable pub collect_topic : (Source → Connector) → Topic → Io (Unit {0})
  unfolding collect_by_stability collect_by_completion
  collect_topic remote t w =
      connected t (new_connector env remote t.source) (cleanup_work_temp_files env t.name w)
