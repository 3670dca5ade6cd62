-- ===== src/Usecase/Keeps/Passes.antt =====
-- internal/usecase/collect.go: the passes over a source directory do not write data_dir/lock.
use file_pubsub.Base.{
  String, ◌≡◌, refl, ◌∙◌, arith, none, some, Option, Result, ok, err, List, [], ◌∷◌, string_eq,
  pair_eq, nat_eq, true, false, Bool, Option-cases, inl, inr,
}
use file_pubsub.Base.Dict
use file_pubsub.Config.{Topic, Completion}
use file_pubsub.Domain.State.{status_eq}
use file_pubsub.Domain.Completion.{marker_of}
use file_pubsub.Domain.Stability.{Observation}
use file_pubsub.Store.World.{World, Env, IsAlone}
use file_pubsub.Source.{Connector, FileInfo}
use file_pubsub.Usecase.Pipeline.{Pipeline}
use file_pubsub.Usecase.Collect.{collect_file}
use file_pubsub.Usecase.Collect.Passes.{
  skip_processed, marker_processed, marker_companions, after_collect, forget_observation, each_file,
  observed, unless_processed, stability_file, collect_by_stability, with_companions, unless_done,
  completion_file, marker_readiness, collect_by_completion, collect_listed, pruned,
}
use file_pubsub.Usecase.Keeps.{Keeps, Leaves, IsApart}
use file_pubsub.Usecase.Keeps.Files.{is_processed-Keeps}
use file_pubsub.Usecase.Keeps.Collecting.{collect_file-Keeps}

after_collect-Keeps :
    (topic : String) (q : Result (Unit {0}) × World) (done : World → World)
    → Leaves done
    → (after_collect topic q done).1.lease ≡ q.1.lease
after_collect-Keeps topic (ok _, w) done h = h w
after_collect-Keeps topic (err e, w) done h = ground arith

each_file-Keeps :
    (body : FileInfo → World → Bool × World)
    → ((f : FileInfo) → Keeps (body f))
    → (files : List FileInfo) → Keeps (each_file body files)
unfolding each_file
each_file-Keeps body keeps [] w = refl
each_file-Keeps body keeps (f ∷ files) w =
    ground (arith, keeps f w, each_file-Keeps body keeps files (body f w).1)

module _ (env : Env) (alone : IsAlone env) (p : Pipeline) where
  module _ (t : Topic) where
    skip_processed-Keeps : (f : FileInfo) → Keeps (skip_processed env p t f)
    unfolding skip_processed
    skip_processed-Keeps f w =
        ground (arith, is_processed-Keeps env t.name f.name f.mod_time f.size w)

    marker_processed-Keeps : (f : FileInfo) → Keeps (marker_processed env p t f)
    unfolding marker_processed
    marker_processed-Keeps f w =
        ground (arith, is_processed-Keeps env t.name f.name f.mod_time f.size w)

    marker_companions-Keeps :
        (c : Completion) (f : FileInfo) (by_file : String → Option FileInfo)
        → Keeps (marker_companions env p t c f by_file)
    unfolding marker_companions
    marker_companions-Keeps c f by_file w =
        elim (Option-cases (by_file (marker_of f.name c.suffix))) [
          | inl e ↦ rw e (ground arith)
          | inr (mf, e) ↦ rw e (ground (arith, marker_processed-Keeps mf w))
        ]

    module _ (conn : Connector) (apart : IsApart conn) where
      observed-Keeps :
          (f : FileInfo) (w : World) (o : Option Observation)
          → (observed env p t conn f w o).1.lease ≡ w.lease
      observed-Keeps f w none = refl
      observed-Keeps f w (some prev) =
          let q = collect_file env p t conn f [] w in
          ground (
            arith,
            after_collect-Keeps t.name q (forget_observation t.name f.name) (λ v. refl),
            collect_file-Keeps env alone p conn apart t f [] w,
          )

      unless_processed-Keeps :
          (f : FileInfo) (q : Bool × World)
          → (unless_processed env p t conn f q).1.lease ≡ q.1.lease
      unless_processed-Keeps f (true, w) = refl
      unless_processed-Keeps f (false, w) =
          observed-Keeps f w (Dict.get w.observations (t.name, f.name))

      stability_file-Keeps : (f : FileInfo) → Keeps (stability_file env p t conn f)
      unfolding stability_file
      stability_file-Keeps f w =
          ground
            (arith, skip_processed-Keeps f w, unless_processed-Keeps f (skip_processed env p t f w))

      pruned-Keeps :
          (files : List FileInfo) (q : Bool × World)
          → (pruned env p t conn files q).lease ≡ q.1.lease
      pruned-Keeps files (true, w) = refl
      pruned-Keeps files (false, w) = refl

      collect_by_stability-Leaves :
          (files : List FileInfo) → Leaves (collect_by_stability env p t conn files)
      unfolding collect_by_stability
      collect_by_stability-Leaves files w =
          pruned-Keeps files (each_file (stability_file env p t conn) files w)
          ∙ each_file-Keeps (stability_file env p t conn) stability_file-Keeps files w

      with_companions-Keeps :
          (f : FileInfo) (q : (List FileInfo × Bool) × World)
          → (with_companions env p t conn f q).1.lease ≡ q.1.lease
      with_companions-Keeps f ((cs, true), w) = refl
      with_companions-Keeps f ((cs, false), w) =
          after_collect-Keeps t.name (collect_file env p t conn f cs w) (λ v. v) (λ v. refl)
          ∙ collect_file-Keeps env alone p conn apart t f cs w

      unless_done-Keeps :
          (f : FileInfo) (by_file : String → Option FileInfo) (q : Bool × World)
          → (unless_done env p t conn f by_file q).1.lease ≡ q.1.lease
      unless_done-Keeps f by_file (true, w) = refl
      unless_done-Keeps f by_file (false, w) =
          with_companions-Keeps f (marker_companions env p t t.source.completion f by_file w)
          ∙ marker_companions-Keeps t.source.completion f by_file w

      completion_file-Keeps :
          (ready : (String → Bool) × (String → Option FileInfo)) (f : FileInfo)
          → Keeps (completion_file env p t conn ready f)
      unfolding completion_file
      completion_file-Keeps (ready, by_file) f w = ground (
        arith,
        skip_processed-Keeps f w,
        unless_done-Keeps f by_file (skip_processed env p t f w),
      )

      collect_by_completion-Leaves :
          (files : List FileInfo) → Leaves (collect_by_completion env p t conn files)
      unfolding collect_by_completion
      collect_by_completion-Leaves files w =
          let ready = marker_readiness t.source.completion files in
          each_file-Keeps (completion_file env p t conn ready) (completion_file-Keeps ready) files w

      pub collect_listed-Keeps :
          (q : Result (List FileInfo) × World) → (collect_listed env p t conn q).1.lease ≡ q.1.lease
      collect_listed-Keeps (err e, w) = refl
      collect_listed-Keeps (ok files, w) =
          ground (arith, collect_by_stability-Leaves files w, collect_by_completion-Leaves files w)
