-- ===== src/Usecase/Collect/Whole.antt =====
-- internal/usecase/collect.go: interrupted archiving is resumed, then every topic is collected.
use file_pubsub.Base.{
  Bool, true, false, List, [], ◌∷◌, ◌==◌, string_eq, nat_eq, pair_eq, if◌then◌else◌, Result, ok,
  err,
}
use file_pubsub.Config.{Topic, Source}
use file_pubsub.Domain.State.{status_eq, collected}
use file_pubsub.Store.Manifest.{Manifest}
use file_pubsub.Store.World.{World, Env, emit}
use file_pubsub.Store.ManifestStore.{list_manifests}
use file_pubsub.Store.Files.{promote, exists, exists_in}
use file_pubsub.Source.{Connector}
use file_pubsub.Usecase.Pipeline.{Pipeline, event, ensure_lease}
use file_pubsub.Usecase.Fanout.{go_on, logged}
use file_pubsub.Usecase.Collect.{finalize_archive}
use file_pubsub.Usecase.Collect.Passes.{collect_topic}

module _ (env : Env) (p : Pipeline) where
  unfoldable pub resume_promoted : Manifest → Result (Unit {0}) × World → World
  resume_promoted m (err e, w) = emit (event m.message_id m.topic "" "archive_failed") w
  resume_promoted m (ok _, w) = logged "archive_failed" m (finalize_archive env p m w)

  unfoldable pub resume_archived : Manifest → Result Bool × World → World
  resume_archived m (ok true, w) = logged "archive_failed" m (finalize_archive env p m w)
  resume_archived m (_, w) = emit (event m.message_id m.topic "" "archive_failed") w

  -- os.Stat of the work file; an error counts as a missing file.
  unfoldable pub resume_work : Manifest → Result Bool × World → World
  unfolding resume_promoted resume_archived
  resume_work m (ok true, w) = resume_promoted m (promote env m.topic m.message_id w)
  resume_work m (_, w) = resume_archived m (exists env m.topic m.message_id w)

  unfoldable pub resume_leased : Manifest → Result (Unit {0}) × World → Bool × World
  unfolding resume_work
  resume_leased m (err e, w) = (false, emit (event m.message_id m.topic "" "lease_lost") w)
  resume_leased m (ok _, w) = (true, resume_work m (exists_in env m.topic m.message_id w.work w))

  unfoldable pub resume_message : Manifest → World → Bool × World
  unfolding resume_leased
  resume_message m w =
      if m.status == collected then resume_leased m (ensure_lease env p w) else (true, w)

  unfoldable pub resume_each : List Manifest → World → World
  resume_each [] w = w
  resume_each (m ∷ ms) w = go_on (resume_message m w) (λ v. resume_each ms v)

  abbrev pub resume_listed : Result (List Manifest) × World → World
  resume_listed (err e, w) = emit (event "" "" "" "archive_failed") w
  resume_listed (ok ms, w) = resume_each ms w

  unfoldable pub resume_archiving : World → World
  unfolding resume_message resume_each
  resume_archiving w = resume_listed (list_manifests env w)

  abbrev pub topic_done : Topic → Result (Unit {0}) × World → World
  topic_done t (ok _, w) = w
  topic_done t (err e, w) = emit (event "" t.name "" "collect_failed") w

  unfoldable pub collect_topics : (Source → Connector) → List Topic → World → World
  unfolding collect_topic
  collect_topics remote [] w = w
  collect_topics remote (t ∷ ts) w =
      collect_topics remote ts (topic_done t (collect_topic env p remote t w))

  unfoldable pub collect : (Source → Connector) → World → World
  unfolding resume_archiving collect_topics
  collect remote w = collect_topics remote p.cfg.topics (resume_archiving w)
