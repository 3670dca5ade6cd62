-- ===== src/Usecase/Keeps/Cycle.antt =====
-- internal/usecase/collect.go and cycle.go: a polling cycle does not write data_dir/lock.
use file_pubsub.Base.{
  String, ◌≡◌, refl, ◌∙◌, arith, Result, ok, err, usage_error, if◌then◌else◌, List, [], ◌∷◌,
  string_eq, pair_eq, nat_eq, true, false, Bool, ◌||◌, ◌==◌,
}
use file_pubsub.Config.{Topic, Source}
use file_pubsub.Domain.State.{status_eq}
use file_pubsub.Store.World.{World, Env, IsAlone, next, pure, DlqMeta}
use file_pubsub.Store.Manifest.{Manifest}
use file_pubsub.Store.ManifestStore.{list_manifests}
use file_pubsub.Store.Files.{exists_in, exists, promote}
use file_pubsub.Source.{Connector, new_connector, local}
use file_pubsub.Usecase.Pipeline.{Pipeline, ensure_lease}
use file_pubsub.Usecase.Fanout.{fanout}
use file_pubsub.Usecase.Retry.{retry}
use file_pubsub.Usecase.Retention.{retention}
use file_pubsub.Usecase.Status.{dlq_topic, read_metas, topic_metas, sort_metas}
use file_pubsub.Usecase.Collect.Passes.{connected, collect_topic}
use file_pubsub.Usecase.Collect.Whole.{
  resume_promoted, resume_archived, resume_work, resume_leased, resume_message, resume_each,
  resume_listed, resume_archiving, topic_done, collect_topics, collect,
}
use file_pubsub.Usecase.Cycle.{
  set_gauges, gauges_listed, refresh_gauges, run_cycle, set_dlq_count, set_backlog_count,
  backlog_of,
}
use file_pubsub.Usecase.Keeps.{Keeps, Leaves, IsApart, Keeps-continue}
use file_pubsub.Store.Files.Directory.{cleanup_work_temp_files}
use file_pubsub.Usecase.Keeps.Files.{
  cleanup_work-Leaves, list_manifests-Keeps, exists-Keeps, exists_in-Keeps, promote-Keeps,
  local-IsApart,
}
use file_pubsub.Usecase.Keeps.Stages.{ensure_lease-Keeps, fanout-Leaves}
use file_pubsub.Usecase.Keeps.Retrying.{retry-Leaves, retention-Leaves}
use file_pubsub.Usecase.Keeps.Collecting.{finalize_archive-Keeps}
use file_pubsub.Usecase.Keeps.Passes.{collect_listed-Keeps}

module _ (env : Env) (alone : IsAlone env) (p : Pipeline) (remote : Source → Connector)
    (apart : (s : Source) → IsApart (remote s)) where
  abbrev AllApart : Result Connector → Type 0
  AllApart (ok conn) = IsApart conn
  AllApart (err e) = Unit

  if-AllApart :
      (b : Bool) (r r' : Result Connector)
      → AllApart r
      → AllApart r'
      → AllApart (if b then r else r')
  if-AllApart true r r' h k = h
  if-AllApart false r r' h k = k

  new_connector-IsApart : (s : Source) → AllApart (new_connector env remote s)
  unfolding new_connector
  new_connector-IsApart s =
      let near = s.kind == "local" || s.kind == "inbox" in
      let far = s.kind == "ftp" || (s.kind == "sftp" || s.kind == "scp") in
      let chosen = if far then ok (remote s) else err usage_error in
      if-AllApart near (ok (local env s.directory)) chosen (local-IsApart env s.directory)
        (if-AllApart far (ok (remote s)) (err usage_error) (apart s) tt)

  connected-Keeps : (t : Topic) (r : Result Connector) → AllApart r → Keeps (connected env p t r)
  connected-Keeps t (err e) h w = refl
  connected-Keeps t (ok conn) h w =
      collect_listed-Keeps env alone p t conn h (conn.list w) ∙ h.list w

  collect_topic-Keeps : (t : Topic) → Keeps (collect_topic env p remote t)
  unfolding collect_topic
  collect_topic-Keeps t w =
      connected-Keeps t (new_connector env remote t.source) (new_connector-IsApart t.source)
        (cleanup_work_temp_files env t.name w)
      ∙ cleanup_work-Leaves env t.name w

  resume_promoted-Keeps :
      (m : Manifest) (q : Result (Unit {0}) × World) → (resume_promoted env p m q).lease ≡ q.1.lease
  unfolding resume_promoted
  resume_promoted-Keeps m (err e, w) = refl
  resume_promoted-Keeps m (ok _, w) = ground (arith, finalize_archive-Keeps env alone p m w)

  resume_archived-Keeps :
      (m : Manifest) (q : Result Bool × World) → (resume_archived env p m q).lease ≡ q.1.lease
  unfolding resume_archived
  resume_archived-Keeps m (err e, w) = refl
  resume_archived-Keeps m (ok false, w) = refl
  resume_archived-Keeps m (ok true, w) = ground (arith, finalize_archive-Keeps env alone p m w)

  resume_work-Keeps :
      (m : Manifest) (q : Result Bool × World) → (resume_work env p m q).lease ≡ q.1.lease
  unfolding resume_work
  resume_work-Keeps m (ok true, w) =
      resume_promoted-Keeps m (promote env m.topic m.message_id w)
      ∙ promote-Keeps env m.topic m.message_id w
  resume_work-Keeps m (ok false, w) =
      resume_archived-Keeps m (exists env m.topic m.message_id w)
      ∙ exists-Keeps env m.topic m.message_id w
  resume_work-Keeps m (err e, w) =
      resume_archived-Keeps m (exists env m.topic m.message_id w)
      ∙ exists-Keeps env m.topic m.message_id w

  resume_leased-Keeps :
      (m : Manifest) (q : Result (Unit {0}) × World) → (resume_leased env p m q).1.lease ≡ q.1.lease
  unfolding resume_leased
  resume_leased-Keeps m (err e, w) = refl
  resume_leased-Keeps m (ok _, w) =
      resume_work-Keeps m (exists_in env m.topic m.message_id w.work w)
      ∙ exists_in-Keeps env m.topic m.message_id w.work w

  resume_message-Keeps : (m : Manifest) → Keeps (resume_message env p m)
  unfolding resume_message
  resume_message-Keeps m w =
      ground (arith, ensure_lease-Keeps env alone p w, resume_leased-Keeps m (ensure_lease env p w))

  resume_each-Leaves : (ms : List Manifest) → Leaves (resume_each env p ms)
  unfolding resume_each
  resume_each-Leaves [] w = refl
  resume_each-Leaves (m ∷ ms) w =
      ground (arith, resume_message-Keeps m w, resume_each-Leaves ms (resume_message env p m w).1)

  resume_listed-Keeps :
      (q : Result (List Manifest) × World) → (resume_listed env p q).lease ≡ q.1.lease
  resume_listed-Keeps (err e, w) = refl
  resume_listed-Keeps (ok ms, w) = resume_each-Leaves ms w

  topic_done-Keeps :
      (t : Topic) (q : Result (Unit {0}) × World) → (topic_done env p t q).lease ≡ q.1.lease
  topic_done-Keeps t (ok _, w) = refl
  topic_done-Keeps t (err e, w) = refl

  collect_topics-Leaves : (ts : List Topic) → Leaves (collect_topics env p remote ts)
  unfolding collect_topics
  collect_topics-Leaves [] w = refl
  collect_topics-Leaves (t ∷ ts) w =
      let q = collect_topic env p remote t w in
      collect_topics-Leaves ts (topic_done env p t q)
      ∙ topic_done-Keeps t q
      ∙ collect_topic-Keeps t w

  collect-Leaves : Leaves (collect env p remote)
  unfolding collect resume_archiving
  collect-Leaves w =
      collect_topics-Leaves p.cfg.topics (resume_archiving env p w)
      ∙ resume_listed-Keeps (list_manifests env w)
      ∙ list_manifests-Keeps env w

  read_metas-Keeps : (ms : List DlqMeta) → Keeps (read_metas env ms)
  unfolding read_metas
  read_metas-Keeps [] w = refl
  read_metas-Keeps (m ∷ ms) w = ground (
    arith,
    read_metas-Keeps ms (next w),
    Keeps-continue (read_metas env ms (next w)) (λ rest. pure (m ∷ rest)) (λ rest v. refl),
  )

  dlq_topic-Keeps : (topic : String) → Keeps (dlq_topic env topic)
  unfolding dlq_topic
  dlq_topic-Keeps topic w =
      let ms = topic_metas topic w.dlq_meta in
      ground (
        arith,
        read_metas-Keeps ms (next w),
        Keeps-continue (read_metas env ms (next w)) (λ rest. pure (sort_metas rest))
            (λ rest v. refl),
      )

  set_dlq_count-Keeps :
      (topic : String) (q : Result (List DlqMeta) × World)
      → (set_dlq_count topic q).lease ≡ q.1.lease
  set_dlq_count-Keeps topic (ok ms, w) = refl
  set_dlq_count-Keeps topic (err e, w) = refl

  set_gauges-Leaves : (ms : List Manifest) (ts : List Topic) → Leaves (set_gauges env p ms ts)
  unfolding set_gauges
  set_gauges-Leaves ms [] w = refl
  set_gauges-Leaves ms (t ∷ ts) w =
      let v = set_backlog_count t.name (backlog_of ms t.name) w in
      set_gauges-Leaves ms ts (set_dlq_count t.name (dlq_topic env t.name v))
      ∙ set_dlq_count-Keeps t.name (dlq_topic env t.name v)
      ∙ dlq_topic-Keeps t.name v

  gauges_listed-Keeps :
      (q : Result (List Manifest) × World) → (gauges_listed env p q).lease ≡ q.1.lease
  gauges_listed-Keeps (err e, w) = refl
  gauges_listed-Keeps (ok ms, w) = set_gauges-Leaves ms p.cfg.topics w

  refresh_gauges-Leaves : Leaves (refresh_gauges env p)
  unfolding refresh_gauges
  refresh_gauges-Leaves w =
      ground (arith, gauges_listed-Keeps (list_manifests env w), list_manifests-Keeps env w)

  -- A whole polling cycle leaves the lock file as it was, whatever fails, while no other process
  -- runs and the connectors leave it alone.
  pub run_cycle-Leaves : Leaves (run_cycle env p remote)
  unfolding run_cycle
  run_cycle-Leaves w =
      let a = collect env p remote w in
      let b = fanout env p a in
      let c = retry env p b in
      refresh_gauges-Leaves (retention env c)
      ∙ retention-Leaves env alone p c
      ∙ retry-Leaves env alone p b
      ∙ fanout-Leaves env alone p a
      ∙ collect-Leaves w
