-- ===== src/Usecase/Cycle.antt =====
-- internal/usecase/cycle.go: one polling cycle, and the gauges at its end.
use file_pubsub.Base.{
  ℕ, suc, String, List, [], ◌∷◌, string_eq, ◌==◌, if◌then◌else◌, Result, ok, err, length,
}
use file_pubsub.Base.Dict
use file_pubsub.Base.Dict.{Dict}
use file_pubsub.Config.{Topic, Source}
use file_pubsub.Domain.State.{status_eq}
use file_pubsub.Source.{Connector}
use file_pubsub.Store.Manifest.{Manifest}
use file_pubsub.Store.World.{World, Env, DlqMeta}
use file_pubsub.Store.ManifestStore.{list_manifests}
use file_pubsub.Usecase.Pipeline.{Pipeline}
use file_pubsub.Usecase.Collect.Whole.{collect}
use file_pubsub.Usecase.Fanout.{fanout}
use file_pubsub.Usecase.Retry.{retry}
use file_pubsub.Usecase.Retention.{retention, is_final}
use file_pubsub.Usecase.Status.{dlq_topic}

-- The map `backlog` at one topic: its messages that are not settled.
unfoldable pub backlog_of : List Manifest → String → ℕ
backlog_of [] topic = 0
backlog_of (m ∷ ms) topic =
    let rest = backlog_of ms topic in
    if m.topic == topic then (if is_final m.status then rest else suc rest) else rest

abbrev pub set_dlq_count : String → Result (List DlqMeta) × World → World
set_dlq_count topic (err e, w) = w
set_dlq_count topic (ok metas, w) = record w {
  metrics = record w.metrics { dlq_count = Dict.put w.metrics.dlq_count topic (length metas) };
}

abbrev pub set_backlog_count : String → ℕ → World → World
set_backlog_count topic n w = record w {
  metrics = record w.metrics { backlog_count = Dict.put w.metrics.backlog_count topic n };
}

module _ (env : Env) (p : Pipeline) where
  unfoldable pub set_gauges : List Manifest → List Topic → World → World
  unfolding backlog_of
  set_gauges ms [] w = w
  set_gauges ms (t ∷ ts) w = set_gauges ms ts (
      set_dlq_count t.name
        (dlq_topic env t.name (set_backlog_count t.name (backlog_of ms t.name) w)))

  abbrev pub gauges_listed : Result (List Manifest) × World → World
  gauges_listed (err e, w) = w
  gauges_listed (ok ms, w) = set_gauges ms p.cfg.topics w

  unfoldable pub refresh_gauges : World → World
  unfolding set_gauges
  refresh_gauges w = if p.has_metrics then gauges_listed (list_manifests env w) else w

  unfoldable pub run_cycle : (Source → Connector) → World → World
  unfolding refresh_gauges
  run_cycle remote w =
      refresh_gauges (retention env (retry env p (fanout env p (collect env p remote w))))
