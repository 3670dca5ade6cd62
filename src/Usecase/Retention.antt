-- ===== src/Usecase/Retention.antt =====
-- internal/usecase/retention.go: archive files are removed after their deadline, once the delivery
-- is settled.
pub mod Safe
use file_pubsub.Base.{
  ℕ, String, Bool, true, false, not, ◌&&◌, ◌||◌, Option, none, some, List, [], ◌∷◌, ◌==◌,
  if◌then◌else◌, Result, ok, err,
}
use file_pubsub.Domain.Limits.{is_expired}
use file_pubsub.Domain.State.{MessageStatus, status_eq, delivered, dlq}
use file_pubsub.Store.Manifest.{Manifest}
use file_pubsub.Store.World.{World, Env, emit, now}
use file_pubsub.Store.Files.{exists, delete}
use file_pubsub.Store.ManifestStore.{list_manifests}
use file_pubsub.Usecase.Pipeline.{event}
use file_pubsub.Usecase.Fanout.{each_message}

-- A manifest with no deadline is not due.
abbrev pub is_due : Option ℕ → ℕ → Bool
is_due none t = false
is_due (some deadline) t = is_expired deadline t

abbrev pub is_final : MessageStatus → Bool
is_final s = s == MessageStatus.delivered || s == MessageStatus.dlq

module _ (env : Env) where
  abbrev retention_event : Manifest → String → World → World
  retention_event m event_type w = emit (event m.message_id m.topic "" event_type) w

  unfoldable pub retention_deleted : Manifest → Result (Unit {0}) × World → World
  retention_deleted m (err e, w) = retention_event m "retention_delete_failed" w
  retention_deleted m (ok _, w) = retention_event m "retention_deleted" w

  unfoldable pub retention_exists : Manifest → Result Bool × World → World
  unfolding retention_deleted
  retention_exists m (err e, w) = retention_event m "retention_delete_failed" w
  retention_exists m (ok false, w) = w
  retention_exists m (ok true, w) = retention_deleted m (delete env m.topic m.message_id w)

  -- The time is read once, before the loop.
  unfoldable pub retention_message : ℕ → Manifest → World → Bool × World
  unfolding retention_exists
  retention_message t m w =
      if not (is_due m.retention_deadline t)
      then (true, w)
      else if not (is_final m.status)
      then (true, retention_event m "retention_skipped" w)
      else (true, retention_exists m (exists env m.topic m.message_id w))

  abbrev pub retention_listed : Result (List Manifest) × World → World
  retention_listed (err e, w) = emit (event "" "" "" "retention_failed") w
  retention_listed (ok ms, w) = each_message env (retention_message (now env w)) ms w

  unfoldable pub retention : World → World
  unfolding retention_message each_message
  retention w = retention_listed (list_manifests env w)
