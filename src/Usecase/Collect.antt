-- ===== src/Usecase/Collect.antt =====
-- internal/usecase/collect.go: one source file becomes one message.
-- Temporary files of an interrupted download are not part of the world, nor is their cleanup.
pub mod Passes
pub mod Whole
pub mod Order
pub mod Originals
use Prim.Native.String.{◌++◌ as append}
use file_pubsub.Base.{
  ℕ, zero, suc, ◌+◌, ◌-◌, String, Bool, true, false, not, ◌&&◌, ◌||◌, Option, none, some, List, [],
  ◌∷◌, ◌==◌, string_eq, pair_eq, if◌then◌else◌, Result, ok, err, Error, io_error,
  skip_manifest_update,
}
use file_pubsub.Base.Dict
use file_pubsub.Base.Text.{decimal}
use file_pubsub.Config.{Topic}
use file_pubsub.Domain.Limits.{Message, Span, new_message_id, retention_deadline}
use file_pubsub.Domain.State.{MessageStatus, status_eq, validate_transition, collected, archived}
use file_pubsub.Store.Manifest.{Manifest, new_manifest, append_event}
use file_pubsub.Store.World.{World, Env, Bytes, Io, emit, now, next, fails, pure, ◌>>=◌, ◌>>◌}
use file_pubsub.Store.ManifestStore.{Mutate, manifest_exists, put_manifest}
use file_pubsub.Store.Update.{update}
use file_pubsub.Store.Files.{put_work, promote, mark_processed}
use file_pubsub.Source.{FileInfo, Connector}
use file_pubsub.Usecase.Pipeline.{Pipeline, event, delivery_event, ensure_lease, count_of}

-- The loop of uniqueMessageID has the numbers from 2 to this one.
abbrev pub max_message_id_seq : ℕ
max_message_id_seq = 10000

abbrev pub unless_free : String → Result Bool × World → (World → String × World) → String × World
unless_free id (ok false, w) try_next = (id, w)
unless_free id (_, w) try_next = try_next w

unfoldable pub unique_from : Env → ℕ → ℕ → String → String → World → String × World
unique_from env zero seq base id w = (id, w)
unique_from env (suc rounds) seq base id w =
    unless_free id (manifest_exists env id w)
      (λ v. unique_from env rounds (suc seq) base (append base (append "_" (decimal seq))) v)

unfoldable pub unique_message_id : Env → String → World → String × World
unfolding unique_from
unique_message_id env base = unique_from env (max_message_id_seq - 1) 2 base base

-- archiveRelPath; topic and message names have no separator.
abbrev pub archive_rel_path : String → String → String
archive_rel_path topic message_id = append "archive/" (append topic (append "/" message_id))

abbrev archived_at : (ℕ → Span) → Pipeline → ℕ → Manifest → Manifest
archived_at zone p t base =
    append_event
      (record base {
        status = archived;
        archive_path = archive_rel_path base.topic base.message_id;
        saved_at = some t;
        retention_deadline = some (retention_deadline zone t p.cfg.archive_retention);
      })
      (delivery_event t "" "archived" "")

-- The callback of finalizeArchive.
unfoldable pub archive_callback : (ℕ → Span) → Pipeline → Mutate
archive_callback zone p t base =
    if not (base.status == collected)
    then err skip_manifest_update
    else elim (validate_transition base.status archived) [
      | some e ↦ err e
      | none ↦ ok (archived_at zone p t base)
    ]

abbrev pub count_processed : Pipeline → String → World → World
count_processed p topic w =
    if p.has_metrics
    then record w {
      metrics = record w.metrics {
        processed_total =
            Dict.put w.metrics.processed_total topic
              (suc (count_of w.metrics.processed_total topic));
      };
    }
    else w

module _ (env : Env) (p : Pipeline) where
  -- finalizeArchive returns the manifest that becomes the one in memory.
  unfoldable pub finalize_archive : Manifest → Io Manifest
  unfolding archive_callback
  finalize_archive m = do
    updated ← update env m.message_id (archive_callback env.zone p)
    λ w. (ok updated, emit (event updated.message_id updated.topic "" "archived") w)

  abbrev pub noted : Manifest → String → Result (Unit {0}) × World → World
  noted m event_type (ok _, w) = w
  noted m event_type (err e, w) = emit (event m.message_id m.topic "" event_type) w

  unfoldable pub mark_originals : Topic → Manifest → List FileInfo → World → World
  mark_originals t m [] w = w
  mark_originals t m (o ∷ originals) w =
      mark_originals t m originals (
        noted m "collect_failed" (mark_processed env t.name o.name o.mod_time o.size (now env w) w))

  unfoldable pub remove_originals : Connector → Manifest → List FileInfo → World → World
  remove_originals conn m [] w = w
  remove_originals conn m (o ∷ originals) w =
      remove_originals conn m originals (noted m "original_delete_failed" (conn.remove o.name w))

  unfoldable pub handle_originals : Connector → Topic → Manifest → List FileInfo → World → World
  unfolding mark_originals remove_originals
  handle_originals conn t m originals w =
      if t.source.original_file_handling == "copy"
      then mark_originals t m originals w
      else remove_originals conn m originals w

  unfoldable pub archive_failed : Manifest → World → Result (Unit {0}) × World
  archive_failed m w = (ok tt, emit (event m.message_id m.topic "" "archive_failed") w)

  -- The lease is confirmed again before the originals are touched.
  unfoldable pub collect_archived :
      Topic
      → Connector
      → List FileInfo
      → Manifest
      → Result Manifest × World
      → Result (Unit {0}) × World
  unfolding handle_originals archive_failed
  collect_archived t conn originals m (err e, w) = archive_failed m w
  collect_archived t conn originals m (ok updated, w) =
      (ensure_lease env p
          >> (λ v. (ok tt, count_processed p t.name (handle_originals conn t updated originals v))))
        w

  unfoldable pub collect_promoted :
      Topic
      → Connector
      → List FileInfo
      → Manifest
      → Result (Unit {0}) × World
      → Result (Unit {0}) × World
  unfolding collect_archived archive_failed finalize_archive
  collect_promoted t conn originals m (err e, w) = archive_failed m w
  collect_promoted t conn originals m (ok _, w) =
      collect_archived t conn originals m (finalize_archive m w)

  -- After the fetch: the work file and the manifest come before the archive file.
  unfoldable pub collect_message :
      Topic → Connector → List FileInfo → Message → Bytes → Io (Unit {0})
  unfolding collect_promoted
  collect_message t conn originals msg content = do
    put_work env t.name msg.message_id content
    put_manifest env (new_manifest msg)
    λ w.
        collect_promoted t conn originals (new_manifest msg) (
          promote env t.name msg.message_id
            (emit (event msg.message_id msg.topic "" "collected") w))

  abbrev pub message_for : Topic → String → World → Message × World
  message_for t name w =
      let (id, v) = unique_message_id env (new_message_id env.format (now env w) t.name name) w in
      (
        record {
          message_id = id;
          topic = t.name;
          original_file_name = name;
          collected_at = now env w;
        },
        v,
      )

  -- os.Open of the fetched copy.
  abbrev pub open_fetched : Bytes → Io Bytes
  open_fetched content w = if fails env w then (err io_error, next w) else (ok content, next w)

  abbrev pub fetch_message : Topic → Connector → List FileInfo → String → Io (Unit {0})
  fetch_message t conn originals name w =
      let (msg, v) = message_for t name w in
      (conn.fetch name >>= open_fetched >>= collect_message t conn originals msg) v

  unfoldable pub collect_file : Topic → Connector → FileInfo → List FileInfo → Io (Unit {0})
  unfolding collect_message
  collect_file t conn f companions =
      ensure_lease env p >> fetch_message t conn (f ∷ companions) f.name
