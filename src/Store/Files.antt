-- ===== src/Store/Files.antt =====
-- internal/gateway/store/archive.go, dlq.go and processed.go, over CopyFileAtomic and
-- WriteJSONAtomic of atomic.go, which happen as a whole or not at all.
pub mod Laws
pub mod Directory
use file_pubsub.Base.{
  ℕ, suc, String, Bool, true, false, ◌&&◌, ◌||◌, Option, none, some, List, [], ◌∷◌, ◌++◌, ◌==◌, any,
  nat_eq, string_eq, pair_eq, if◌then◌else◌, Result, ok, err, io_error, not_exist, usage_error,
}
use file_pubsub.Base.Dict
use file_pubsub.Base.Dict.{Dict}
use file_pubsub.Store.World.{
  World, Env, Bytes, DlqMeta, ProcessedEntry, UpdateLock, Io, fails, now, next,
}

module _ (env : Env) where
  -- CopyFileAtomic from a file that may be missing; `write` puts the content at its place.
  unfoldable pub copy_file_atomic : Option Bytes → (Bytes → World → World) → Io (Unit {0})
  copy_file_atomic none write w = (err not_exist, next w)
  copy_file_atomic (some content) write w =
      if fails env w then (err io_error, next w) else (ok tt, next (write content w))

  -- WriteJSONAtomic.
  unfoldable pub write_atomic : (World → World) → Io (Unit {0})
  write_atomic write w = if fails env w then (err io_error, next w) else (ok tt, next (write w))

  -- os.Remove; a missing file is no error to the callers.
  unfoldable pub remove_file : (World → World) → Io (Unit {0})
  remove_file drop w = if fails env w then (err io_error, next w) else (ok tt, next (drop w))

  module _ (topic id : String) where
    unfoldable pub put_work : Bytes → Io (Unit {0})
    unfolding write_atomic
    put_work content = write_atomic (λ w. record w { work = Dict.put w.work (topic, id) content })

    abbrev promoted : Result (Unit {0}) × World → Result (Unit {0}) × World
    promoted (err e, w) = (err e, w)
    promoted (ok _, w) = remove_file (λ w. record w { work = Dict.remove w.work (topic, id) }) w

    unfoldable pub promote : Io (Unit {0})
    unfolding copy_file_atomic remove_file
    promote w = promoted (
        copy_file_atomic (Dict.get w.work (topic, id))
          (λ content w. record w { archive = Dict.put w.archive (topic, id) content }) w)

    -- Exists and os.Stat of a work file.
    unfoldable pub exists_in : Dict (String × String) Bytes → Io Bool
    exists_in files w =
        if fails env w
        then (err io_error, next w)
        else (ok (elim (Dict.get files (topic, id)) [ none ↦ false | some _ ↦ true ]), next w)

    unfoldable pub exists : Io Bool
    unfolding exists_in
    exists w = exists_in w.archive w

    unfoldable pub delete : Io (Unit {0})
    unfolding remove_file
    delete = remove_file (λ w. record w { archive = Dict.remove w.archive (topic, id) })

  abbrev isolated : DlqMeta → Result (Unit {0}) × World → Result (Unit {0}) × World
  isolated meta (err e, w) = (err e, w)
  isolated meta (ok _, w) =
      write_atomic
        (λ w. record w { dlq_meta = Dict.put w.dlq_meta (meta.topic, meta.message_id) meta }) w

  -- DLQStore.Isolate of an archive file.
  unfoldable pub isolate : Option Bytes → DlqMeta → Io (Unit {0})
  unfolding copy_file_atomic write_atomic
  isolate source meta w =
      if meta.message_id == "" || meta.topic == ""
      then (err usage_error, w)
      else isolated meta (
          copy_file_atomic source
            (λ content w. record w { dlq = Dict.put w.dlq (meta.topic, meta.message_id) content })
            w)

  -- processed/{topic}.json: a missing file has no entries.
  abbrev pub entries : World → String → List ProcessedEntry
  entries w topic = elim (Dict.get w.processed topic) [ none ↦ [] | some es ↦ es ]

  abbrev pub matches : String → ℕ → ℕ → ProcessedEntry → Bool
  matches name mod_time size e =
      e.source_file_identifier == name && (e.mod_time_unix_nano == mod_time && e.size == size)

  unfoldable pub is_processed : String → String → ℕ → ℕ → Io Bool
  is_processed topic name mod_time size w =
      if fails env w
      then (err io_error, next w)
      else (ok (any (matches name mod_time size) (entries w topic)), next w)

  abbrev pub add_entry : String → ProcessedEntry → World → World
  add_entry topic e w = record w {
    processed = Dict.put w.processed topic (entries w topic ++ e ∷ []);
  }

  unfoldable pub mark_processed : String → String → ℕ → ℕ → ℕ → Io (Unit {0})
  unfolding write_atomic
  mark_processed topic name mod_time size at w =
      if fails env w
      then (err io_error, next w)
      else if any (matches name mod_time size) (entries w topic)
      then (ok tt, next w)
      else write_atomic
          (add_entry topic (record {
            source_file_identifier = name;
            mod_time_unix_nano = mod_time;
            size = size;
            processed_at = at;
          }))
          (next w)
