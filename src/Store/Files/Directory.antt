-- ===== src/Store/Files/Directory.antt =====
-- internal/gateway/store/archive.go, dlq.go and processed.go: CleanupWorkTempFiles, and the operations
-- that only read. An archive directory holds no folder.
use Prim.Native.String.{compare}
use Prim.Native.Nat.{Ordering}
use file_pubsub.Base.{
  ℕ, String, Bool, not, ◌&&◌, Option, none, some, List, [], ◌∷◌, ◌==◌, string_eq, pair_eq,
  if◌then◌else◌, Result, ok, err, io_error, not_exist,
}
use file_pubsub.Base.Dict
use file_pubsub.Base.Dict.{Dict}
use file_pubsub.Base.Text.{has_suffix}
use file_pubsub.Store.World.{
  World, Env, Bytes, Io, DlqMeta, ProcessedEntry, LockRecord, fails, next,
}
use file_pubsub.Store.Files.{entries}

-- os.ReadDir sorts by name, and so does sort.Strings.
insert_id : String → List String → List String
insert_id n [] = n ∷ []
insert_id n (x ∷ xs) =
    let later = insert_id n xs in elim (compare n x) [ Ordering.gt ↦ x ∷ later | _ ↦ n ∷ x ∷ xs ]

-- The ids of one topic's files that a test lets through.
unfoldable pub ids_of : (String → Bool) → String → Dict (String × String) Bytes → List String
unfolding insert_id
ids_of keep topic [] = []
ids_of keep topic (((t, id), content) ∷ d) =
    let rest = ids_of keep topic d in if t == topic && keep id then insert_id id rest else rest

abbrev pub is_temp : String → Bool
is_temp id = has_suffix id ".tmp"

module _ (env : Env) where
  -- The loop of CleanupTempFiles: the first Remove that fails ends it.
  unfoldable pub remove_each : String → List String → World → World
  remove_each topic [] w = w
  remove_each topic (id ∷ ids) w =
      let rest =
        remove_each topic ids (next (record w { work = Dict.remove w.work (topic, id) })) in
      if fails env w then next w else rest

  -- CleanupWorkTempFiles, whose error the caller drops.
  unfoldable pub cleanup_work_temp_files : String → World → World
  unfolding remove_each ids_of
  cleanup_work_temp_files topic w =
      if fails env w then next w else remove_each topic (ids_of is_temp topic w.work) (next w)

  unfoldable pub list_message_ids : String → Io (List String)
  unfolding ids_of
  list_message_ids topic w =
      if fails env w
      then (err io_error, next w)
      else (ok (ids_of (λ id. not (is_temp id)) topic w.archive), next w)

  abbrev found {ℓ} : {A : Type ℓ} → Option A → Result A
  found none = err not_exist
  found (some a) = ok a

  unfoldable pub open_archive : String → String → Io Bytes
  open_archive topic id w =
      if fails env w
      then (err io_error, next w)
      else (found (Dict.get w.archive (topic, id)), next w)

  unfoldable pub read_meta : String → String → Io DlqMeta
  read_meta topic id w =
      if fails env w
      then (err io_error, next w)
      else (found (Dict.get w.dlq_meta (topic, id)), next w)

  unfoldable pub processed_entries : String → Io (List ProcessedEntry)
  processed_entries topic w =
      if fails env w then (err io_error, next w) else (ok (entries env w topic), next w)

  abbrev holder_of : Result LockRecord → Result (ℕ × ℕ)
  holder_of (ok rec) = ok (rec.pid, rec.acquired_at)
  holder_of (err e) = err e

  unfoldable pub holder : Io (ℕ × ℕ)
  holder w = if fails env w then (err io_error, next w) else (holder_of (found w.lease), next w)
