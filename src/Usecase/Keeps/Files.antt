-- ===== src/Usecase/Keeps/Files.antt =====
-- internal/gateway/store and internal/gateway/source: no file operation writes data_dir/lock.
use file_pubsub.Base.{ℕ, String, refl, List, [], ◌∷◌, ap, arith, Option, string_eq, pair_eq}
use file_pubsub.Base.Dict
use file_pubsub.Store.World.{World, next, Env, Bytes, IsAlone, DlqMeta}
use file_pubsub.Store.Manifest.{Manifest}
use file_pubsub.Store.ManifestStore.{Mutate, manifest_exists, put_manifest, list_manifests}
use file_pubsub.Store.ManifestStore.Frame.{but_ops-list_manifests}
use file_pubsub.Store.Update.{update}
use file_pubsub.Store.Update.Frame.{but_manifests-update}
use file_pubsub.Store.Files.{
  copy_file_atomic, write_atomic, remove_file, put_work, promote, exists_in, exists, delete,
  isolate, is_processed, mark_processed,
}
use file_pubsub.Store.Files.Directory.{is_temp, ids_of, remove_each, cleanup_work_temp_files}
use file_pubsub.Store.Lease.{holds_lease, read_lock}
use file_pubsub.Source.{local, local_list, local_fetch, local_remove}
use file_pubsub.Usecase.Keeps.{Keeps, Leaves, IsApart}

module _ (env : Env) where
  pub put_work-Keeps : (topic id : String) (content : Bytes) → Keeps (put_work env topic id content)
  unfolding put_work write_atomic
  put_work-Keeps topic id content w = ground arith

  pub promote-Keeps : (topic id : String) → Keeps (promote env topic id)
  unfolding promote copy_file_atomic remove_file
  promote-Keeps topic id w = ground arith

  pub exists_in-Keeps :
      (topic id : String) (files : Dict.Dict (String × String) Bytes)
      → Keeps (exists_in env topic id files)
  unfolding exists_in
  exists_in-Keeps topic id files w = ground arith

  pub exists-Keeps : (topic id : String) → Keeps (exists env topic id)
  unfolding exists exists_in
  exists-Keeps topic id w = ground arith

  pub delete-Keeps : (topic id : String) → Keeps (delete env topic id)
  unfolding delete remove_file
  delete-Keeps topic id w = ground arith

  remove_each-Leaves : (topic : String) (ids : List String) → Leaves (remove_each env topic ids)
  unfolding remove_each
  remove_each-Leaves topic [] w = refl
  remove_each-Leaves topic (id ∷ ids) w =
      let v = next (record w { work = Dict.remove w.work (topic, id) }) in
      ground (arith, remove_each-Leaves topic ids v)

  pub cleanup_work-Leaves : (topic : String) → Leaves (cleanup_work_temp_files env topic)
  unfolding cleanup_work_temp_files
  cleanup_work-Leaves topic w =
      ground (arith, remove_each-Leaves topic (ids_of (λ id. is_temp id) topic w.work) (next w))

  pub isolate-Keeps : (source : Option Bytes) (meta : DlqMeta) → Keeps (isolate env source meta)
  unfolding isolate copy_file_atomic write_atomic
  isolate-Keeps source meta w = ground arith

  pub is_processed-Keeps :
      (topic name : String) (mod_time size : ℕ) → Keeps (is_processed env topic name mod_time size)
  unfolding is_processed
  is_processed-Keeps topic name mod_time size w = ground arith

  pub mark_processed-Keeps :
      (topic name : String) (mod_time size at : ℕ)
      → Keeps (mark_processed env topic name mod_time size at)
  unfolding mark_processed write_atomic
  mark_processed-Keeps topic name mod_time size at w = ground arith

  pub put_manifest-Keeps : (m : Manifest) → Keeps (put_manifest env m)
  unfolding put_manifest
  put_manifest-Keeps m w = ground arith

  pub manifest_exists-Keeps : (id : String) → Keeps (manifest_exists env id)
  unfolding manifest_exists
  manifest_exists-Keeps id w = ground arith

  pub list_manifests-Keeps : Keeps (list_manifests env)
  list_manifests-Keeps w = ap (λ (v : World). v.lease) (but_ops-list_manifests env w)

  pub update-Keeps : IsAlone env → (id : String) (mutate : Mutate) → Keeps (update env id mutate)
  update-Keeps alone id mutate w =
      ap (λ (v : World). v.lease) (but_manifests-update env alone id mutate w)

  pub holds_lease-Keeps : (host boot : String) (t : ℕ) → Keeps (holds_lease env host boot t)
  unfolding holds_lease read_lock
  holds_lease-Keeps host boot t w = ground arith

  pub local-IsApart : (dir : String) → IsApart (local env dir)
  unfolding local local_list local_fetch local_remove
  local-IsApart dir = record {
    list = λ w. ground arith;
    fetch = λ name w. ground arith;
    remove = λ name w. ground arith;
  }
