-- ===== src/Usecase/Keeps/Collecting.antt =====
-- internal/usecase/collect.go does not write data_dir/lock, with connectors that do not.
use Prim.Native.String.{◌++◌ as append}
use file_pubsub.Base.Text.{decimal}
use file_pubsub.Base.{
  ℕ, zero, suc, ◌-◌, String, ◌≡◌, refl, ◌∙◌, arith, Result, ok, err, List, [], ◌∷◌, string_eq,
  pair_eq, nat_eq, true, false, Bool,
}
use file_pubsub.Config.{Topic}
use file_pubsub.Domain.State.{status_eq}
use file_pubsub.Domain.Limits.{Message, new_message_id}
use file_pubsub.Store.World.{World, Env, Bytes, IsAlone, now, emit, continue}
use file_pubsub.Store.Manifest.{Manifest, new_manifest}
use file_pubsub.Store.ManifestStore.{manifest_exists, put_manifest}
use file_pubsub.Store.Files.{promote, put_work, mark_processed}
use file_pubsub.Source.{Connector, FileInfo}
use file_pubsub.Usecase.Pipeline.{Pipeline, ensure_lease, event}
use file_pubsub.Usecase.Collect.{
  unless_free, noted, archive_failed, unique_from, unique_message_id, finalize_archive,
  archive_callback, mark_originals, remove_originals, handle_originals, collect_archived,
  collect_promoted, collect_message, message_for, open_fetched, fetch_message, collect_file,
  max_message_id_seq,
}
use file_pubsub.Usecase.Keeps.{Keeps, Leaves, IsApart, Keeps-continue}
use file_pubsub.Usecase.Keeps.Files.{
  update-Keeps, promote-Keeps, put_work-Keeps, mark_processed-Keeps, put_manifest-Keeps,
  manifest_exists-Keeps,
}
use file_pubsub.Usecase.Keeps.Stages.{ensure_lease-Keeps}

unless_free-Keeps :
    (id : String) (q : Result Bool × World) (again : World → String × World)
    → ((v : World) → (again v).1.lease ≡ v.lease)
    → (unless_free id q again).1.lease ≡ q.1.lease
unless_free-Keeps id (ok false, v) again h = refl
unless_free-Keeps id (ok true, v) again h = h v
unless_free-Keeps id (err e, v) again h = h v

module _ (env : Env) where
  unique_from-Keeps :
      (rounds seq : ℕ) (base id : String) (w : World)
      → (unique_from env rounds seq base id w).1.lease ≡ w.lease
  unfolding unique_from
  unique_from-Keeps zero seq base id w = refl
  unique_from-Keeps (suc rounds) seq base id w =
      let later = append base (append "_" (decimal seq)) in
      unless_free-Keeps id (manifest_exists env id w)
        (λ v. unique_from env rounds (suc seq) base later v)
        (unique_from-Keeps rounds (suc seq) base later)
      ∙ manifest_exists-Keeps env id w

module _ (env : Env) (alone : IsAlone env) (p : Pipeline) where
  pub finalize_archive-Keeps : (m : Manifest) → Keeps (finalize_archive env p m)
  unfolding finalize_archive
  finalize_archive-Keeps m w =
      ground (arith, update-Keeps env alone m.message_id (archive_callback env.zone p) w)

  noted-Keeps :
      (m : Manifest) (kind : String) (q : Result (Unit {0}) × World)
      → (noted env p m kind q).lease ≡ q.1.lease
  noted-Keeps m kind (ok _, w) = refl
  noted-Keeps m kind (err e, w) = refl

  mark_originals-Leaves :
      (t : Topic) (m : Manifest) (os : List FileInfo) → Leaves (mark_originals env p t m os)
  unfolding mark_originals
  mark_originals-Leaves t m [] w = refl
  mark_originals-Leaves t m (o ∷ os) w =
      let q = mark_processed env t.name o.name o.mod_time o.size (now env w) w in
      mark_originals-Leaves t m os (noted env p m "collect_failed" q)
      ∙ noted-Keeps m "collect_failed" q
      ∙ mark_processed-Keeps env t.name o.name o.mod_time o.size (now env w) w

  module _ (conn : Connector) (apart : IsApart conn) where
    remove_originals-Leaves :
        (m : Manifest) (os : List FileInfo) → Leaves (remove_originals env p conn m os)
    unfolding remove_originals
    remove_originals-Leaves m [] w = refl
    remove_originals-Leaves m (o ∷ os) w =
        let q = conn.remove o.name w in
        remove_originals-Leaves m os (noted env p m "original_delete_failed" q)
        ∙ noted-Keeps m "original_delete_failed" q
        ∙ apart.remove o.name w

    handle_originals-Leaves :
        (t : Topic) (m : Manifest) (os : List FileInfo)
        → Leaves (handle_originals env p conn t m os)
    unfolding handle_originals
    handle_originals-Leaves t m os w =
        ground (arith, mark_originals-Leaves t m os w, remove_originals-Leaves m os w)

    collect_archived-Keeps :
        (t : Topic) (os : List FileInfo) (m : Manifest) (q : Result Manifest × World)
        → (collect_archived env p t conn os m q).1.lease ≡ q.1.lease
    unfolding collect_archived archive_failed
    collect_archived-Keeps t os m (err e, w) = refl
    collect_archived-Keeps t os m (ok u, w) = ground (
      arith,
      ensure_lease-Keeps env alone p w,
      handle_originals-Leaves t u os (ensure_lease env p w).1,
    )

    collect_promoted-Keeps :
        (t : Topic) (os : List FileInfo) (m : Manifest) (q : Result (Unit {0}) × World)
        → (collect_promoted env p t conn os m q).1.lease ≡ q.1.lease
    unfolding collect_promoted archive_failed
    collect_promoted-Keeps t os m (err e, w) = refl
    collect_promoted-Keeps t os m (ok _, w) =
        collect_archived-Keeps t os m (finalize_archive env p m w) ∙ finalize_archive-Keeps m w

    collect_message-Keeps :
        (t : Topic) (os : List FileInfo) (msg : Message) (content : Bytes)
        → Keeps (collect_message env p t conn os msg content)
    unfolding collect_message
    collect_message-Keeps t os msg content w =
        let m = new_manifest msg in
        let v = (put_work env t.name msg.message_id content w).1 in
        let u = emit (event msg.message_id msg.topic "" "collected") (put_manifest env m v).1 in
        ground (
          arith,
          put_work-Keeps env t.name msg.message_id content w,
          put_manifest-Keeps env m v,
          promote-Keeps env t.name msg.message_id u,
          collect_promoted-Keeps t os m (promote env t.name msg.message_id u),
        )

    open_fetched-Keeps : (content : Bytes) → Keeps (open_fetched env p content)
    open_fetched-Keeps content w = ground arith

    fetch_message-Keeps :
        (t : Topic) (os : List FileInfo) (name : String)
        → Keeps (fetch_message env p t conn os name)
    unfolding unique_message_id
    fetch_message-Keeps t os name w =
        let base = new_message_id env.format (now env w) t.name name in
        let (msg, v) = message_for env p t name w in
        Keeps-continue (continue (conn.fetch name v).0 (open_fetched env p) (conn.fetch name v).1)
          (collect_message env p t conn os msg) (collect_message-Keeps t os msg)
        ∙ Keeps-continue (conn.fetch name v) (open_fetched env p) open_fetched-Keeps
        ∙ apart.fetch name v
        ∙ unique_from-Keeps env (max_message_id_seq - 1) 2 base base w

    pub collect_file-Keeps :
        (t : Topic) (f : FileInfo) (os : List FileInfo) → Keeps (collect_file env p t conn f os)
    unfolding collect_file
    collect_file-Keeps t f os w = ground (
      arith,
      ensure_lease-Keeps env alone p w,
      fetch_message-Keeps t (f ∷ os) f.name (ensure_lease env p w).1,
    )
