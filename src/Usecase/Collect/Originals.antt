-- ===== src/Usecase/Collect/Originals.antt =====
-- internal/usecase/collect.go: the source directory and the archive during collectFile.
use file_pubsub.Base.{
  ℕ, String, ◌≡◌, refl, ◌∙◌, sym, ap, ◌⊎◌, some, List, [], ◌∷◌, ◌==◌, string_eq, pair_eq, arith,
  Result, ok, err, Bool-cases, Option-cases, inl, inr,
}
use file_pubsub.Base.Dict
use file_pubsub.Base.Dict.{get-put_self}
use file_pubsub.Config.{Topic}
use file_pubsub.Domain.Limits.{Message}
use file_pubsub.Store.Manifest.{Manifest, new_manifest}
use file_pubsub.Store.World.{World, Env, Bytes, IsAlone, emit, now, next, fails, continue}
use file_pubsub.Store.Lease.{holds_lease, read_lock}
use file_pubsub.Store.ManifestStore.{put_manifest}
use file_pubsub.Store.Files.{put_work, promote, mark_processed}
use file_pubsub.Store.Files.Laws.{PromoteSpec, promote_lem}
use file_pubsub.Store.Update.{update}
use file_pubsub.Store.Update.Frame.{but_manifests, but_manifests-update}
use file_pubsub.Source.{Connector, FileInfo}
use file_pubsub.Usecase.Pipeline.{Pipeline, ensure_lease, event}
use file_pubsub.Usecase.Collect.{
  collect_message, collect_promoted, collect_archived, finalize_archive, archive_callback,
  handle_originals, mark_originals, noted, archive_failed, count_processed, remove_originals,
}

-- The source and the processed list of a world.
abbrev pub Intact : World → World → Type 0
Intact w w' = (w'.originals ≡ w.originals) × (w'.processed ≡ w.processed)

-- The connector removes source files and nothing of the archive.
abbrev pub KeepsArchive : Connector → Type 0
KeepsArchive conn = (name : String) (w : World) → (conn.remove name w).1.archive ≡ w.archive

module _ (env : Env) where
  mark_processed-archive :
      (topic name : String) (t s at : ℕ) (w : World)
      → (mark_processed env topic name t s at w).1.archive ≡ w.archive
  unfolding mark_processed
  mark_processed-archive topic name t s at w = ground arith

  promote-Intact : (topic id : String) (w : World) → Intact w (promote env topic id w).1
  unfolding promote
  promote-Intact topic id w = elim (Option-cases (Dict.get w.work (topic, id))) [
    | inl missing ↦ ground (arith, missing)
    | inr (content, here) ↦ ground (arith, here)
  ]

  module _ (p : Pipeline) (conn : Connector) (kept : KeepsArchive conn) where
    noted-archive :
        (m : Manifest) (event_type : String) (q : Result (Unit {0}) × World)
        → (noted env p m event_type q).archive ≡ q.1.archive
    noted-archive m event_type (ok _, w) = refl
    noted-archive m event_type (err e, w) = refl

    mark_originals-archive :
        (t : Topic) (m : Manifest) (os : List FileInfo) (w : World)
        → (mark_originals env p t m os w).archive ≡ w.archive
    unfolding mark_originals
    mark_originals-archive t m [] w = refl
    mark_originals-archive t m (o ∷ os) w =
        let q = mark_processed env t.name o.name o.mod_time o.size (now env w) w in
        mark_originals-archive t m os (noted env p m "collect_failed" q)
        ∙ (noted-archive m "collect_failed" q
            ∙ mark_processed-archive t.name o.name o.mod_time o.size (now env w) w)

    remove_originals-archive :
        (m : Manifest) (os : List FileInfo) (w : World)
        → (remove_originals env p conn m os w).archive ≡ w.archive
    unfolding remove_originals
    remove_originals-archive m [] w = refl
    remove_originals-archive m (o ∷ os) w =
        let q = conn.remove o.name w in
        remove_originals-archive m os (noted env p m "original_delete_failed" q)
        ∙ (noted-archive m "original_delete_failed" q ∙ kept o.name w)

    handle_originals-archive :
        (t : Topic) (m : Manifest) (os : List FileInfo) (w : World)
        → (handle_originals env p conn t m os w).archive ≡ w.archive
    unfolding handle_originals
    handle_originals-archive t m os w =
        ground (arith, mark_originals-archive t m os w, remove_originals-archive m os w)

    ensure_lease-archive :
        (w : World)
        → ((ensure_lease env p w).1.archive ≡ w.archive) × Intact w (ensure_lease env p w).1
    unfolding ensure_lease holds_lease read_lock
    ensure_lease-archive w = elim (Option-cases p.lease) [
      | inl single ↦ ground (arith, single)
      | inr (id, node) ↦ ground (arith, node)
    ]

    finalize_archive-Intact :
        IsAlone env
        → (m : Manifest) (w : World)
        → let w' = (finalize_archive env p m w).1 in (w'.archive ≡ w.archive) × Intact w w'
    unfolding finalize_archive
    finalize_archive-Intact alone m w =
        after (update env m.message_id (archive_callback env.zone p) w)
          (but_manifests-update env alone m.message_id (archive_callback env.zone p) w)
      where
        after :
            (q : Result Manifest × World)
            → but_manifests q.1 ≡ but_manifests w
            → let w' =
                (continue q.0
                  (λ updated v.
                    (ok updated, emit (event updated.message_id updated.topic "" "archived") v))
                  q.1).1 in
              (w'.archive ≡ w.archive) × Intact w w'
        after (ok _, v) e = (
          ap (λ (u : World). u.archive) e,
          (ap (λ (u : World). u.originals) e, ap (λ (u : World). u.processed) e),
        )
        after (err _, v) e = (
          ap (λ (u : World). u.archive) e,
          (ap (λ (u : World). u.originals) e, ap (λ (u : World). u.processed) e),
        )

    -- The source is as it was, or the archive holds the payload.
    abbrev pub IsSafe : Topic → Message → Bytes → World → World → Type 0
    IsSafe t msg content w w' =
        Intact w w' ⊎ (Dict.get w'.archive (t.name, msg.message_id) ≡ some content)

    module _ (alone : IsAlone env) (t : Topic) (os : List FileInfo) (msg : Message)
        (content : Bytes) where
      IsSafe-archived :
          (w : World) (m : Manifest) (q : Result Manifest × World)
          → Intact w q.1
          → Dict.get q.1.archive (t.name, msg.message_id) ≡ some content
          → IsSafe t msg content w (collect_archived env p t conn os m q).1
      unfolding collect_archived archive_failed
      IsSafe-archived w m (err e, v) same here = inl same
      IsSafe-archived w m (ok updated, v) same here =
          inr (leased (ensure_lease env p v) (ensure_lease-archive v).0)
        where
          counted : (m : Manifest) (u : World) → (count_processed p t.name u).archive ≡ u.archive
          counted m u = ground arith

          leased :
              (q : Result (Unit {0}) × World)
              → q.1.archive ≡ v.archive
              → Dict.get
                  (continue {0, 0} q.0
                    (λ _ u. (
                      ok tt,
                      count_processed p t.name (handle_originals env p conn t updated os u),
                    ))
                    q.1).1.archive
                  (t.name, msg.message_id)
                ≡ some content
          leased (err e, u) kept_here =
              ap (λ a. Dict.get a (t.name, msg.message_id)) kept_here ∙ here
          leased (ok _, u) kept_here =
              ap (λ a. Dict.get a (t.name, msg.message_id))
                (counted updated (handle_originals env p conn t updated os u)
                  ∙ (handle_originals-archive t updated os u ∙ kept_here))
              ∙ here

      IsSafe-promoted :
          (w : World) (m : Manifest) (q : Result (Unit {0}) × World)
          → Intact w q.1
          → (q.0 ≡ ok tt → Dict.get q.1.archive (t.name, msg.message_id) ≡ some content)
          → IsSafe t msg content w (collect_promoted env p t conn os m q).1
      unfolding collect_promoted archive_failed
      IsSafe-promoted w m (err e, v) same here = inl same
      IsSafe-promoted w m (ok _, v) same here =
          let (keeps, (orig, proc)) = finalize_archive-Intact alone m v in
          IsSafe-archived w m (finalize_archive env p m v) (orig ∙ same.0, proc ∙ same.1)
            (ap (λ a. Dict.get a (t.name, msg.message_id)) keeps ∙ here refl)

      promoted_content :
          (v : World)
          → Dict.get v.work (t.name, msg.message_id) ≡ some content
          → let (r, v') = promote env t.name msg.message_id v in
            r ≡ ok tt → Dict.get v'.archive (t.name, msg.message_id) ≡ some content
      promoted_content v work =
          pick (promote env t.name msg.message_id v) (promote_lem env t.name msg.message_id v)
        where
          pick :
              (q : Result (Unit {0}) × World)
              → PromoteSpec env (t.name, msg.message_id) v q.0 q.1
              → q.0 ≡ ok tt
              → Dict.get q.1.archive (t.name, msg.message_id) ≡ some content
          pick (ok _, u) (c, was, is, gone) h = is ∙ (sym was ∙ work)
          pick (err e, u) spec h = absurd (cc)

      -- The world after the work file, and after the manifest and the log entry.
      abbrev worked : World → World
      worked w = next (record w { work = Dict.put w.work (t.name, msg.message_id) content })

      abbrev recorded : World → World
      recorded w = emit (event msg.message_id msg.topic "" "collected") (
          next (record (worked w) {
            manifests = Dict.put w.manifests msg.message_id (new_manifest msg);
          }))

      -- Whatever fails while no other process runs, and with a connector whose Remove leaves the
      -- archive alone, after a fetched file has become a message either the source directory and the
      -- list of processed files are as they were, or the archive holds the whole content under the
      -- message's topic and id.
      pub collect_message-IsSafe :
          (w : World) → IsSafe t msg content w (collect_message env p t conn os msg content w).1
      unfolding collect_message put_work put_manifest new_manifest Dict.get
      collect_message-IsSafe w = elim (Bool-cases (fails env w)) [
        | inl bad ↦ rw bad (inl (refl, refl))
        | inr fine ↦ elim (Bool-cases (msg.message_id == "")) [
          | inl unnamed ↦ rw (fine, unnamed) (inl (refl, refl))
          | inr named ↦ elim (Bool-cases (fails env (worked w))) [
            | inl bad ↦ rw (fine, named, bad) (inl (refl, refl))
            | inr good ↦
                let v = recorded w in
                let here = get-put_self w.work (t.name, msg.message_id) content in
                rw (fine, named, good)
                  (IsSafe-promoted w (new_manifest msg) (promote env t.name msg.message_id v)
                    (promote-Intact t.name msg.message_id v) (promoted_content v here))
          ]
        ]
      ]
