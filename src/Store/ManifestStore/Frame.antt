-- ===== src/Store/ManifestStore/Frame.antt =====
-- internal/gateway/store/manifest.go: the files that the update lock and a listing can reach.
use file_pubsub.Base.{
  ℕ, zero, suc, String, string_eq, ◌≡◌, refl, ◌∙◌, arith, Result, ok, err, List, [], ◌∷◌, is_exist,
  Bool-cases, Option-cases, inl, inr,
}
use file_pubsub.Base.Dict
use file_pubsub.Store.Manifest.{Manifest}
use file_pubsub.Store.World.{World, Env, IsAlone, fails, next, continue, pure}
use file_pubsub.Store.ManifestStore.{
  write_lock_exclusive, retry_exist, try_lock, remove_lock, recover_stale, recover_exist,
  acquire_lock, lock_held_by, release, confirm_held, confirmed, fail_closed, manifest_lock_retries,
  read_all, get_manifest, list_manifests, dir_names,
}

-- A world without the lock files and the count of operations.
abbrev pub but_locks : World → World
but_locks w = record w { locks = []; ops = 0 }

module _ (env : Env) where
  but_locks-write_lock :
      (id token : String) (w : World)
      → but_locks (write_lock_exclusive env id token w).1 ≡ but_locks w
  unfolding write_lock_exclusive
  but_locks-write_lock id token w = ground arith

  but_locks-remove_lock : (id : String) (w : World) → but_locks (remove_lock env id w) ≡ but_locks w
  but_locks-remove_lock id w = ground arith

  but_locks-lock_held_by :
      (id token : String) (w : World) → but_locks (lock_held_by env id token w).1 ≡ but_locks w
  unfolding lock_held_by
  but_locks-lock_held_by id token w = ground arith

  pub but_locks-release :
      (id token : String) (w : World) → but_locks (release env id token w) ≡ but_locks w
  unfolding release
  but_locks-release id token w = ground arith

  but_locks-fail_closed :
      (p : Result (Unit {0}) × World) → but_locks (fail_closed env p).1 ≡ but_locks p.1
  but_locks-fail_closed (ok _, w) = refl
  but_locks-fail_closed (err e, w) = refl

  but_locks-recover_stale :
      (id token : String) (w : World) → but_locks (recover_stale env id token w).1 ≡ but_locks w
  unfolding recover_stale
  but_locks-recover_stale id token w = ground (
    arith,
    but_locks-fail_closed (write_lock_exclusive env id token (remove_lock env id (next w))),
    but_locks-write_lock id token (remove_lock env id (next w)),
    but_locks-remove_lock id (next w),
  )

  module _ (alone : IsAlone env) where
    but_locks-retry_exist :
        (p : Result (Unit {0}) × World) (again : World → Result (Unit {0}) × World)
        → ((v : World) → but_locks (again v).1 ≡ but_locks v)
        → but_locks (retry_exist env p again).1 ≡ but_locks p.1
    unfolding retry_exist
    but_locks-retry_exist (ok _, w) again h = refl
    but_locks-retry_exist (err is_exist, w) again h = rw (h _, alone.quiet w.ops (next w)) refl
    but_locks-retry_exist (err e, w) again h = refl

    but_locks-try_lock :
        (n : ℕ) (id token : String) (w : World)
        → but_locks (try_lock env n id token w).1 ≡ but_locks w
    unfolding try_lock
    but_locks-try_lock zero id token w = refl
    but_locks-try_lock (suc n) id token w =
        but_locks-retry_exist (write_lock_exclusive env id token w) (try_lock env n id token)
          (but_locks-try_lock n id token)
        ∙ but_locks-write_lock id token w

    but_locks-recover_exist :
        (id token : String) (p : Result (Unit {0}) × World)
        → but_locks (recover_exist env id token p).1 ≡ but_locks p.1
    unfolding recover_exist
    but_locks-recover_exist id token (ok _, w) = refl
    but_locks-recover_exist id token (err is_exist, w) = but_locks-recover_stale id token w
    but_locks-recover_exist id token (err e, w) = refl

    pub but_locks-acquire_lock :
        (id : String) (w : World) → but_locks (acquire_lock env id w).1 ≡ but_locks w
    unfolding acquire_lock
    but_locks-acquire_lock id w =
        let token = env.random_token (suc w.ops) in
        let tried = try_lock env manifest_lock_retries id token (next (next w)) in
        ground (
          arith,
          but_locks-recover_exist id token tried,
          but_locks-try_lock manifest_lock_retries id token (next (next w)),
        )

    pub but_locks-confirm_held :
        (id token : String) (w : World) → but_locks (confirm_held env id token w).1 ≡ but_locks w
    unfolding confirm_held confirmed
    but_locks-confirm_held id token w =
        rw (alone.quiet w.ops w) (ground (arith, but_locks-lock_held_by id token w))

-- A world without the count of operations.
abbrev pub but_ops : World → World
but_ops w = record w { ops = 0 }

but_ops-continue :
    (m : Manifest) (p : Result (List Manifest) × World)
    → but_ops (continue p.0 (λ ms. pure (m ∷ ms)) p.1).1 ≡ but_ops p.1
but_ops-continue m (ok ms, w) = refl
but_ops-continue m (err e, w) = refl

module _ (env : Env) where
  but_ops-read_all : (ids : List String) (w : World) → but_ops (read_all env ids w).1 ≡ but_ops w
  unfolding read_all get_manifest
  but_ops-read_all [] w = refl
  but_ops-read_all (id ∷ ids) w = elim (Bool-cases (fails env w)) [
    | inl bad ↦ rw bad refl
    | inr fine ↦ elim (Option-cases (Dict.get w.manifests id)) [
      | inl missing ↦ rw (fine, missing) refl
      | inr (m, here) ↦
          rw (fine, here)
            (but_ops-continue m (read_all env ids (next w)) ∙ but_ops-read_all ids (next w))
    ]
  ]

  -- A listing changes nothing.
  pub but_ops-list_manifests : (w : World) → but_ops (list_manifests env w).1 ≡ but_ops w
  unfolding list_manifests
  but_ops-list_manifests w = elim (Bool-cases (fails env w)) [
    | inl bad ↦ rw bad refl
    | inr fine ↦ rw fine (but_ops-read_all (dir_names w.manifests) (next w))
  ]
