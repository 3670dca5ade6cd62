-- ===== src/Store/Update.antt =====
-- internal/gateway/store/manifest.go: Update, the one way to change a manifest that is there, and
-- PutMerged.
pub mod Outcome
pub mod Frame
pub mod Progress
use file_pubsub.Base.{
  ℕ, zero, suc, ◌+◌, String, Bool, true, false, Option, none, some, ◌==◌, nat_eq, string_eq,
  if◌then◌else◌, Error, Result, ok, err, manifest_cas, skip_manifest_update, empty_message_id,
}
use file_pubsub.Store.Manifest.{Manifest, merge_subscriptions}
use file_pubsub.Store.World.{World, Env, Io, fails, now, next, pure, ◌>>=◌, ◌>>◌}
use file_pubsub.Store.ManifestStore.{
  Mutate, manifest_cas_retries, get_manifest, acquire_lock, release, write_staging, confirm_held,
  rename_over,
}

-- `base.Revision = observed + 1`.
abbrev pub bump : Manifest → Manifest → Manifest
bump base m = record m { revision = base.revision + 1 }

module _ (env : Env) where
  -- From the staging file to the rename; `none` asks for another round.
  unfoldable pub commit : String → String → ℕ → Manifest → Io (Option Manifest)
  commit id token observed m = do
    write_staging env
    confirm_held env id token
    current ← get_manifest env id
    if current.revision == observed then rename_over env id m else pure none

  unfoldable pub proceed : String → String → Manifest → Result Manifest → Io (Option Manifest)
  unfolding commit
  proceed id token base (ok m) = commit id token base.revision (bump base m)
  proceed id token base (err skip_manifest_update) = pure (some base)
  proceed id token base (err e) = λ w. (err e, w)

  -- One round of the loop in Update.
  unfoldable pub attempt : String → String → Mutate → Io (Option Manifest)
  unfolding proceed
  attempt id token mutate = do
    base ← get_manifest env id
    λ w. proceed id token base (mutate (now env w) base) w

  abbrev pub again :
      Result (Option Manifest) × World → (World → Result Manifest × World) → Result Manifest × World
  again (ok (some m), w) retry = (ok m, w)
  again (ok none, w) retry = retry w
  again (err e, w) retry = (err e, w)

  unfoldable pub cas_loop : ℕ → String → String → Mutate → Io Manifest
  unfolding attempt
  cas_loop zero id token mutate w = (err manifest_cas, w)
  cas_loop (suc n) id token mutate w =
      again (attempt id token mutate w) (λ w'. cas_loop n id token mutate w')

  -- The deferred release runs whatever the loop returns.
  abbrev pub locked : String → Mutate → Result String × World → Result Manifest × World
  locked id mutate (err e, w) = (err e, w)
  locked id mutate (ok token, w) =
      let (r, w') = cas_loop manifest_cas_retries id token mutate w in (r, release env id token w')

  unfoldable pub update : String → Mutate → Io Manifest
  update id mutate w =
      if id == "" then (err empty_message_id, w) else locked id mutate (acquire_lock env id w)

  unfoldable pub put_merged : Manifest → Io Manifest
  unfolding update
  put_merged upd = update upd.message_id (λ t base. ok (merge_subscriptions base upd))
