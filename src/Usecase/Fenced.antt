-- ===== src/Usecase/Fenced.antt =====
-- internal/usecase/pipeline.go, fanout.go and retry.go: the lease check at each message.
use file_pubsub.Base.{
  ◌≡◌, ◌≢◌, refl, ◌∙◌, ap, Bool, some, List, [], ◌∷◌, string_eq, eq_iff, arith, Result, ok, err,
  lease_lost,
}
use file_pubsub.Domain.State.{status_eq}
use file_pubsub.Store.Manifest.{Manifest}
use file_pubsub.Store.World.{World, Env, LockRecord}
use file_pubsub.Store.Lease.{holds_lease, read_lock}
use file_pubsub.Store.ManifestStore.{list_manifests}
use file_pubsub.Store.ManifestStore.Frame.{but_ops, but_ops-list_manifests}
use file_pubsub.Usecase.Pipeline.{Pipeline, Identity, ensure_lease}
use file_pubsub.Usecase.Fanout.{each_message, fanout_message, fanout, fanout_listed}
use file_pubsub.Usecase.Retry.{retry_message, retry, retry_listed}

-- A world without the log and the count of operations.
abbrev pub but_log : World → World
but_log w = record w { log = []; ops = 0 }

module _ (env : Env) (p : Pipeline) (id : Identity) (mine : p.lease ≡ some id) where
  -- The lock file names another host.
  abbrev pub IsFenced : World → Type 0
  IsFenced w = (rec : LockRecord) × (w.lease ≡ some rec) × (rec.hostname ≢ id.hostname)

  ensure_lease-IsFenced :
      (w : World)
      → IsFenced w
      → ((ensure_lease env p w).0 ≡ err lease_lost) × (but_log (ensure_lease env p w).1 ≡ but_log w)
  unfolding ensure_lease holds_lease read_lock
  ensure_lease-IsFenced w (rec, here, other) =
      rw (mine, here) (ground (arith, eq_iff rec.hostname id.hostname))

  abbrev Idle : (World → Bool × World) → Type 0
  Idle body = (w : World) → IsFenced w → but_log (body w).1 ≡ but_log w

  fanout_message-Idle : (m : Manifest) → Idle (fanout_message env p m)
  unfolding fanout_message
  fanout_message-Idle m w fenced = ground (arith, ensure_lease-IsFenced w fenced)

  retry_message-Idle : (m : Manifest) → Idle (retry_message env p m)
  unfolding retry_message
  retry_message-Idle m w fenced = ground (arith, ensure_lease-IsFenced w fenced)

  each_message-Idle :
      (body : Manifest → World → Bool × World)
      → ((m : Manifest) → Idle (body m))
      → (ms : List Manifest) (w : World) → IsFenced w
      → but_log (each_message env body ms w) ≡ but_log w
  unfolding each_message
  each_message-Idle body idle [] w fenced = refl
  each_message-Idle body idle (m ∷ ms) w (rec, here, other) =
      let (b, v) = body m w in
      let same : but_log v ≡ but_log w = idle m w (rec, here, other) in
      let still : v.lease ≡ some rec = ap (λ (u : World). u.lease) same ∙ here in
      let rest = each_message-Idle body idle ms v (rec, still, other) in ground (arith, rest, same)

  IsFenced-but_ops :
      (w v : World) → IsFenced w → but_ops v ≡ but_ops w → IsFenced v × (but_log v ≡ but_log w)
  IsFenced-but_ops w v (rec, here, other) same =
      ((rec, ap (λ (u : World). u.lease) same ∙ here, other), ap but_log same)

  fanout_listed-Idle :
      (w : World)
      → IsFenced w
      → (q : Result (List Manifest) × World) → but_ops q.1 ≡ but_ops w
      → but_log (fanout_listed env p q) ≡ but_log w
  fanout_listed-Idle w fenced (err e, v) same = (IsFenced-but_ops w v fenced same).1
  fanout_listed-Idle w fenced (ok ms, v) same =
      let (still, e) = IsFenced-but_ops w v fenced same in
      each_message-Idle (fanout_message env p) fanout_message-Idle ms v still ∙ e

  retry_listed-Idle :
      (w : World)
      → IsFenced w
      → (q : Result (List Manifest) × World) → but_ops q.1 ≡ but_ops w
      → but_log (retry_listed env p q) ≡ but_log w
  retry_listed-Idle w fenced (err e, v) same = (IsFenced-but_ops w v fenced same).1
  retry_listed-Idle w fenced (ok ms, v) same =
      let (still, e) = IsFenced-but_ops w v fenced same in
      each_message-Idle (retry_message env p) retry_message-Idle ms v still ∙ e

  -- A fanout or retry run of a node, started while the lock file names another host, changes nothing
  -- but the log: no manifest, no placed file, no archive or DLQ file, no lock.
  pub stages-IsFenced :
      (w : World)
      → IsFenced w
      → (but_log (fanout env p w) ≡ but_log w) × (but_log (retry env p w) ≡ but_log w)
  unfolding fanout retry
  stages-IsFenced w fenced = (
    fanout_listed-Idle w fenced (list_manifests env w) (but_ops-list_manifests env w),
    retry_listed-Idle w fenced (list_manifests env w) (but_ops-list_manifests env w),
  )
