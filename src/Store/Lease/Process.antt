-- ===== src/Store/Lease/Process.antt =====
-- internal/gateway/store/lock.go: Acquire, the process lock of one instance.
use file_pubsub.Base.{
  ℕ, suc, ◌≡◌, arith, Bool, false, Option, none, some, ok, err, already_locked, if◌then◌else◌,
}
use file_pubsub.Store.World.{World, Env, IsAlone, IsHealthy, LockRecord, next}
use file_pubsub.Store.Lease.{acquire, pid_record, process_alive}

-- Whether the process that wrote the lock file still runs.
abbrev pub is_running : Env → Option LockRecord → Bool
is_running env none = false
is_running env (some rec) = process_alive env rec.pid

module _ (env : Env) (alone : IsAlone env) (healthy : IsHealthy env) where
  -- When nothing fails and no other process runs, Acquire is refused, and leaves the lock file as it
  -- was, exactly when the lock file names a running process; otherwise the lock file then names this
  -- one.
  pub acquire_lem :
      (pid t : ℕ) (w : World)
      → let (r, w') = acquire env pid t w in
        (r ≡ (if is_running env w.lease then err already_locked else ok tt))
        × (w'.lease ≡ (if is_running env w.lease then w.lease else some (pid_record pid t)))
  unfolding acquire
  acquire_lem pid t w =
      let v = next (next w) in
      ground (
        arith,
        healthy.works w.ops,
        healthy.works (suc w.ops),
        healthy.works (suc (suc w.ops)),
        healthy.works (suc (suc (suc w.ops))),
        alone.quiet (suc w.ops) (next w),
        alone.quiet v.ops v,
      )
