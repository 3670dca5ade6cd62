-- ===== src/Store/Lease/Forced.antt =====
-- internal/gateway/store/lock.go: AcquireLeaseForced.
use file_pubsub.Base.{
  ℕ, suc, String, ◌≡◌, Bool, false, Option, none, some, nat_eq, string_eq, Result, ok, err,
  already_locked, if◌then◌else◌, arith, ◌⊎◌,
}
use file_pubsub.Store.World.{World, Env, LockRecord, IsAlone, IsHealthy, next}
use file_pubsub.Store.Lease.{lease_record, is_owner, acquire_lease_forced, take_over}
use file_pubsub.Store.Lease.Takeover.{next_generation, lease_or, take_over_lem}

module _ (env : Env) (alone : IsAlone env) (host boot : String) (ttl t : ℕ) (w : World) where
  -- Whether the lock file names this node.
  abbrev pub is_own : Option LockRecord → Bool
  is_own none = false
  is_own (some rec) = is_owner host boot rec

  abbrev pub ForcedSpec : Result ℕ → Option LockRecord → Type 0
  ForcedSpec (ok g) after =
      (is_own w.lease ≡ false)
      × (g ≡ next_generation w.lease)
      × (after ≡ some (lease_record host boot ttl g t))
  ForcedSpec (err e) after =
      (after ≡ w.lease)
      ⊎ ((is_own w.lease ≡ false)
          × ((after ≡ none)
              ⊎ (after ≡ some (lease_record host boot ttl (next_generation w.lease) t))))

  -- Whatever access fails, a forced start gets the lease only when the lock file does not name the
  -- node itself, valid or not, and then the lock file names the node with the generation after the
  -- old one; a start that gets an error has left the lock file as it was, or, if it is not the
  -- node's, has removed it or replaced it by the node's own, when the creation left its file.
  pub acquire_lease_forced_lem :
      let (r, w') = acquire_lease_forced env host boot ttl t w in ForcedSpec r w'.lease
  unfolding acquire_lease_forced
  acquire_lease_forced_lem = ground (
    arith,
    alone.quiet (suc w.ops) (next w),
    alone.quiet (suc (suc w.ops)) (next (next w)),
    take_over_lem env alone host boot ttl t w (lease_or env alone host boot ttl t w w.lease)
        (next (next w)),
  )

  -- While no other process runs and every access succeeds, only the node's own record refuses it.
  pub acquire_lease_forced_healthy :
      IsHealthy env
      → let (r, w') = acquire_lease_forced env host boot ttl t w in
        (r ≡ (if is_own w.lease then err already_locked else ok (next_generation w.lease)))
        × (w'.lease ≡ (
            if is_own w.lease
            then w.lease
            else some (lease_record host boot ttl (next_generation w.lease) t)))
  unfolding acquire_lease_forced take_over
  acquire_lease_forced_healthy h =
      let v = next (next w) in
      ground (
        arith,
        h.works w.ops,
        h.works (suc w.ops),
        h.works (suc (suc w.ops)),
        h.works (suc (suc (suc w.ops))),
        alone.quiet (suc w.ops) (next w),
        alone.quiet v.ops v,
        alone.quiet (suc v.ops) (next (record v { lease = none })),
      )
