-- ===== src/Store/Lease/Ownership.antt =====
-- internal/gateway/store/lock.go: Heartbeat, HoldsLease and ReleaseLeaseIfOwner.
use file_pubsub.Base.{
  ℕ, suc, ◌+◌, String, ◌≡◌, refl, Bool, true, false, not, ◌&&◌, Option, none, some, ◌==◌, nat_eq,
  string_eq, eq_iff, if◌then◌else◌, Result, ok, err, lease_lost, io_error, arith, ◌⊎◌, inl, inr,
  Option-cases,
}
use file_pubsub.Store.World.{World, Env, LockRecord, IsAlone, fails, next}
use file_pubsub.Store.Lease.{
  is_stale, read_lock, remove_lease, is_generation, check_generation, heartbeat, holds_lease,
  release_lease_if_owner,
}

-- Whether the lock file names this node and this generation.
abbrev pub names : String → String → ℕ → Option LockRecord → Bool
names host boot generation none = false
names host boot generation (some rec) = is_generation host boot generation rec

abbrev CheckSpec : String → String → ℕ → Option LockRecord → Result LockRecord → Type 0
CheckSpec host boot expected lease (ok rec) =
    (lease ≡ some rec) × (is_generation host boot expected rec ≡ true)
CheckSpec host boot expected lease (err e) = e ≡ lease_lost

-- Whether the lock file names this node and has not gone stale.
abbrev pub holds : String → String → ℕ → Option LockRecord → Bool
holds host boot t none = false
holds host boot t (some rec) =
    rec.hostname == host && (rec.boot_id == boot && not (is_stale rec rec.ttl t))

module _ (env : Env) (host boot : String) where
  check_generation_lem :
      (expected : ℕ) (w : World)
      → let (r, w') = check_generation env host boot expected w in
        CheckSpec host boot expected w.lease r × (w'.lease ≡ w.lease)
  unfolding check_generation read_lock
  check_generation_lem expected w = elim (Option-cases w.lease) [
    | inl e ↦ rw e (ground arith)
    | inr (rec, e) ↦ rw e (ground arith)
  ]

  -- With no failing operation, HoldsLease says whether the lock file names this node and is fresh;
  -- with a failing one it never says yes.
  pub holds_lease_lem :
      (t : ℕ) (w : World)
      → (holds_lease env host boot t w).0
        ≡ (if fails env w then err io_error else ok (holds host boot t w.lease))
  unfolding holds_lease read_lock
  holds_lease_lem t w = ground arith

  holds_lease_yes :
      (t : ℕ) (w : World)
      → (holds_lease env host boot t w).0 ≡ ok true
      → (rec : LockRecord) × (w.lease ≡ some rec) × (rec.hostname ≡ host) × (rec.boot_id ≡ boot)
  holds_lease_yes t w h = pick w.lease refl
    where
      pick :
          (l : Option LockRecord)
          → w.lease ≡ l
          → (rec : LockRecord) × (w.lease ≡ some rec) × (rec.hostname ≡ host) × (rec.boot_id ≡ boot)
      pick none e = absurd (ground (arith, holds_lease_lem t w))
      pick (some rec) e = (
        rec,
        e,
        ground (arith, holds_lease_lem t w, eq_iff rec.hostname host),
        ground (arith, holds_lease_lem t w, eq_iff rec.boot_id boot),
      )

-- Of two nodes that both hold the lease at one moment, both are the same node.
pub holds_lease_unique :
    (env : Env) (host boot host' boot' : String) (t t' : ℕ) (w : World)
    → (holds_lease env host boot t w).0 ≡ ok true
    → (holds_lease env host' boot' t' w).0 ≡ ok true
    → (host ≡ host') × (boot ≡ boot')
holds_lease_unique env host boot host' boot' t t' w h k =
    let a = holds_lease_yes env host boot t w h in
    let b = holds_lease_yes env host' boot' t' w k in (ground arith, ground arith)

-- What a heartbeat may return and leave in the lock file.
abbrev pub renew : ℕ → ℕ → Option LockRecord → Option LockRecord
renew t generation none = none
renew t generation (some rec) = some (record rec { renewed_at = t; generation = generation })

abbrev pub HeartbeatSpec :
    String → String → ℕ → ℕ → Option LockRecord → Result ℕ → Option LockRecord → Type 0
HeartbeatSpec host boot expected t before (ok g) after =
    (names host boot expected before ≡ true)
    × (g ≡ expected + 1)
    × (after ≡ renew t (expected + 1) before)
HeartbeatSpec host boot expected t before (err e) after =
    (after ≡ before) × ((e ≡ lease_lost) ⊎ (e ≡ io_error))

-- A heartbeat renews the lease only of its own node and generation, and otherwise leaves it as it is.
pub heartbeat_lem :
    (env : Env)
    → IsAlone env
    → (host boot : String) (expected t : ℕ) (w : World)
    → let (r, w') = heartbeat env host boot expected t w in
      HeartbeatSpec host boot expected t w.lease r w'.lease
unfolding heartbeat
heartbeat_lem env alone host boot expected t w =
    let w₁ = (check_generation env host boot expected w).1 in
    ground (
      arith,
      check_generation_lem env host boot expected w,
      alone.quiet (suc w₁.ops) (next w₁),
      check_generation_lem env host boot expected (next w₁),
    )

-- A release takes away the lease of no other node and of no other generation.
pub release_lease_if_owner_lem :
    (env : Env) (host boot : String) (generation : ℕ) (rec : LockRecord) (w : World)
    → w.lease ≡ some rec
    → is_generation host boot generation rec ≡ false
    → (release_lease_if_owner env host boot generation w).1.lease ≡ some rec
unfolding release_lease_if_owner read_lock remove_lease
release_lease_if_owner_lem env host boot generation rec w h k = ground arith
