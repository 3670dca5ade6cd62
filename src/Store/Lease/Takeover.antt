-- ===== src/Store/Lease/Takeover.antt =====
-- internal/gateway/store/lock.go: AcquireLease, alone and against another standby.
use file_pubsub.Base.{
  ℕ, suc, ◌+◌, String, ◌≡◌, Bool, true, Option, none, some, ◌==◌, nat_eq, string_eq, if◌then◌else◌,
  Error, Result, ok, err, lease_held, already_locked, arith, ◌⊎◌,
}
use file_pubsub.Store.World.{World, Env, LockRecord, IsAlone, IsHealthy, next}
use file_pubsub.Store.Lease.{is_stale, create_lease, take_over, lease_record, acquire_lease}

-- Whether the lock file leaves the lease to whoever comes.
abbrev pub is_free : Option LockRecord → ℕ → ℕ → Bool
is_free none ttl t = true
is_free (some rec) ttl t = is_stale rec ttl t

abbrev pub next_generation : Option LockRecord → ℕ
next_generation none = 1
next_generation (some rec) = rec.generation + 1

-- The refusal of a valid lease: a second start on one node, or another node's lease.
abbrev pub refusal : String → Option LockRecord → Error
refusal host none = lease_held
refusal host (some rec) = if rec.hostname == host then already_locked else lease_held

module _ (env : Env) (alone : IsAlone env) (host boot : String) (ttl t : ℕ) (w : World) where
  -- While no other process runs and every access succeeds, a node gets the lease exactly when there
  -- is none or a stale one, with the generation after the old one; a valid lease stays as it is and
  -- is refused as a second start to its own node and as held to another.
  pub acquire_lease_lem :
      IsHealthy env
      → let (r, w') = acquire_lease env host boot ttl t w in
        (r ≡ (
          if is_free w.lease ttl t
          then ok (next_generation w.lease)
          else err (refusal host w.lease)))
        × (w'.lease ≡ (
            if is_free w.lease ttl t
            then some (lease_record host boot ttl (next_generation w.lease) t)
            else w.lease))
  unfolding acquire_lease take_over
  acquire_lease_lem h =
      let v = next (next w) in
      ground (
        arith,
        h.works w.ops,
        h.works (suc w.ops),
        h.works (suc (suc w.ops)),
        h.works (suc (suc (suc w.ops))),
        alone.quiet (suc w.ops) (next w),
        alone.quiet v.ops v,
        alone.quiet (suc v.ops) (next (record v { lease = none })),
      )

  abbrev pub TakeSpec : LockRecord → World → Result ℕ → Option LockRecord → Type 0
  TakeSpec rec v (ok g) after =
      (g ≡ rec.generation + 1) × (after ≡ some (lease_record host boot ttl g t))
  TakeSpec rec v (err e) after =
      (after ≡ v.lease)
      ⊎ ((after ≡ none) ⊎ (after ≡ some (lease_record host boot ttl (rec.generation + 1) t)))

  pub take_over_lem :
      (rec : LockRecord) (v : World)
      → let (r, v') = take_over env host boot ttl rec t v in TakeSpec rec v r v'.lease
  unfolding take_over create_lease
  take_over_lem rec v =
      let gone = next (record v { lease = none }) in ground (arith, alone.quiet gone.ops gone)

  abbrev pub lease_or : Option LockRecord → LockRecord
  lease_or none = lease_record "" "" 0 0 0
  lease_or (some rec) = rec

  abbrev pub AcquireSpec : Result ℕ → Option LockRecord → Type 0
  AcquireSpec (ok g) after =
      (is_free w.lease ttl t ≡ true)
      × (g ≡ next_generation w.lease)
      × (after ≡ some (lease_record host boot ttl g t))
  AcquireSpec (err e) after =
      (after ≡ w.lease)
      ⊎ ((is_free w.lease ttl t ≡ true)
          × ((after ≡ none)
              ⊎ (after ≡ some (lease_record host boot ttl (next_generation w.lease) t))))

  -- Whatever access fails while no other process runs, a node that is told it has the lease has it:
  -- the lock file was free and now names the node with that generation. A node that gets an error has left a lock file that is
  -- not free as it was; a free one it may have removed, or, when the creation failed and left its
  -- file, replaced by its own lease.
  pub acquire_lease_safe :
      let (r, w') = acquire_lease env host boot ttl t w in AcquireSpec r w'.lease
  unfolding acquire_lease
  acquire_lease_safe = ground (
    arith,
    alone.quiet (suc w.ops) (next w),
    alone.quiet (suc (suc w.ops)) (next (next w)),
    take_over_lem (lease_or w.lease) (next (next w)),
  )

-- A takeover of a stale record when the lock file has become another lease in between.
takeover_between :
    (env : Env)
    → IsHealthy env
    → (host boot : String) (ttl t : ℕ) (rec : LockRecord) (w : World) → w.lease ≡ some rec
    → is_stale rec ttl t ≡ true
    → env.others (suc w.ops) (next w) ≡ next w
    → (v : World) → env.others (suc (suc w.ops)) (next (next w)) ≡ v
    → env.others (suc v.ops) (next (record v { lease = none })) ≡ next (record v { lease = none })
    → let (r, w') = acquire_lease env host boot ttl t w in
      (r ≡ ok (rec.generation + 1))
      × (w'.lease ≡ some (lease_record host boot ttl (rec.generation + 1) t))
unfolding acquire_lease take_over
takeover_between env h host boot ttl t rec w has stale before v between after =
    ground (arith, h.works w.ops, h.works (suc w.ops), h.works v.ops, h.works (suc v.ops))

-- The whole attempt of another node after two accesses of this one.
abbrev pub rival : Env → String → String → ℕ → ℕ → World → Result ℕ × World
rival env host boot ttl t w = acquire_lease env host boot ttl t (next (next w))

abbrev pub removed : World → World
removed w = next (record w { lease = none })

-- While this node is between its reading and its removal of a stale lock file, another node makes a
-- whole attempt of its own to get the lease. When nothing fails and nobody else writes, both are told that they have it, with the same
-- generation; the other's lease was in the lock file, and this node has put its own in its place.
pub double_takeover :
    (env env' : Env)
    → IsHealthy env
    → IsHealthy env'
    → IsAlone env'
    → (host boot host' boot' : String) (ttl t t' : ℕ) (rec : LockRecord) (w : World)
    → w.lease ≡ some rec
    → is_stale rec ttl t ≡ true
    → is_stale rec ttl t' ≡ true
    → env.others (suc w.ops) (next w) ≡ next w
    → env.others (suc (suc w.ops)) (next (next w)) ≡ (rival env' host' boot' ttl t' w).1
    → env.others
        (suc (rival env' host' boot' ttl t' w).1.ops)
        (removed (rival env' host' boot' ttl t' w).1)
      ≡ removed (rival env' host' boot' ttl t' w).1
    → let (r', v) = rival env' host' boot' ttl t' w in
      let (r, w') = acquire_lease env host boot ttl t w in
      ((r' ≡ ok (rec.generation + 1))
        × (v.lease ≡ some (lease_record host' boot' ttl (rec.generation + 1) t')))
      × ((r ≡ ok (rec.generation + 1))
          × (w'.lease ≡ some (lease_record host boot ttl (rec.generation + 1) t)))
double_takeover env env' h h' alone' host boot host' boot' ttl t t' rec w has stale stale' before
      between after =
    (
      theirs,
      takeover_between env h host boot ttl t rec w has stale before
          (rival env' host' boot' ttl t' w).1 between after,
    )
  where
    theirs :
        let (r', v) = rival env' host' boot' ttl t' w in
        (r' ≡ ok (rec.generation + 1))
        × (v.lease ≡ some (lease_record host' boot' ttl (rec.generation + 1) t'))
    theirs =
        ground
          (arith, acquire_lease_lem env' alone' host' boot' ttl t' (next (next w)) h', has, stale')
