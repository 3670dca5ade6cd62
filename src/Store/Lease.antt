-- ===== src/Store/Lease.antt =====
-- internal/gateway/store/lock.go: data_dir/lock, as a process lock of one instance and as a lease of
-- several. `others` runs where the code says that another node may come between two accesses.
pub mod Takeover
pub mod Ownership
pub mod Forced
pub mod Process
use file_pubsub.Base.{
  ℕ, zero, suc, ◌+◌, ◌-◌, ◌*◌, ◌%◌, String, Bool, true, false, not, ◌&&◌, ◌||◌, Option, none, some,
  ◌==◌, leb, ltb, nat_eq, string_eq, if◌then◌else◌, Error, Result, ok, err, io_error, not_exist,
  is_exist, already_locked, lease_held, lease_lost,
}
use file_pubsub.Domain.Limits.{second}
use file_pubsub.Store.World.{World, Env, LockRecord, Io, fails, left, now, next, pure, ◌>>=◌, ◌>>◌}

-- `now - renewed_at > ttl`, or a lock of the old form, whose renewed_at is Go's zero time.
unfoldable pub is_stale : LockRecord → ℕ → ℕ → Bool
is_stale rec ttl t = if rec.renewed_at == 0 then true else ltb (rec.renewed_at + ttl * second) t

abbrev pub pid_record : ℕ → ℕ → LockRecord
pid_record pid t = record {
  pid = pid;
  acquired_at = t - t % second;  -- RFC3339 has whole seconds
  hostname = "";
  boot_id = "";
  renewed_at = 0;
  ttl = 0;
  generation = 0;
}

module _ (hostname boot_id : String) where
  abbrev pub lease_record : ℕ → ℕ → ℕ → LockRecord
  lease_record ttl generation t = record {
    pid = 0;
    acquired_at = t;
    hostname = hostname;
    boot_id = boot_id;
    renewed_at = t;
    ttl = ttl;
    generation = generation;
  }

  abbrev is_owner : LockRecord → Bool
  is_owner rec = rec.hostname == hostname && rec.boot_id == boot_id

  -- Owner and generation, as Heartbeat and ReleaseLeaseIfOwner compare them.
  abbrev pub is_generation : ℕ → LockRecord → Bool
  is_generation generation rec =
      rec.hostname == hostname && (rec.boot_id == boot_id && rec.generation == generation)

module _ (env : Env) where
  abbrev yield : World → World
  yield w = env.others w.ops w

  -- readJSON of the lock file.
  unfoldable pub read_lock : Io LockRecord
  read_lock w =
      if fails env w
      then (err io_error, next w)
      else (elim w.lease [ none ↦ err not_exist | some rec ↦ ok rec ], next w)

  -- O_CREATE|O_EXCL: create and writeExclusive. After a failed write the file is removed again, if
  -- it can be; after a failed Close it stays.
  abbrev made : LockRecord → World → World
  made rec w = record w { lease = some rec }

  unfoldable pub write_exclusive : LockRecord → Io (Unit {0})
  write_exclusive rec w = elim w.lease [
    | none ↦
        if fails env w
        then (err io_error, next (left env (made rec w) w))
        else (ok tt, next (made rec w))
    | some _ ↦ if fails env w then (err io_error, next w) else (err is_exist, next w)
  ]

  -- os.Remove of the lock file, where a missing file is no error.
  unfoldable pub remove_lease : Io (Unit {0})
  remove_lease w =
      if fails env w then (err io_error, next w) else (ok tt, next (record w { lease = none }))

  -- A lease has no pid.
  abbrev pub process_alive : ℕ → Bool
  process_alive pid = not (pid == 0) && env.alive pid

  -- One round of Acquire; `again` is the next one.
  abbrev recover :
      (World → Result (Unit {0}) × World) → Result LockRecord × World → Result (Unit {0}) × World
  recover again (err not_exist, w) = again w
  recover again (err e, w) = (err e, w)
  recover again (ok rec, w) =
      if process_alive rec.pid then (err already_locked, w) else (do remove_lease; again) w

  abbrev created :
      (World → Result (Unit {0}) × World) → Result (Unit {0}) × World → Result (Unit {0}) × World
  created again (err is_exist, w) = recover again (read_lock (yield w))
  created again (r, w) = (r, w)

  acquire_round : ℕ → ℕ → ℕ → Io (Unit {0})
  unfolding read_lock write_exclusive remove_lease
  acquire_round zero pid t w = (err already_locked, w)
  acquire_round (suc n) pid t w =
      created (λ v. acquire_round n pid t v) (write_exclusive (pid_record pid t) w)

  unfoldable pub acquire : ℕ → ℕ → Io (Unit {0})
  unfolding acquire_round
  acquire pid t = acquire_round 2 pid t

  unfoldable pub lock_release : Io (Unit {0})
  unfolding remove_lease
  lock_release = remove_lease

  module _ (hostname boot_id : String) where
    unfoldable pub create_lease : ℕ → ℕ → ℕ → Io ℕ
    unfolding write_exclusive
    create_lease ttl generation t = do
      write_exclusive (lease_record hostname boot_id ttl generation t)
      pure generation

    -- A lost creation after the removal is a lost race.
    abbrev takeover_lost : Result ℕ × World → Result ℕ × World
    takeover_lost (err is_exist, w) = (err lease_held, w)
    takeover_lost (r, w) = (r, w)

    -- Removal of the old record and creation of the new one.
    unfoldable pub take_over : ℕ → LockRecord → ℕ → Io ℕ
    unfolding remove_lease create_lease
    take_over ttl rec t = do remove_lease; λ w. create_lease ttl (rec.generation + 1) t (yield w)

    abbrev decide : ℕ → ℕ → Result LockRecord × World → Result ℕ × World
    decide ttl t (err not_exist, w) = (err lease_held, w)
    decide ttl t (err e, w) = (err e, w)
    decide ttl t (ok rec, w) =
        if not (is_stale rec ttl t)
        then (if rec.hostname == hostname then (err already_locked, w) else (err lease_held, w))
        else takeover_lost (take_over ttl rec t (yield w))

    abbrev contended : ℕ → ℕ → Result ℕ × World → Result ℕ × World
    contended ttl t (err is_exist, w) = decide ttl t (read_lock (yield w))
    contended ttl t (r, w) = (r, w)

    unfoldable pub acquire_lease : ℕ → ℕ → Io ℕ
    unfolding create_lease read_lock
    acquire_lease ttl t w = contended ttl t (create_lease ttl 1 t w)

    abbrev force : ℕ → ℕ → Result LockRecord × World → Result ℕ × World
    force ttl t (err not_exist, w) = create_lease ttl 1 t w
    force ttl t (err e, w) = (err e, w)
    force ttl t (ok rec, w) =
        if is_owner hostname boot_id rec
        then (err already_locked, w)
        else take_over ttl rec t (yield w)

    abbrev forced : ℕ → ℕ → Result ℕ × World → Result ℕ × World
    forced ttl t (err is_exist, w) = force ttl t (read_lock (yield w))
    forced ttl t (r, w) = (r, w)

    unfoldable pub acquire_lease_forced : ℕ → ℕ → Io ℕ
    unfolding create_lease read_lock
    acquire_lease_forced ttl t w = forced ttl t (create_lease ttl 1 t w)

    -- Any failure to read is a lost lease.
    abbrev checked : ℕ → Result LockRecord × World → Result LockRecord × World
    checked expected (err e, v) = (err lease_lost, v)
    checked expected (ok rec, v) =
        if is_generation hostname boot_id expected rec then (ok rec, v) else (err lease_lost, v)

    unfoldable pub check_generation : ℕ → Io LockRecord
    unfolding read_lock
    check_generation expected w = checked expected (read_lock w)

    unfoldable pub heartbeat : ℕ → ℕ → Io ℕ
    unfolding check_generation
    heartbeat expected t = do
      rec ← check_generation expected
      λ w. if fails env w then (err io_error, next w) else (ok tt, yield (next w))  -- staging
      _ ← check_generation expected
      λ w. if fails env w then (err io_error, next w) else (
        ok (expected + 1),
        next (record w { lease = some (record rec { renewed_at = t; generation = expected + 1 }) }),
      )

    abbrev holding : ℕ → Result LockRecord → Result Bool
    holding t (err not_exist) = ok false
    holding t (err e) = err e
    holding t (ok rec) =
        if not (is_owner hostname boot_id rec) then ok false else ok (not (is_stale rec rec.ttl t))

    unfoldable pub holds_lease : ℕ → Io Bool
    unfolding read_lock is_stale
    holds_lease t w = let (r, w') = read_lock w in (holding t r, w')

    abbrev release_generation : ℕ → Result LockRecord × World → Result (Unit {0}) × World
    release_generation generation (err not_exist, w) = (ok tt, w)
    release_generation generation (err e, w) = (err e, w)
    release_generation generation (ok rec, w) =
        if is_generation hostname boot_id generation rec then remove_lease w else (ok tt, w)

    unfoldable pub release_lease_if_owner : ℕ → Io (Unit {0})
    unfolding read_lock remove_lease
    release_lease_if_owner generation w =
        if leb generation 0 then (ok tt, w) else release_generation generation (read_lock w)
