-- ===== src/Runtime/Run/Released.antt =====
-- internal/runtime/daemon.go: the deferred function of runLease, and a second start on one node.
use file_pubsub.Base.{
  ℕ, suc, String, ◌≡◌, refl, subst, Option, arith, Bool, true, false, not, none, some, List, [],
  ◌∷◌, ◌==◌, string_eq, nat_eq, ok, err, already_locked, ◌⊎◌, inl, inr, leb, eq_iff, if◌then◌else◌,
  Option-cases, Bool-cases,
}
use file_pubsub.Config.{Source, HighAvailability}
use file_pubsub.Source.{Connector}
use file_pubsub.Store.World.{World, Env, IsAlone, IsHealthy, LockRecord, now}
use file_pubsub.Store.Lease.{release_lease_if_owner, is_stale, read_lock, remove_lease}
use file_pubsub.Store.Lease.Ownership.{names}
use file_pubsub.Store.Lease.Takeover.{acquire_lease_lem}
use file_pubsub.Usecase.Pipeline.{Pipeline, Identity}
use file_pubsub.Usecase.Keeps.{IsApart}
use file_pubsub.Runtime.Heartbeat.{Control}
use file_pubsub.Runtime.Run.{
  Round, Node, Exit, exited, running, release_held, is_ok, run_lease, run_method_a, run_method_b,
  control, first_round, ttl_warned,
}
use file_pubsub.Runtime.Run.Ends.{IsPlain, run_method_a-Plain, run_method_b-Plain}

-- An exit by the stop signal or with an error.
abbrev pub is_shutdown : Exit → Node → Bool
is_shutdown running n = false
is_shutdown (exited r) n = if n.canceled then true else not (is_ok r)

module _ (env : Env) (healthy : IsHealthy env) where
  release_own :
      (host boot : String) (g : ℕ) (w : World)
      → names host boot g w.lease ≡ true
      → leb g 0 ≡ false
      → ((release_lease_if_owner env host boot g w).0 ≡ ok tt)
        × ((release_lease_if_owner env host boot g w).1.lease ≡ none)
  unfolding release_lease_if_owner read_lock remove_lease
  release_own host boot g w h k = elim (Option-cases w.lease) [
    | inl e ↦ ground arith
    | inr (rec, e) ↦ rw e (ground (arith, healthy.works w.ops, healthy.works (suc w.ops)))
  ]

  module _ (p : Pipeline) (remote : Source → Connector) (c : Control) where
    release_held-Cleared :
        (before : Option LockRecord) (x : Exit) (n : Node)
        → ((n.held ≡ 0) × (n.world.lease ≡ before))
          ⊎ ((names c.node.hostname c.node.boot_id n.held n.world.lease ≡ true)
              × (leb n.held 0 ≡ false))
        → let (y, m) = release_held env p remote c (x, n) in
          is_shutdown y m ≡ true → (m.world.lease ≡ none) ⊎ (m.world.lease ≡ before)
    unfolding release_held
    release_held-Cleared before running n h k = absurd (ground arith)
    release_held-Cleared before (exited r) n (inl e) k = ground arith
    release_held-Cleared before (exited r) n (inr e) k =
        ground (arith, release_own c.node.hostname c.node.boot_id n.held n.world e.0 e.1)

-- The exit, and the node, of a run in lease mode.
module _ (env : Env) (alone : IsAlone env) (healthy : IsHealthy env) (p : Pipeline)
    (remote : Source → Connector) (apart : (s : Source) → IsApart (remote s)) (id : Identity)
    (ha : HighAvailability) where
  -- Before the deferred function.
  abbrev before_release : List Round → World → Exit × Node
  before_release rs v =
      if ha.uniqueness_method == "external_cluster"
      then first_round (λ r. run_method_a env p remote (control id ha) r false v) v rs
      else run_method_b env p remote (control id ha) rs
          (record { held = 0; canceled = false; world = v })

  first_round-Plain :
      (rs : List Round) (w : World)
      → IsPlain env alone healthy p remote apart
          (control id ha)
          w.lease
          (first_round (λ r. run_method_a env p remote (control id ha) r false w) w rs).1
  first_round-Plain [] w = inl (refl, refl)
  first_round-Plain (r ∷ rs) w =
      run_method_a-Plain env alone healthy p remote apart (control id ha) w.lease r false w refl

  before_release-Plain :
      (rs : List Round) (v : World)
      → IsPlain env alone healthy p remote apart (control id ha) v.lease (before_release rs v).1
  before_release-Plain rs v = elim (Bool-cases (ha.uniqueness_method == "external_cluster")) [
    | inl e ↦ rw e (first_round-Plain rs v)
    | inr e ↦ rw e (
        run_method_b-Plain env alone healthy p remote apart (control id ha) v.lease rs
          (record { held = 0; canceled = false; world = v }) refl refl)
  ]

  -- When nothing fails, no other process runs and the connectors leave the lock file alone, a run in
  -- lease mode that ends by the stop signal or with an error, a failed start of the HTTP server among
  -- them, leaves no lease of its own behind: the lock file is gone, or it is the one that was there
  -- when the run began.
  pub run_lease_released :
      (rs : List Round) (w : World)
      → is_shutdown (run_lease env p remote id ha rs w).0 (run_lease env p remote id ha rs w).1
        ≡ true
      → let (x, n) = run_lease env p remote id ha rs w in
        (n.world.lease ≡ none) ⊎ (n.world.lease ≡ w.lease)
  unfolding run_lease
  run_lease_released rs w h =
      let c = control id ha in
      let v = ttl_warned ha w in
      let q = before_release rs v in
      subst
        (λ l.
          ((run_lease env p remote id ha rs w).1.world.lease ≡ none)
          ⊎ ((run_lease env p remote id ha rs w).1.world.lease ≡ l))
        (warned w)
        (release_held-Cleared env healthy p remote c v.lease q.0 q.1 (before_release-Plain rs v) h)
    where
      warned : (w : World) → (ttl_warned ha w).lease ≡ w.lease
      warned w = ground arith

  -- When nothing fails and no other process runs, a start of method B on a node whose own lease is
  -- still valid ends at once with the error of a second start, and leaves that lease as it was.
  pub run_lease_twice :
      (r : Round) (rs : List Round) (rec : LockRecord) (w : World)
      → (ha.uniqueness_method == "external_cluster") ≡ false
      → w.lease ≡ some rec
      → rec.hostname ≡ id.hostname
      → is_stale rec (control id ha).ttl (now env w) ≡ false
      → let (x, n) = run_lease env p remote id ha (r ∷ rs) w in
        (x ≡ exited (err already_locked)) × (n.world.lease ≡ some rec)
  unfolding run_lease run_method_b release_held
  run_lease_twice r rs rec w method here own fresh =
      let c = control id ha in
      let v = ttl_warned ha w in
      ground (
        arith,
        acquire_lease_lem env alone c.node.hostname c.node.boot_id c.ttl (now env w) v healthy,
        eq_iff rec.hostname id.hostname,
      )
