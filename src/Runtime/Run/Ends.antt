-- ===== src/Runtime/Run/Ends.antt =====
-- internal/runtime/daemon.go: an undisturbed run in lease mode, up to the deferred function.
use file_pubsub.Base.{
  ℕ, ◌≡◌, refl, arith, Bool, true, false, not, ◌||◌, Option, none, some, List, [], ◌∷◌, nat_eq,
  string_eq, beq_refl, Result, Error, ok, err, already_locked, leb, ◌⊎◌, inl, inr, if◌then◌else◌,
}
use file_pubsub.Config.{Source}
use file_pubsub.Source.{Connector}
use file_pubsub.Store.World.{World, Env, IsAlone, IsHealthy, LockRecord, now}
use file_pubsub.Store.Lease.{acquire_lease, acquire_lease_forced, lease_record}
use file_pubsub.Store.Lease.Ownership.{names}
use file_pubsub.Store.Lease.Takeover.{is_free, next_generation, refusal, acquire_lease_lem}
use file_pubsub.Store.Lease.Forced.{is_own, acquire_lease_forced_healthy}
use file_pubsub.Usecase.Pipeline.{Pipeline}
use file_pubsub.Usecase.Keeps.{IsApart}
use file_pubsub.Runtime.Heartbeat.{Control, log_event}
use file_pubsub.Runtime.Active.{Active, Served, listen_failed, returned, serving}
use file_pubsub.Runtime.Active.Firm.{Loop, serve_active-Loop}
use file_pubsub.Runtime.Run.{
  Round, Node, Exit, node_of, serve_lease, forced_served, forced_answer, run_method_a, lease_served,
  lease_answer, run_method_b, standby_wait, log_node,
}

module _ (env : Env) (alone : IsAlone env) (healthy : IsHealthy env) (p : Pipeline)
    (remote : Source → Connector) (apart : (s : Source) → IsApart (remote s)) (c : Control)
    (before : Option LockRecord) where
  -- The node has taken nothing, and the lock file is as before; or it knows the generation under
  -- which the lock file names it.
  abbrev pub IsPlain : Node → Type 0
  IsPlain n =
      ((n.held ≡ 0) × (n.world.lease ≡ before))
      ⊎ ((names c.node.hostname c.node.boot_id n.held n.world.lease ≡ true)
          × (leb n.held 0 ≡ false))

  served_node :
      (q : Served × Active) → Loop env alone healthy p remote apart c q → IsPlain (node_of q.1)
  served_node (serving, a) h = inr (h.2, h.3)
  served_node (returned, a) (h, k) = inr (h.2, h.3)
  served_node (listen_failed, a) h = inr (h.2, h.3)

  -- A generation that was just granted.
  abbrev IsGranted : ℕ → World → Type 0
  IsGranted g w = (names c.node.hostname c.node.boot_id g w.lease ≡ true) × (leb g 0 ≡ false)

  granted :
      (g t : ℕ) (old : Option LockRecord) (w : World)
      → g ≡ next_generation old
      → w.lease ≡ some (lease_record c.node.hostname c.node.boot_id c.ttl g t)
      → IsGranted g w
  granted g t old w e l = (
    rw l (ground (arith, beq_refl c.node.hostname, beq_refl c.node.boot_id, beq_refl g)),
    rw e (positive old),
  )
    where
      positive : (o : Option LockRecord) → leb (next_generation o) 0 ≡ false
      positive none = refl
      positive (some rec) = ground arith

  serve_lease-Loop :
      (r : Round) (g : ℕ) (canceled : Bool) (w : World)
      → IsGranted g w
      → Loop env alone healthy p remote apart c (serve_lease env p remote c r g canceled w)
  unfolding serve_lease
  serve_lease-Loop r g canceled w h =
      serve_active-Loop env alone healthy p remote apart c r.listens r.events g canceled
        (log_event "lease_active" (log_event "startup" w)) h.0 h.1

  abbrev GoesOn : (Node → Exit × Node) → Type 0
  GoesOn again = (n : Node) → n.held ≡ 0 → n.world.lease ≡ before → IsPlain (again n).1

  standby_wait-Plain :
      (r : Round) (again : Node → Exit × Node)
      → GoesOn again
      → (n : Node) → n.held ≡ 0
      → n.world.lease ≡ before
      → IsPlain (standby_wait r again n).1
  standby_wait-Plain r again go n h l =
      ground (arith, h, l, go (record n { canceled = n.canceled || r.signaled }) h l)

  lease_served-Plain :
      (r : Round) (again : Node → Exit × Node) (q : Served × Active)
      → Loop env alone healthy p remote apart c q
      → IsPlain (lease_served env p remote c r again q).1
  lease_served-Plain r again (listen_failed, a) h = inr (h.2, h.3)
  lease_served-Plain r again (serving, a) h = inr (h.2, h.3)
  lease_served-Plain r again (returned, a) (h, k) = rw k (inr (h.2, h.3))

  -- An answer that gives the lease exactly when it may.
  abbrev IsAnswer : Bool → Error → ℕ → Result ℕ × World → Type 0
  IsAnswer free e t q =
      (q.0 ≡ (if free then ok (next_generation before) else err e))
      × (q.1.lease ≡ (
          if free
          then some (lease_record c.node.hostname c.node.boot_id c.ttl (next_generation before) t)
          else before))

  refused-Plain :
      (r : Round) (again : Node → Exit × Node)
      → GoesOn again
      → (n : Node) → n.held ≡ 0
      → (e : Error) (v : World) → v.lease ≡ before
      → IsPlain (lease_answer env p remote c r again n (err e, v)).1
  refused-Plain r again go n h already_locked v l = inl (h, l)
  refused-Plain r again go n h e v l =
      ground (
        arith,
        standby_wait-Plain r again go (log_node "lease_standby" (record n { world = v })) h l,
      )

  lease_answer-Plain :
      (r : Round) (again : Node → Exit × Node)
      → GoesOn again
      → (n : Node) → n.held ≡ 0
      → (free : Bool) (e : Error) (t : ℕ) (q : Result ℕ × World) → IsAnswer free e t q
      → IsPlain (lease_answer env p remote c r again n q).1
  lease_answer-Plain r again go n h true e t (x, v) (a, l) =
      let g = next_generation before in
      rw a (
        lease_served-Plain r again (serve_lease env p remote c r g n.canceled v)
          (serve_lease-Loop r g n.canceled v (granted g t before v refl l)))
  lease_answer-Plain r again go n h false e t (x, v) (a, l) =
      rw a (refused-Plain r again go n h e v l)

  acquire-IsAnswer :
      (w : World)
      → w.lease ≡ before
      → IsAnswer
          (is_free before c.ttl (now env w))
          (refusal c.node.hostname before)
          (now env w)
          (acquire_lease env c.node.hostname c.node.boot_id c.ttl (now env w) w)
  acquire-IsAnswer w l = ground (
    arith,
    l,
    acquire_lease_lem env alone c.node.hostname c.node.boot_id c.ttl (now env w) w healthy,
  )

  pub run_method_b-Plain :
      (rs : List Round) (n : Node)
      → n.held ≡ 0
      → n.world.lease ≡ before
      → IsPlain (run_method_b env p remote c rs n).1
  unfolding run_method_b
  run_method_b-Plain [] n h l = inl (h, l)
  run_method_b-Plain (r ∷ rs) n h l =
      let w = n.world in
      let t = now env w in
      ground (
        arith,
        h,
        l,
        lease_answer-Plain r (λ m. run_method_b env p remote c rs m) (run_method_b-Plain rs) n h
            (is_free before c.ttl t) (refusal c.node.hostname before) t
            (acquire_lease env c.node.hostname c.node.boot_id c.ttl t w) (acquire-IsAnswer w l),
      )

  forced_served-Plain :
      (q : Served × Active)
      → Loop env alone healthy p remote apart c q
      → IsPlain (forced_served env p remote c q).1
  forced_served-Plain (serving, a) h = inr (h.2, h.3)
  forced_served-Plain (returned, a) (h, k) = inr (h.2, h.3)
  forced_served-Plain (listen_failed, a) h = inr (h.2, h.3)

  forced_answer-Plain :
      (r : Round) (canceled free : Bool) (e : Error) (t : ℕ) (q : Result ℕ × World)
      → IsAnswer free e t q
      → IsPlain (forced_answer env p remote c r canceled q).1
  forced_answer-Plain r canceled true e t (x, v) (a, l) =
      let g = next_generation before in
      rw a (
        forced_served-Plain (serve_lease env p remote c r g canceled v)
          (serve_lease-Loop r g canceled v (granted g t before v refl l)))
  forced_answer-Plain r canceled false e t (x, v) (a, l) = rw a (inl (refl, l))

  pub run_method_a-Plain :
      (r : Round) (canceled : Bool) (w : World)
      → w.lease ≡ before
      → IsPlain (run_method_a env p remote c r canceled w).1
  unfolding run_method_a
  run_method_a-Plain r canceled w l =
      let host = c.node.hostname in
      let boot = c.node.boot_id in
      let t = now env w in
      forced_answer-Plain r canceled (not (is_own env alone host boot c.ttl t w before))
        already_locked t (acquire_lease_forced env host boot c.ttl t w)
        (ground (arith, l, acquire_lease_forced_healthy env alone host boot c.ttl t w healthy))
