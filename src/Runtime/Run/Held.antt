-- ===== src/Runtime/Run/Held.antt =====
-- internal/runtime/daemon.go: the generation that the process believes to hold, over a whole run.
use file_pubsub.Base.{
  ℕ, ◌≡◌, refl, arith, Bool, true, Option, some, List, [], ◌∷◌, string_eq, nat_eq, beq_refl, Result,
  ok, err, already_locked, ◌⊎◌, inl, inr, ◌||◌,
}
use file_pubsub.Config.{Source}
use file_pubsub.Source.{Connector}
use file_pubsub.Store.World.{World, Env, IsAlone, LockRecord, now}
use file_pubsub.Store.Lease.{acquire_lease, acquire_lease_forced, lease_record}
use file_pubsub.Store.Lease.Ownership.{names}
use file_pubsub.Store.Lease.Takeover.{AcquireSpec, acquire_lease_safe}
use file_pubsub.Store.Lease.Forced.{ForcedSpec, acquire_lease_forced_lem}
use file_pubsub.Usecase.Pipeline.{Pipeline}
use file_pubsub.Usecase.Keeps.{IsApart}
use file_pubsub.Runtime.Heartbeat.{Control, log_event}
use file_pubsub.Runtime.Heartbeat.Bounds.{IsHeld}
use file_pubsub.Runtime.Active.{Active, Served, listen_failed, returned, serving}
use file_pubsub.Runtime.Active.Held.{serve_active-IsHeld}
use file_pubsub.Runtime.Run.{
  Round, Node, Exit, node_of, serve_lease, forced_served, forced_answer, run_method_a, lease_served,
  lease_answer, run_method_b, standby_wait, log_node,
}

-- The process believes to hold no generation, or the lock file names the node with that one.
abbrev pub NodeIsHeld : Control → Node → Type 0
NodeIsHeld c n = (n.held ≡ 0) ⊎ (names c.node.hostname c.node.boot_id n.held n.world.lease ≡ true)

abbrev NamesLease : Control → ℕ → Option LockRecord → Type 0
NamesLease c g lease = names c.node.hostname c.node.boot_id g lease ≡ true

module _ (env : Env) (alone : IsAlone env) (p : Pipeline) (remote : Source → Connector)
    (apart : (s : Source) → IsApart (remote s)) (c : Control) where
  names-lease_record :
      (g t : ℕ) (lease : Option LockRecord)
      → lease ≡ some (lease_record c.node.hostname c.node.boot_id c.ttl g t)
      → NamesLease c g lease
  names-lease_record g t lease e =
      rw e (ground (arith, beq_refl c.node.hostname, beq_refl c.node.boot_id))

  NodeIsHeld-node_of : (a : Active) → IsHeld c a.beating a.world.lease → NodeIsHeld c (node_of a)
  NodeIsHeld-node_of a (inl e) = inl e
  NodeIsHeld-node_of a (inr (same, mine)) = inr mine

  serve_lease-IsHeld :
      (r : Round) (g : ℕ) (canceled : Bool) (w : World)
      → NamesLease c g w.lease
      → NodeIsHeld c (node_of (serve_lease env p remote c r g canceled w).1)
  unfolding serve_lease
  serve_lease-IsHeld r g canceled w h =
      NodeIsHeld-node_of (serve_lease env p remote c r g canceled w).1 (
        serve_active-IsHeld env alone p remote apart c r.listens r.events g canceled
          (log_event "lease_active" (log_event "startup" w)) h)

  forced_served-IsHeld :
      (q : Served × Active)
      → NodeIsHeld c (node_of q.1)
      → NodeIsHeld c (forced_served env p remote c q).1
  forced_served-IsHeld (listen_failed, a) h = h
  forced_served-IsHeld (returned, a) h = h
  forced_served-IsHeld (serving, a) h = h

  forced_answer-IsHeld :
      (r : Round) (canceled : Bool) (w : World) (q : Result ℕ × World)
      → ForcedSpec env alone c.node.hostname c.node.boot_id c.ttl (now env w) w q.0 q.1.lease
      → NodeIsHeld c (forced_answer env p remote c r canceled q).1
  forced_answer-IsHeld r canceled w (err e, v) h = inl refl
  forced_answer-IsHeld r canceled w (ok g, v) (fresh, next, after) =
      forced_served-IsHeld (serve_lease env p remote c r g canceled v)
        (serve_lease-IsHeld r g canceled v (names-lease_record g (now env w) v.lease after))

  pub run_method_a-IsHeld :
      (r : Round) (canceled : Bool) (w : World)
      → NodeIsHeld c (run_method_a env p remote c r canceled w).1
  unfolding run_method_a
  run_method_a-IsHeld r canceled w =
      let q = acquire_lease_forced env c.node.hostname c.node.boot_id c.ttl (now env w) w in
      forced_answer-IsHeld r canceled w q
        (acquire_lease_forced_lem env alone c.node.hostname c.node.boot_id c.ttl (now env w) w)

  -- A continuation that keeps the invariant from nodes that hold nothing.
  abbrev GoesOn : (Node → Exit × Node) → Type 0
  GoesOn again = (n : Node) → n.held ≡ 0 → NodeIsHeld c (again n).1

  standby_wait-IsHeld :
      (r : Round) (again : Node → Exit × Node)
      → GoesOn again
      → (n : Node) → n.held ≡ 0
      → NodeIsHeld c (standby_wait r again n).1
  standby_wait-IsHeld r again go n h =
      ground (arith, go (record n { canceled = n.canceled || r.signaled }) h)

  lease_served-IsHeld :
      (r : Round) (again : Node → Exit × Node)
      → GoesOn again
      → (q : Served × Active) → NodeIsHeld c (node_of q.1)
      → NodeIsHeld c (lease_served env p remote c r again q).1
  lease_served-IsHeld r again go (listen_failed, a) h = h
  lease_served-IsHeld r again go (serving, a) h = h
  lease_served-IsHeld r again go (returned, a) h = ground (
    arith,
    standby_wait-IsHeld r again go (log_node "lease_demoted" (record (node_of a) { held = 0 }))
        refl,
  )

  lease_answer-IsHeld :
      (r : Round) (again : Node → Exit × Node)
      → GoesOn again
      → (n : Node) → n.held ≡ 0
      → (w : World) (q : Result ℕ × World)
      → AcquireSpec env alone c.node.hostname c.node.boot_id c.ttl (now env w) w q.0 q.1.lease
      → NodeIsHeld c (lease_answer env p remote c r again n q).1
  lease_answer-IsHeld r again go n h w (ok g, v) (free, next, after) =
      lease_served-IsHeld r again go (serve_lease env p remote c r g n.canceled v)
        (serve_lease-IsHeld r g n.canceled v (names-lease_record g (now env w) v.lease after))
  lease_answer-IsHeld r again go n h w (err already_locked, v) k = inl h
  lease_answer-IsHeld r again go n h w (err e, v) k =
      ground (
        arith,
        standby_wait-IsHeld r again go (log_node "lease_standby" (record n { world = v })) h,
      )

  -- While no other process runs and the connectors leave the lock file alone, whatever fails and
  -- whatever happens in whatever order, a run of method B that starts without the lease keeps this,
  -- at every moment at which the list of rounds ends: the process believes to hold no generation, or
  -- the lock file names the node with the generation that it believes to hold.
  pub run_method_b-IsHeld :
      (rs : List Round) (n : Node) → n.held ≡ 0 → NodeIsHeld c (run_method_b env p remote c rs n).1
  unfolding run_method_b
  run_method_b-IsHeld [] n h = inl h
  run_method_b-IsHeld (r ∷ rs) n h =
      let w = n.world in
      let q = acquire_lease env c.node.hostname c.node.boot_id c.ttl (now env w) w in
      ground (
        arith,
        lease_answer-IsHeld r (λ m. run_method_b env p remote c rs m) (run_method_b-IsHeld rs) n h w
            q (acquire_lease_safe env alone c.node.hostname c.node.boot_id c.ttl (now env w) w),
      )
