-- ===== src/Runtime/Run.antt =====
-- internal/runtime/daemon.go: Run, runSingleInstance, runLease, runMethodA, runMethodB, standbyWait.
pub mod Held
pub mod Ends
pub mod Released
pub mod Single
use file_pubsub.Base.{
  ℕ, String, Bool, true, false, not, ◌&&◌, ◌||◌, none, some, List, [], ◌∷◌, ◌==◌, leb, string_eq,
  if◌then◌else◌, Result, ok, err, io_error, already_locked,
}
use file_pubsub.Base.Int.{pos, leb_ℤ, to_ℕ}
use file_pubsub.Config.{Source, HighAvailability}
use file_pubsub.Source.{Connector}
use file_pubsub.Store.World.{World, Env, now}
use file_pubsub.Store.Lease.{
  acquire, lock_release, acquire_lease, acquire_lease_forced, release_lease_if_owner,
}
use file_pubsub.Usecase.Pipeline.{Identity, Pipeline}
use file_pubsub.Runtime.Heartbeat.{Control, log_event}
use file_pubsub.Runtime.Active.{
  Event, Active, Served, listen_failed, returned, serving, serve_active,
}

-- What happens from one attempt to get the lease to the next.
pub record Round : Type 0 where
  pub listens : Bool  -- the metrics port is free
  pub events : List Event  -- while the node is active
  pub signaled : Bool  -- the stop signal arrives during the standby wait
  pub done_first : Bool  -- ctx.Done, if it is ready, is chosen before the timer

pub record Node : Type 0 where
  pub held : ℕ  -- heldGen
  pub canceled : Bool
  pub world : World

pub data Exit : Type 0 where
  running : Exit
  exited : Result (Unit {0}) → Exit

abbrev pub log_node : String → Node → Node
log_node event_type n = record n { world = log_event event_type n.world }

abbrev pub node_of : Active → Node
node_of a = record { held = a.beating.held; canceled = a.canceled; world = a.world }

-- The select of standbyWait; `again` goes on after the timer.
abbrev pub standby_wait : Round → (Node → Exit × Node) → Node → Exit × Node
standby_wait r again n =
    let canceled = n.canceled || r.signaled in
    if canceled && r.done_first
    then (exited (ok tt), log_node "shutdown" (record n { canceled = canceled }))
    else again (record n { canceled = canceled })

abbrev pub released : Node → Result (Unit {0}) × World → Node
released n (ok _, w) = record n { world = w }
released n (err e, w) = record n { world = log_event "shutdown_failed" w }

abbrev pub is_ok : Result (Unit {0}) → Bool
is_ok (ok _) = true
is_ok (err e) = false

abbrev pub control : Identity → HighAvailability → Control
control id ha = record { node = id; ttl = to_ℕ ha.lease_ttl }

abbrev pub first_round : (Round → Exit × Node) → World → List Round → Exit × Node
first_round body w [] = (running, record { held = 0; canceled = false; world = w })
first_round body w (r ∷ rs) = body r

abbrev pub ttl_warned : HighAvailability → World → World
ttl_warned ha w = if leb_ℤ ha.lease_ttl (pos 60) then log_event "lease_ttl_warning" w else w

module _ (env : Env) (p : Pipeline) (remote : Source → Connector) where
  module _ (c : Control) where
    -- After the first grant: the startup messages, and the active phase.
    unfoldable pub serve_lease : Round → ℕ → Bool → World → Served × Active
    serve_lease r g canceled w =
        serve_active env p remote (some c) r.listens r.events g canceled
          (log_event "lease_active" (log_event "startup" w))

    abbrev pub forced_served : Served × Active → Exit × Node
    forced_served (listen_failed, a) = (exited (err io_error), node_of a)
    forced_served (returned, a) =
        (exited (ok tt), log_node (if a.canceled then "shutdown" else "lease_demoted") (node_of a))
    forced_served (serving, a) = (running, node_of a)

    abbrev pub forced_answer : Round → Bool → Result ℕ × World → Exit × Node
    forced_answer r canceled (err e, w) =
        (exited (err e), record { held = 0; canceled = canceled; world = w })
    forced_answer r canceled (ok g, w) = forced_served (serve_lease r g canceled w)

    unfoldable pub run_method_a : Round → Bool → World → Exit × Node
    run_method_a r canceled w =
        forced_answer r canceled
          (acquire_lease_forced env c.node.hostname c.node.boot_id c.ttl (now env w) w)

    -- After the active phase of the lease method.
    abbrev pub lease_served : Round → (Node → Exit × Node) → Served × Active → Exit × Node
    lease_served r again (listen_failed, a) = (exited (err io_error), node_of a)
    lease_served r again (serving, a) = (running, node_of a)
    lease_served r again (returned, a) =
        if a.canceled
        then (exited (ok tt), log_node "shutdown" (node_of a))
        else standby_wait r again (log_node "lease_demoted" (record (node_of a) { held = 0 }))

    abbrev pub lease_answer : Round → (Node → Exit × Node) → Node → Result ℕ × World → Exit × Node
    lease_answer r again n (ok g, w) = lease_served r again (serve_lease r g n.canceled w)
    lease_answer r again n (err already_locked, w) =
        (exited (err already_locked), record n { world = w })
    lease_answer r again n (err e, w) =
        standby_wait r again (log_node "lease_standby" (record n { world = w }))

    -- The list's end is a moment at which the daemon has not ended.
    unfoldable pub run_method_b : List Round → Node → Exit × Node
    run_method_b [] n = (running, n)
    run_method_b (r ∷ rs) n =
        let again = λ (m : Node). run_method_b rs m in
        if n.canceled
        then (exited (ok tt), log_node "shutdown" n)
        else lease_answer r again n
            (acquire_lease env c.node.hostname c.node.boot_id c.ttl (now env n.world) n.world)

    -- The deferred function of runLease.
    unfoldable pub release_held : Exit × Node → Exit × Node
    release_held (running, n) = (running, n)
    release_held (exited r, n) =
        if not n.canceled && is_ok r
        then (exited r, n)
        else if leb n.held 0
        then (exited r, n)
        else (
          exited r,
          released n (release_lease_if_owner env c.node.hostname c.node.boot_id n.held n.world),
        )

  -- The ttl is positive here, as Validate checks.
  unfoldable pub run_lease : Identity → HighAvailability → List Round → World → Exit × Node
  unfolding run_method_a run_method_b release_held
  run_lease id ha rs w =
      let c = control id ha in
      let v = ttl_warned ha w in
      release_held c (
        if ha.uniqueness_method == "external_cluster"
        then first_round (λ r. run_method_a c r false v) v rs
        else run_method_b c rs (record { held = 0; canceled = false; world = v }))

  abbrev unlocked : Exit → Active → Result (Unit {0}) × World → Exit × Node
  unlocked x a (ok _, w) = (x, record (node_of a) { world = w })
  unlocked x a (err e, w) = (x, record (node_of a) { world = log_event "shutdown_failed" w })

  abbrev single_served : Served × Active → Exit × Node
  single_served (serving, a) = (running, node_of a)
  single_served (listen_failed, a) = unlocked (exited (err io_error)) a (lock_release env a.world)
  single_served (returned, a) =
      let b = record a { world = log_event "shutdown" a.world } in
      unlocked (exited (ok tt)) b (lock_release env b.world)

  abbrev single_answer : Round → Result (Unit {0}) × World → Exit × Node
  single_answer r (err e, w) = (exited (err e), record { held = 0; canceled = false; world = w })
  single_answer r (ok _, w) =
      single_served
        (serve_active env p remote none r.listens r.events 0 false (log_event "startup" w))

  unfoldable pub run_single_instance : ℕ → List Round → World → Exit × Node
  run_single_instance pid rs w =
      first_round (λ r. single_answer r (acquire env pid (now env w) w)) w rs

  unfoldable pub run : ℕ → Identity → List Round → World → Exit × Node
  unfolding run_single_instance run_lease
  run pid id rs w = elim p.cfg.high_availability [
    | none ↦ run_single_instance pid rs w
    | some ha ↦ run_lease id ha rs w
  ]
