-- ===== src/Runtime/Run/Single.antt =====
-- internal/runtime/daemon.go: runSingleInstance.
use file_pubsub.Base.{
  ℕ, ◌≡◌, refl, ◌∙◌, arith, Bool, true, false, Option, none, some, List, [], ◌∷◌, Result, ok, err,
  already_locked, subst, if◌then◌else◌,
}
use file_pubsub.Config.{Source}
use file_pubsub.Source.{Connector}
use file_pubsub.Store.World.{World, Env, IsAlone, IsHealthy, LockRecord, now}
use file_pubsub.Store.Lease.{acquire, pid_record, lock_release, remove_lease}
use file_pubsub.Store.Lease.Process.{is_running, acquire_lem}
use file_pubsub.Usecase.Pipeline.{Pipeline}
use file_pubsub.Usecase.Keeps.{IsApart}
use file_pubsub.Runtime.Heartbeat.{log_event}
use file_pubsub.Runtime.Active.{
  Event, signal, beat_due, triggered, leave, Active, Served, listen_failed, returned, serving,
  on_event, serve_loop, serve_active, starting, cycle,
}
use file_pubsub.Runtime.Active.Held.{cycle-Leaves}
use file_pubsub.Runtime.Run.{
  Round, Exit, exited, running, run_single_instance, single_answer, single_served,
}

module _ (env : Env) (alone : IsAlone env) (healthy : IsHealthy env) (p : Pipeline)
    (remote : Source → Connector) (apart : (s : Source) → IsApart (remote s)) where
  serve_loop-Leaves :
      (es : List Event) (a : Active)
      → (serve_loop env p remote none es a).1.world.lease ≡ a.world.lease
  unfolding serve_loop on_event
  serve_loop-Leaves [] a = refl
  serve_loop-Leaves (signal ∷ es) a = serve_loop-Leaves es (record a { canceled = true })
  serve_loop-Leaves (beat_due ∷ es) a = serve_loop-Leaves es a
  serve_loop-Leaves (triggered ∷ es) a =
      let b = record a { world = cycle env p remote none a.world } in
      serve_loop-Leaves es b ∙ cycle-Leaves env alone p remote apart none a.world
  serve_loop-Leaves (leave ∷ es) a = ground (arith, serve_loop-Leaves es a)

  serve_active-Leaves :
      (listens : Bool) (es : List Event) (w : World)
      → (serve_active env p remote none listens es 0 false w).1.world.lease ≡ w.lease
  unfolding serve_active
  serve_active-Leaves true es w =
      serve_loop-Leaves es (starting env p remote 0 (now env w) false (cycle env p remote none w))
      ∙ cycle-Leaves env alone p remote apart none w
  serve_active-Leaves false es w = refl

  -- What the lock file holds when a run has come this far with the lock.
  abbrev LockedSpec : Option LockRecord → Exit → Option LockRecord → Type 0
  LockedSpec lock running after = after ≡ lock
  LockedSpec lock (exited r) after = after ≡ none

  single_served-Locked :
      (q : Served × Active)
      → LockedSpec q.1.world.lease
          (single_served env p remote q).0
          (single_served env p remote q).1.world.lease
  unfolding lock_release remove_lease
  single_served-Locked (serving, a) = refl
  single_served-Locked (returned, a) = ground (arith, healthy.works a.world.ops)
  single_served-Locked (listen_failed, a) = ground (arith, healthy.works a.world.ops)

  -- The flag says whether the lock file named a running process.
  abbrev pub SingleSpec : Bool → ℕ → World → Exit → Option LockRecord → Type 0
  SingleSpec true pid w x after = (x ≡ exited (err already_locked)) × (after ≡ w.lease)
  SingleSpec false pid w x after = LockedSpec (some (pid_record pid (now env w))) x after

  single_answer-Spec :
      (named : Bool) (pid : ℕ) (r : Round) (w : World) (q : Result (Unit {0}) × World)
      → (q.0 ≡ (if named then err already_locked else ok tt))
        × (q.1.lease ≡ (if named then w.lease else some (pid_record pid (now env w))))
      → SingleSpec named pid w
          (single_answer env p remote r q).0
          (single_answer env p remote r q).1.world.lease
  single_answer-Spec true pid r w (res, v) (e, l) = rw e (refl, l)
  single_answer-Spec false pid r w (res, v) (e, l) =
      let started = log_event "startup" v in
      let q = serve_active env p remote none r.listens r.events 0 false started in
      rw e (
        subst
          (λ lock.
            LockedSpec lock (single_served env p remote q).0
              (single_served env p remote q).1.world.lease)
          (serve_active-Leaves r.listens r.events started ∙ l) (single_served-Locked q))

  -- When nothing fails, no other process runs and the connectors leave the lock file alone, a start
  -- of a single instance while the lock file names a running process ends at once with the error of
  -- a second start and leaves the lock file as it was. Any other start leaves no lock file when it
  -- ends, by the stop signal or because the HTTP server did not start, and until then the lock file
  -- names this process.
  pub run_single_instance_lem :
      (pid : ℕ) (r : Round) (rs : List Round) (w : World)
      → let (x, n) = run_single_instance env p remote pid (r ∷ rs) w in
        SingleSpec (is_running env w.lease) pid w x n.world.lease
  unfolding run_single_instance
  run_single_instance_lem pid r rs w =
      single_answer-Spec (is_running env w.lease) pid r w (acquire env pid (now env w) w)
        (acquire_lem env alone healthy pid (now env w) w)
