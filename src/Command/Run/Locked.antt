-- ===== src/Command/Run/Locked.antt =====
-- cmd/file-pubsub/replay.go and main.go: the commands that write, and the lock of the data directory.
use file_pubsub.Base.{
  ℕ, String, ◌≡◌, refl, sym, ap, subst, arith, Option-cases, inl, inr, Error, Bool, true, false,
  Option, none, some, List, [], ◌∷◌, Result, ok, err, already_locked, if◌then◌else◌, ◌≢◌,
}
use file_pubsub.Base.Dict.{Dict}
use file_pubsub.Config.{Config, Source}
use file_pubsub.Store.World.{World, Env, IsAlone, IsHealthy, now}
use file_pubsub.Store.Lease.{acquire, lease_record, lock_release, remove_lease}
use file_pubsub.Store.Lease.Process.{is_running, acquire_lem}
use file_pubsub.Usecase.Keeps.{IsApart}
use file_pubsub.Runtime.Run.{Round, Node, Exit, exited, run_single_instance}
use file_pubsub.Runtime.Run as Daemon
use file_pubsub.Runtime.Run.Single.{run_single_instance_lem}
use file_pubsub.Command.Flags.{parse_flags, flag_value}
use file_pubsub.Command.Run.Configured.{with_config-some}
use file_pubsub.Command.Run.{
  date_of, Outside, exit, Outcome, exit_duplicate, load_config, cmd_replay, cmd_serve, replay_flags,
  replay_acquired, replay_locked, replay_ended, new_pipeline, served,
}

module _ (env : Env) (alone : IsAlone env) (healthy : IsHealthy env) (o : Outside) where
  -- The flag says whether the lock file named a running process.
  abbrev pub ReplaySpec : Bool → World → Outcome → Type 0
  ReplaySpec true w r = (r.status ≡ exit exit_duplicate) × (r.world.lease ≡ w.lease)
  ReplaySpec false w r = (r.status ≢ exit exit_duplicate) × (r.world.lease ≡ none)

  lock_release_lem : (w : World) → (lock_release env w).1.lease ≡ none
  unfolding lock_release remove_lease
  lock_release_lem w = ground (arith, healthy.works w.ops)

  replay_ended-code :
      (q : (ℕ × Option Error) × World) → (replay_ended q).status ≢ exit exit_duplicate
  replay_ended-code ((n, none), w) = ground arith
  replay_ended-code ((n, some e), w) = ground arith

  replay_locked-code :
      (values : Dict String String) (cfg : Config) (w : World)
      → (replay_locked env o values cfg w).status ≢ exit exit_duplicate
  replay_locked-code values cfg w = elim (Option-cases (date_of o (flag_value values "from"))) [
    | inl e ↦ rw (replay_locked, e) (ground arith)
    | inr (from, e) ↦ elim (Option-cases (date_of o (flag_value values "to"))) [
      | inl f ↦ rw (replay_locked, e, f) (ground arith)
      | inr (to, f) ↦ rw (replay_locked, e, f) (replay_ended-code _)
    ]
  ]

  acquired-ReplaySpec :
      (named : Bool) (w : World) (body : World → Outcome) (q : Result (Unit {0}) × World)
      → ((v : World) → (body v).status ≢ exit exit_duplicate)
      → q.0 ≡ (if named then err already_locked else ok tt)
      → (named ≡ true → q.1.lease ≡ w.lease)
      → ReplaySpec named w (replay_acquired env body q)
  acquired-ReplaySpec true w body (r, v) code e l = rw e (refl, l refl)
  acquired-ReplaySpec false w body (r, v) code e l = rw e (code v, lock_release_lem (body v).world)

  -- When nothing fails and no other process runs, a replay with flags and a configuration exits with
  -- the code of a second start, and leaves the lock file as it was, exactly when the lock file names
  -- the pid of a running process. Any other one, with a wrong date or wrong parameters too, leaves no
  -- lock file, even if there was a lease, which names no pid.
  pub cmd_replay_lem :
      (args : List String) (values : Dict String String) (cfg : Config) (w : World)
      → parse_flags replay_flags args ≡ some values
      → load_config o.host (flag_value values "config") ≡ some cfg
      → ReplaySpec (is_running env w.lease) w (cmd_replay env o args w)
  unfolding cmd_replay
  cmd_replay_lem args values cfg w parsed configured =
      let begun =
        with_config-some o.host replay_flags args w
          (λ values cfg.
            replay_acquired env (replay_locked env o values cfg) (acquire env o.pid (now env w) w))
          values cfg parsed configured in
      subst (ReplaySpec (is_running env w.lease) w) (sym begun) (
        acquired-ReplaySpec (is_running env w.lease) w (replay_locked env o values cfg)
          (acquire env o.pid (now env w) w) (replay_locked-code values cfg)
          (acquire_lem env alone healthy o.pid (now env w) w).0
          (λ h. ground (arith, (acquire_lem env alone healthy o.pid (now env w) w).1)))

  -- When nothing fails and no other process writes meanwhile, a replay while the lock file is the
  -- lease of a serve with high availability, valid or not, does not exit with the code of a second
  -- start, and leaves no lock file: the serve has lost its lease.
  pub cmd_replay_lease :
      (args : List String) (values : Dict String String) (cfg : Config) (w : World)
      (host boot : String) (ttl g t : ℕ)
      → parse_flags replay_flags args ≡ some values
      → load_config o.host (flag_value values "config") ≡ some cfg
      → w.lease ≡ some (lease_record host boot ttl g t)
      → let r = cmd_replay env o args w in (r.status ≢ exit exit_duplicate) × (r.world.lease ≡ none)
  cmd_replay_lease args values cfg w host boot ttl g t parsed configured leased =
      subst (λ named. ReplaySpec named w (cmd_replay env o args w)) (ap (is_running env) leased)
        (cmd_replay_lem args values cfg w parsed configured)

  -- When nothing fails, no other process runs and the connectors leave the lock file alone, a serve
  -- without high availability, while the lock file names a running process, exits with the code of a
  -- second start and leaves the lock file as it was.
  pub cmd_serve_twice :
      ((s : Source) → IsApart (o.remote s))
      → (args : List String) (values : Dict String String) (cfg : Config) (w : World) (r : Round)
        (rs : List Round)
      → parse_flags ("config" ∷ []) args ≡ some values
      → load_config o.host (flag_value values "config") ≡ some cfg
      → cfg.high_availability ≡ none
      → o.rounds ≡ r ∷ rs
      → is_running env w.lease ≡ true
      → let out = cmd_serve env o args w in
        (out.status ≡ exit exit_duplicate) × (out.world.lease ≡ w.lease)
  unfolding cmd_serve Daemon.run
  cmd_serve_twice apart args values cfg w r rs parsed configured single begun named = ground (
    arith,
    with_config-some o.host ("config" ∷ []) args w
        (λ values cfg.
          served (Daemon.run env (new_pipeline cfg true) o.remote o.pid o.node o.rounds w))
        values cfg parsed configured,
    run_single_instance_lem env alone healthy (new_pipeline cfg true) o.remote apart o.pid r rs w,
  )
