-- ===== src/Tests/Runtime.antt =====
-- The daemon of two nodes, a and b, and two writers of one manifest.
use file_pubsub.Base.{
  ℕ, ◌≡◌, refl, true, false, some, none, [], ◌∷◌, ◌⊎◌, ok, err, io_error, already_locked, nat_eq,
  string_eq, Result, ◌+◌,
}
use file_pubsub.Base.Int.{pos}
use file_pubsub.Config.{Source, HighAvailability}
use file_pubsub.Source.{Connector}
use file_pubsub.Store.Manifest.{Manifest}
use file_pubsub.Store.World.{World}
use file_pubsub.Store.Lease.{acquire_lease, release_lease_if_owner, is_stale, pid_record}
use file_pubsub.Store.Race.{Reach, System, Move, go}
use file_pubsub.Store.Race.Exclusion.{in_turn, updates_in_turn}
use file_pubsub.Store.Race.Lost.{lost_update}
use file_pubsub.Usecase.Pipeline.{Identity}
use file_pubsub.Usecase.Cycle.{run_cycle}
use file_pubsub.Usecase.Keeps.{IsApart}
use file_pubsub.Usecase.Keeps.Cycle.{run_cycle-Leaves}
use file_pubsub.Runtime.Heartbeat.{Control, Beating, beat}
use file_pubsub.Runtime.Heartbeat.Bounds.{BeatSpec, beat_lem}
use file_pubsub.Runtime.Active.{serve_active, signal, beat_due, triggered, leave}
use file_pubsub.Runtime.Run.{
  Round, Node, Exit, exited, serve_lease, run_method_b, run_lease, run_single_instance,
}
use file_pubsub.Runtime.Run.Held.{NodeIsHeld, run_method_b-IsHeld}
use file_pubsub.Runtime.Run.Released.{run_lease_released, run_lease_twice}
use file_pubsub.Runtime.Run.Single.{run_single_instance_lem}
use file_pubsub.Tests.Installation.{
  calm, calm-IsAlone, calm-IsHealthy, world, message, node_b, pipeline,
}

-- No server answers.
abbrev absent : Source → Connector
absent s = record {
  list = λ w. (err io_error, w);
  fetch = λ name w. (err io_error, w);
  remove = λ name w. (err io_error, w);
}

abbrev absent-IsApart : (s : Source) → IsApart (absent s)
absent-IsApart s = record { list = λ w. refl; fetch = λ name w. refl; remove = λ name w. refl }

abbrev held_by_b : World
held_by_b = record world { lease = some node_b }

run_cycle-Leaves_example : (run_cycle calm pipeline absent held_by_b).lease ≡ some node_b
run_cycle-Leaves_example =
    run_cycle-Leaves calm calm-IsAlone pipeline absent absent-IsApart held_by_b

abbrev b : Identity
b = record { hostname = "b"; boot_id = "boot-b" }

abbrev b_control : Control
b_control = record { node = b; ttl = 90 }

abbrev b_beating : Beating
b_beating = record { gen = 3; last_renew = 1000; held = 3 }

beat_lem_example :
    let (goes_on, b', w') = beat calm b_control b_beating held_by_b in
    BeatSpec b_control 1000 b_beating (some node_b) goes_on b' w'.lease
beat_lem_example = beat_lem calm calm-IsAlone b_control b_beating held_by_b

-- A heartbeat, a cycle, and the stop signal.
abbrev day : Round
day = record {
  listens = true;
  events = beat_due ∷ triggered ∷ signal ∷ leave ∷ [];
  signaled = false;
  done_first = false;
}

abbrev b_node : World → Node
b_node w = record { held = 0; canceled = false; world = w }

run_method_b-IsHeld_example :
    NodeIsHeld b_control (run_method_b calm pipeline absent b_control (day ∷ []) (b_node world)).1
run_method_b-IsHeld_example =
    run_method_b-IsHeld calm calm-IsAlone pipeline absent absent-IsApart b_control (day ∷ [])
      (b_node world) refl

abbrev ha : HighAvailability
ha = record { uniqueness_method = "lease"; lease_ttl = pos 90; heartbeat_interval = pos 30 }

-- The metrics port is taken.
abbrev port_taken : Round
port_taken = record day { listens = false }

abbrev b_run : Exit × Node
b_run = run_lease calm pipeline absent b ha (port_taken ∷ []) world

run_lease_released_example : (b_run.1.world.lease ≡ none) ⊎ (b_run.1.world.lease ≡ world.lease)
unfolding run_lease acquire_lease serve_lease serve_active release_lease_if_owner
run_lease_released_example =
    run_lease_released calm calm-IsAlone calm-IsHealthy pipeline absent absent-IsApart b ha
      (port_taken ∷ []) world refl

run_lease_twice_example :
    let (x, n) = run_lease calm pipeline absent b ha (day ∷ []) held_by_b in
    (x ≡ exited (err already_locked)) × (n.world.lease ≡ some node_b)
unfolding is_stale
run_lease_twice_example =
    run_lease_twice calm calm-IsAlone calm-IsHealthy pipeline absent absent-IsApart b ha day []
      node_b held_by_b refl refl refl refl

abbrev locked : World
locked = record world { lease = some (pid_record 7 500) }

run_single_instance_lem_example :
    let (x, n) = run_single_instance calm pipeline absent 8 (day ∷ []) locked in
    (x ≡ exited (err already_locked)) × (n.world.lease ≡ some (pid_record 7 500))
run_single_instance_lem_example =
    run_single_instance_lem calm calm-IsAlone calm-IsHealthy pipeline absent absent-IsApart 8 day []
      locked

-- Each writer counts one more retry.
abbrev count_retry : ℕ → Manifest → Result Manifest
count_retry i m = ok (record m { retry_count = m.retry_count + 1 })

abbrev counted : Manifest
counted = record message { retry_count = 2; revision = 5 }

lost_update_example :
    (s : System) × Reach count_retry true message s
    × (s.shared.renamed ≡ 0 ∷ 1 ∷ [])
    × (s.shared.file ≡ counted)
lost_update_example = lost_update count_retry message counted counted refl refl

-- A moment that is reached while no lock counts as abandoned.
abbrev Run : Type 0
Run = (s : System) × Reach count_retry false message s

-- Writer 0 has the lock.
abbrev entered : Run
entered = (_, go 0 (go 0 Reach.begin Move.start) (Move.create refl))

-- Writer 0 has renamed its manifest.
abbrev written : Run
written = (
  _,
  go 0 (go 0 (go 0 (go 0 entered.1 (Move.read refl)) (Move.confirm refl)) (Move.compare refl))
      Move.rename,
)

updates_in_turn_example :
    (in_turn count_retry message (0 ∷ []) ≡ some counted) × (counted.revision ≡ 4 + 1)
updates_in_turn_example = updates_in_turn count_retry message written.1
