-- ===== src/Tests/Leases.antt =====
-- The lease of two nodes, a and b.
use file_pubsub.Base.{ℕ, String, ◌≡◌, refl, some, ◌==◌, ok, nat_eq, string_eq, if◌then◌else◌}
use file_pubsub.Store.World.{World, Env}
use file_pubsub.Store.Lease.{acquire_lease, take_over, heartbeat, is_stale, lease_record}
use file_pubsub.Store.Lease.Takeover.{
  AcquireSpec, acquire_lease_lem, acquire_lease_safe, double_takeover, rival,
}
use file_pubsub.Store.Lease.Ownership.{HeartbeatSpec, heartbeat_lem}
use file_pubsub.Tests.Installation.{calm, calm-IsAlone, calm-IsHealthy, world, node_b}

abbrev held_by_b : World
held_by_b = record world { lease = some node_b }

-- Long after b stopped.
abbrev late : ℕ
late = 100000000000

acquire_lease_lem_example :
    let (r, w') = acquire_lease calm "a" "boot-a" 90 late held_by_b in
    (r ≡ ok 4) × (w'.lease ≡ some (lease_record "a" "boot-a" 90 4 late))
unfolding is_stale
acquire_lease_lem_example =
    acquire_lease_lem calm calm-IsAlone "a" "boot-a" 90 late held_by_b calm-IsHealthy

acquire_lease_safe_example :
    let (r, w') = acquire_lease calm "a" "boot-a" 90 late held_by_b in
    AcquireSpec calm calm-IsAlone "a" "boot-a" 90 late held_by_b r w'.lease
acquire_lease_safe_example = acquire_lease_safe calm calm-IsAlone "a" "boot-a" 90 late held_by_b

abbrev b_host : String
b_host = "b"

abbrev b_boot : String
b_boot = "boot-b"

heartbeat_lem_example :
    let (r, w') = heartbeat calm "b" "boot-b" 3 2000 held_by_b in
    HeartbeatSpec "b" "boot-b" 3 2000 (some node_b) r w'.lease
heartbeat_lem_example = heartbeat_lem calm calm-IsAlone "b" "boot-b" 3 2000 held_by_b

-- Node c makes its attempt between a's reading of the stale lease and a's removal of it.
abbrev racing : Env
unfolding acquire_lease
racing = record calm {
  others = λ n w.
      if n == 2
      then (if w.ops == 2 then (rival calm "c" "boot-c" 90 late held_by_b).1 else w)
      else w;
}

double_takeover_example :
    let (r', v) = rival calm "c" "boot-c" 90 late held_by_b in
    let (r, w') = acquire_lease racing "a" "boot-a" 90 late held_by_b in
    ((r' ≡ ok 4) × (v.lease ≡ some (lease_record "c" "boot-c" 90 4 late)))
    × ((r ≡ ok 4) × (w'.lease ≡ some (lease_record "a" "boot-a" 90 4 late)))
unfolding is_stale acquire_lease take_over
double_takeover_example =
    double_takeover racing calm (record { works = λ n. refl }) calm-IsHealthy calm-IsAlone "a"
      "boot-a" "c" "boot-c" 90 late late node_b held_by_b refl refl refl refl refl refl
