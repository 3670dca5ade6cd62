-- ===== src/Runtime/Heartbeat.antt =====
-- internal/runtime/daemon.go: one round of heartbeatLoop.
pub mod Bounds
use file_pubsub.Base.{
  ℕ, ◌+◌, ◌*◌, String, Bool, true, false, Result, ok, err, lease_lost, ltb, if◌then◌else◌,
}
use file_pubsub.Domain.Limits.{second}
use file_pubsub.Store.World.{World, Env, now, emit}
use file_pubsub.Store.Lease.{heartbeat}
use file_pubsub.Usecase.Pipeline.{Identity, event}

-- leaseControl without the interval, which says only when a round is due.
pub record Control : Type 0 where
  pub node : Identity
  pub ttl : ℕ

-- The variables gen and lastRenew of the loop, and heldGen, which it publishes.
pub record Beating : Type 0 where
  pub gen : ℕ
  pub last_renew : ℕ
  pub held : ℕ

abbrev pub log_event : String → World → World
log_event event_type w = emit (event "" "" "" event_type) w

module _ (env : Env) (c : Control) where
  -- The flag says whether the loop goes on; it ends by stopActive.
  abbrev pub beat_answer : ℕ → Beating → Result ℕ × World → Bool × Beating × World
  beat_answer t b (ok g, w) = (true, record { gen = g; last_renew = t; held = g }, w)
  beat_answer t b (err lease_lost, w) = (false, record b { held = 0 }, log_event "lease_lost" w)
  beat_answer t b (err e, w) =
      if ltb (b.last_renew + c.ttl * second) t
      then (false, record b { held = 0 }, log_event "lease_lost" w)
      else (true, b, log_event "heartbeat_failed" w)

  unfoldable pub beat : Beating → World → Bool × Beating × World
  beat b w =
      beat_answer (now env w) b (heartbeat env c.node.hostname c.node.boot_id b.gen (now env w) w)
