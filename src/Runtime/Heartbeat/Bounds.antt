-- ===== src/Runtime/Heartbeat/Bounds.antt =====
-- internal/runtime/daemon.go: what one round of heartbeatLoop leaves.
use file_pubsub.Base.{
  ℕ, ◌+◌, ◌*◌, ◌≤◌, ◌≡◌, refl, Bool, true, false, Option, nat_eq, string_eq, Result, ok, err,
  lease_lost, arith, ◌⊎◌, inl, inr,
}
use file_pubsub.Domain.Limits.{second}
use file_pubsub.Store.World.{World, Env, LockRecord, IsAlone, now}
use file_pubsub.Store.Lease.{heartbeat}
use file_pubsub.Store.Lease.Ownership.{names, renew, HeartbeatSpec, heartbeat_lem}
use file_pubsub.Runtime.Heartbeat.{Control, Beating, beat, beat_answer}

-- The generation that the process believes to hold is none, or the one in the lock file.
abbrev pub IsHeld : Control → Beating → Option LockRecord → Type 0
IsHeld c b lease =
    (b.held ≡ 0) ⊎ ((b.held ≡ b.gen) × (names c.node.hostname c.node.boot_id b.held lease ≡ true))

module _ (c : Control) (t : ℕ) (b : Beating) (before : Option LockRecord) where
  -- What a round may do at time `t`, by whether the loop goes on.
  abbrev pub BeatSpec : Bool → Beating → Option LockRecord → Type 0
  BeatSpec true b' after =
      (t ≤ b'.last_renew + c.ttl * second)
      × (((b' ≡ b) × (after ≡ before))
          ⊎ ((b' ≡ record { gen = b.gen + 1; last_renew = t; held = b.gen + 1 })
              × (names c.node.hostname c.node.boot_id b.gen before ≡ true)
              × (after ≡ renew t (b.gen + 1) before)))
  BeatSpec false b' after = (b'.held ≡ 0) × (after ≡ before)

module _ (env : Env) (c : Control) (t : ℕ) (b : Beating) where
  answer_lem :
      (r : Result ℕ) (w : World) (before : Option LockRecord)
      → HeartbeatSpec c.node.hostname c.node.boot_id b.gen t before r w.lease
      → let (goes_on, b', w') = beat_answer env c t b (r, w) in
        BeatSpec c t b before goes_on b' w'.lease
  answer_lem (ok g) w before (mine, next, after) = (omega arith, inr (rw next refl, mine, after))
  answer_lem (err lease_lost) w before (same, e) = (refl, same)
  answer_lem (err x) w before (same, e) = ground arith

module _ (env : Env) (alone : IsAlone env) (c : Control) where
  -- A heartbeat that leaves the node active at time `t` either has renewed the node's own lease with
  -- the next generation, which the node then knows, or has changed nothing while the last renewal is
  -- at most the ttl ago; any other heartbeat ends the active phase, forgets the generation and
  -- leaves the lock file as it was.
  pub beat_lem :
      (b : Beating) (w : World)
      → let (goes_on, b', w') = beat env c b w in
        BeatSpec c (now env w) b w.lease goes_on b' w'.lease
  unfolding beat
  beat_lem b w =
      let q = heartbeat env c.node.hostname c.node.boot_id b.gen (now env w) w in
      answer_lem env c (now env w) b q.0 q.1 w.lease
        (heartbeat_lem env alone c.node.hostname c.node.boot_id b.gen (now env w) w)

  IsHeld-BeatSpec :
      (t : ℕ) (b b' : Beating) (before after : Option LockRecord) (goes_on : Bool)
      → BeatSpec c t b before goes_on b' after
      → IsHeld c b before
      → IsHeld c b' after
  IsHeld-BeatSpec t b b' before after true (fresh, inl (same, still)) h = ground arith
  IsHeld-BeatSpec t b b' before after true (fresh, inr (new, mine, renewed)) h = ground arith
  IsHeld-BeatSpec t b b' before after false (gone, still) h = inl gone

  pub beat-IsHeld :
      (b : Beating) (w : World)
      → IsHeld c b w.lease
      → let (goes_on, b', w') = beat env c b w in IsHeld c b' w'.lease
  beat-IsHeld b w h =
      let (goes_on, b', w') = beat env c b w in
      IsHeld-BeatSpec (now env w) b b' w.lease w'.lease goes_on (beat_lem b w) h
