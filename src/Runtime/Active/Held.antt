-- ===== src/Runtime/Active/Held.antt =====
-- internal/runtime/daemon.go: the generation that the process believes to hold while it is active.
use file_pubsub.Base.{
  ℕ, ◌≡◌, refl, sym, subst, arith, Bool, true, false, Option, none, some, List, [], ◌∷◌, inr,
}
use file_pubsub.Config.{Source}
use file_pubsub.Source.{Connector}
use file_pubsub.Store.World.{World, Env, IsAlone}
use file_pubsub.Store.Lease.Ownership.{names}
use file_pubsub.Usecase.Pipeline.{Pipeline}
use file_pubsub.Usecase.Keeps.{IsApart}
use file_pubsub.Usecase.Keeps.Cycle.{run_cycle-Leaves}
use file_pubsub.Runtime.Heartbeat.{Control}
use file_pubsub.Runtime.Heartbeat.Bounds.{IsHeld, beat-IsHeld}
use file_pubsub.Runtime.Active.{
  Event, signal, beat_due, triggered, leave, Active, cycle, on_event, serve_loop, serve_active,
}

module _ (env : Env) (alone : IsAlone env) (p : Pipeline) (remote : Source → Connector)
    (apart : (s : Source) → IsApart (remote s)) where
  pub cycle-Leaves : (c : Option Control) (w : World) → (cycle env p remote c w).lease ≡ w.lease
  unfolding cycle
  cycle-Leaves c w =
      run_cycle-Leaves (record env { canceled = λ n. false }) (record { quiet = alone.quiet })
        (record p { lease = elim c [ none ↦ none | some k ↦ some k.node ] }) remote apart w

  module _ (c : Control) where
    abbrev pub ActiveIsHeld : Active → Type 0
    ActiveIsHeld a = IsHeld c a.beating a.world.lease

    on_event-ActiveIsHeld :
        (e : Event) (a : Active)
        → ActiveIsHeld a
        → ActiveIsHeld (on_event env p remote (some c) e a)
    unfolding on_event
    on_event-ActiveIsHeld signal a h = h
    on_event-ActiveIsHeld beat_due a h = ground (arith, beat-IsHeld env alone c a.beating a.world h)
    on_event-ActiveIsHeld triggered a h =
        subst (λ l. IsHeld c a.beating l) (sym (cycle-Leaves (some c) a.world)) h
    on_event-ActiveIsHeld leave a h = h

    serve_loop-ActiveIsHeld :
        (es : List Event) (a : Active)
        → ActiveIsHeld a
        → ActiveIsHeld (serve_loop env p remote (some c) es a).1
    unfolding serve_loop
    serve_loop-ActiveIsHeld [] a h = h
    serve_loop-ActiveIsHeld (signal ∷ es) a h =
        serve_loop-ActiveIsHeld es _ (on_event-ActiveIsHeld signal a h)
    serve_loop-ActiveIsHeld (beat_due ∷ es) a h =
        serve_loop-ActiveIsHeld es _ (on_event-ActiveIsHeld beat_due a h)
    serve_loop-ActiveIsHeld (triggered ∷ es) a h =
        serve_loop-ActiveIsHeld es _ (on_event-ActiveIsHeld triggered a h)
    serve_loop-ActiveIsHeld (leave ∷ es) a h = ground (arith, serve_loop-ActiveIsHeld es a h)

    -- While no other process runs and the connectors leave the lock file alone, whatever fails and
    -- in whatever order heartbeats, triggers and signals come, an active phase that starts with the
    -- lease keeps this: the generation that the process believes to hold is none, or the lock file
    -- names the node with that generation.
    pub serve_active-IsHeld :
        (listens : Bool) (es : List Event) (gen : ℕ) (canceled : Bool) (w : World)
        → names c.node.hostname c.node.boot_id gen w.lease ≡ true
        → ActiveIsHeld (serve_active env p remote (some c) listens es gen canceled w).1
    unfolding serve_active
    serve_active-IsHeld true es gen canceled w h =
        serve_loop-ActiveIsHeld es _ (inr (refl, rw (cycle-Leaves (some c) w) h))
    serve_active-IsHeld false es gen canceled w h = inr (refl, h)
