-- ===== src/Runtime/Active.antt =====
-- internal/runtime/daemon.go: serveActive, from the listening socket to the end of the loop.
pub mod Held
pub mod Firm
use file_pubsub.Base.{ℕ, Bool, true, false, ◌||◌, Option, none, some, List, [], ◌∷◌, if◌then◌else◌}
use file_pubsub.Config.{Source}
use file_pubsub.Source.{Connector}
use file_pubsub.Store.World.{World, Env, now}
use file_pubsub.Usecase.Pipeline.{Pipeline}
use file_pubsub.Usecase.Cycle.{run_cycle}
use file_pubsub.Runtime.Heartbeat.{Control, Beating, beat, log_event}

-- What happens while the node is active. A heartbeat falls between two cycles. `leave` is the choice
-- of activeCtx.Done in the loop's select, which a trigger that is ready too can delay.
pub data Event : Type 0 where
  signal beat_due triggered leave : Event

pub record Active : Type 0 where
  pub beating : Beating
  pub stopped : Bool  -- stopActive was called
  pub canceled : Bool  -- ctx is done
  pub world : World

pub data Served : Type 0 where
  listen_failed returned serving : Served

abbrev beaten : Active → Bool × Beating × World → Active
beaten a (goes_on, b, w) = record a {
  beating = b;
  stopped = if goes_on then false else true;
  world = w;
}

module _ (env : Env) (p : Pipeline) (remote : Source → Connector) where
  -- RunCycle under context.WithoutCancel, with the lease checker while the node has a lease.
  unfoldable pub cycle : Option Control → World → World
  cycle c w =
      run_cycle (record env { canceled = λ n. false })
        (record p { lease = elim c [ none ↦ none | some k ↦ some k.node ] }) remote w

  -- A stopped heartbeat goroutine has ended, and a single instance has none.
  abbrev heartbeat_round : Option Control → Active → Active
  heartbeat_round none a = a
  heartbeat_round (some c) a = if a.stopped then a else beaten a (beat env c a.beating a.world)

  unfoldable pub on_event : Option Control → Event → Active → Active
  on_event c signal a = record a { canceled = true }
  on_event c beat_due a = heartbeat_round c a
  on_event c triggered a = record a { world = cycle c a.world }
  on_event c leave a = a

  -- The list's end is a moment at which the node is still active.
  unfoldable pub serve_loop : Option Control → List Event → Active → Served × Active
  unfolding on_event
  serve_loop c [] a = (serving, a)
  serve_loop c (leave ∷ es) a =
      let rest = serve_loop c es a in if a.stopped || a.canceled then (returned, a) else rest
  serve_loop c (e ∷ es) a = serve_loop c es (on_event c e a)

  abbrev pub starting : ℕ → ℕ → Bool → World → Active
  starting gen t canceled w = record {
    beating = record { gen = gen; last_renew = t; held = gen };
    stopped = false;
    canceled = canceled;
    world = w;
  }

  -- The second argument says whether the port is free.
  unfoldable pub serve_active :
      Option Control → Bool → List Event → ℕ → Bool → World → Served × Active
  unfolding serve_loop
  serve_active c listens es gen canceled w =
      if listens
      then serve_loop c es (starting gen (now env w) canceled (cycle c w))
      else (listen_failed, starting gen (now env w) canceled (log_event "http_server_failed" w))
