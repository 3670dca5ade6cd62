-- ===== src/Runtime/Active/Firm.antt =====
-- internal/runtime/daemon.go: an active phase that nothing disturbs.
use file_pubsub.Base.{
  ℕ, suc, ◌+◌, String, ◌≡◌, refl, subst, arith, Bool, true, false, Option, none, some, List, [],
  ◌∷◌, nat_eq, string_eq, beq_refl, leb, ok, Bool-cases, Option-cases, inl, inr,
}
use file_pubsub.Config.{Source}
use file_pubsub.Source.{Connector}
use file_pubsub.Store.World.{World, Env, LockRecord, IsAlone, IsHealthy, now, next}
use file_pubsub.Store.Lease.{heartbeat, check_generation, read_lock}
use file_pubsub.Store.Lease.Ownership.{names, renew}
use file_pubsub.Usecase.Pipeline.{Pipeline}
use file_pubsub.Usecase.Keeps.{IsApart}
use file_pubsub.Runtime.Heartbeat.{Control, beat}
use file_pubsub.Runtime.Active.{
  Event, signal, beat_due, triggered, leave, Active, Served, listen_failed, returned, serving,
  on_event, serve_loop, serve_active,
}
use file_pubsub.Runtime.Active.Held.{cycle-Leaves}

names-renew :
    (host boot : String) (g t : ℕ) (lease : Option LockRecord)
    → names host boot g lease ≡ true
    → names host boot (g + 1) (renew t (g + 1) lease) ≡ true
names-renew host boot g t none h = absurd (ground (arith, h))
names-renew host boot g t (some rec) h = ground (arith, h, beq_refl (g + 1))

module _ (env : Env) (alone : IsAlone env) (healthy : IsHealthy env) where
  -- Nothing keeps an undisturbed node from renewing its own lease.
  heartbeat-IsHealthy :
      (host boot : String) (g t : ℕ) (w : World)
      → names host boot g w.lease ≡ true
      → let (r, w') = heartbeat env host boot g t w in
        (r ≡ ok (g + 1)) × (w'.lease ≡ renew t (g + 1) w.lease)
  unfolding heartbeat check_generation read_lock
  heartbeat-IsHealthy host boot g t w h = elim (Option-cases w.lease) [
    | inl e ↦ absurd (ground (arith, h, e))
    | inr (rec, e) ↦ ground (
      arith,
      e,
      h,
      healthy.works w.ops,
      healthy.works (suc w.ops),
      healthy.works (suc (suc w.ops)),
      healthy.works (suc (suc (suc w.ops))),
      alone.quiet (suc (suc w.ops)) (next (next w)),
    )
  ]

  module _ (p : Pipeline) (remote : Source → Connector) (apart : (s : Source) → IsApart (remote s))
      (c : Control) where
    -- The node is active, and knows the generation under which the lock file names it.
    abbrev pub IsFirm : Active → Type 0
    IsFirm a =
        (a.stopped ≡ false)
        × (a.beating.held ≡ a.beating.gen)
        × (names c.node.hostname c.node.boot_id a.beating.held a.world.lease ≡ true)
        × (leb a.beating.held 0 ≡ false)

    beat-IsFirm :
        (a : Active) (w : World)
        → IsFirm (record a { world = w })
        → let (goes_on, b, v) = beat env c a.beating w in
          (goes_on ≡ true) × IsFirm (record a { beating = b; world = v })
    unfolding beat
    beat-IsFirm a w (on, same, mine, some_gen) =
        let t = now env w in
        let g = a.beating.gen in
        let mine_gen =
          subst (λ n. names c.node.hostname c.node.boot_id n w.lease ≡ true) same mine in
        let (e, l) = heartbeat-IsHealthy c.node.hostname c.node.boot_id g t w mine_gen in
        rw e (
          refl,
          (
            on,
            refl,
            rw l (names-renew c.node.hostname c.node.boot_id g t w.lease mine_gen),
            ground arith,
          ),
        )

    on_event-IsFirm :
        (e : Event) (a : Active) → IsFirm a → IsFirm (on_event env p remote (some c) e a)
    unfolding on_event
    on_event-IsFirm signal a h = h
    on_event-IsFirm beat_due a h = ground (arith, h, beat-IsFirm a a.world h)
    on_event-IsFirm triggered a (on, same, mine, some_gen) =
        (on, same, rw (cycle-Leaves env alone p remote apart (some c) a.world) mine, some_gen)
    on_event-IsFirm leave a h = h

    -- When the loop returns, a signal has come.
    abbrev pub Loop : Served × Active → Type 0
    Loop (serving, a) = IsFirm a
    Loop (returned, a) = IsFirm a × (a.canceled ≡ true)
    Loop (listen_failed, a) = IsFirm a

    serve_loop-Loop :
        (es : List Event) (a : Active) → IsFirm a → Loop (serve_loop env p remote (some c) es a)
    unfolding serve_loop
    serve_loop-Loop [] a h = h
    serve_loop-Loop (signal ∷ es) a h = serve_loop-Loop es _ (on_event-IsFirm signal a h)
    serve_loop-Loop (beat_due ∷ es) a h = serve_loop-Loop es _ (on_event-IsFirm beat_due a h)
    serve_loop-Loop (triggered ∷ es) a h = serve_loop-Loop es _ (on_event-IsFirm triggered a h)
    serve_loop-Loop (leave ∷ es) a (on, same, mine, some_gen) = elim (Bool-cases a.canceled) [
      | inl e ↦ rw (on, e) ((refl, same, mine, some_gen), refl)
      | inr e ↦ simp (on, e) (serve_loop-Loop es a (on, same, mine, some_gen))
    ]

    pub serve_active-Loop :
        (listens : Bool) (es : List Event) (gen : ℕ) (canceled : Bool) (w : World)
        → names c.node.hostname c.node.boot_id gen w.lease ≡ true
        → leb gen 0 ≡ false
        → Loop (serve_active env p remote (some c) listens es gen canceled w)
    unfolding serve_active
    serve_active-Loop true es gen canceled w h k =
        serve_loop-Loop es _
          (refl, refl, rw (cycle-Leaves env alone p remote apart (some c) w) h, k)
    serve_active-Loop false es gen canceled w h k = (refl, refl, h, k)
