-- ===== src/Usecase/Fanout.antt =====
-- internal/usecase/fanout.go: archived messages are placed in their subscriptions' directories.
use file_pubsub.Base.{
  String, Bool, true, false, not, ◌||◌, none, some, List, [], ◌∷◌, ◌==◌, if◌then◌else◌, Result, ok,
  err,
}
use file_pubsub.Config.{Topic, find_topic}
use file_pubsub.Domain.State.{status_eq, archived, delivering}
use file_pubsub.Store.Manifest.{Manifest}
use file_pubsub.Store.World.{World, Env, Io, emit}
use file_pubsub.Store.ManifestStore.{list_manifests}
use file_pubsub.Usecase.Pipeline.{
  Pipeline, event, ensure_lease, transition_status, deliver_pending, record_delivery,
}

-- A loop body returns whether the loop goes on, and the world.
abbrev pub go_on : Bool × World → (World → World) → World
go_on (true, w) rest = rest w
go_on (false, w) rest = w

-- The loop over the listed manifests, which a canceled context ends.
unfoldable pub each_message :
    Env → (Manifest → World → Bool × World) → List Manifest → World → World
each_message env body [] w = w
each_message env body (m ∷ ms) w =
    let rest = λ (v : World). each_message env body ms v in
    if env.canceled w.ops then w else go_on (body m w) rest

abbrev pub logged {ℓ} : {A : Type ℓ} → String → Manifest → Result A × World → World
logged event_type m (ok _, w) = w
logged event_type m (err e, w) = emit (event m.message_id m.topic "" event_type) w

module _ (env : Env) (p : Pipeline) where
  unfoldable pub fanout_started : Manifest → Topic → Result (Unit {0}) × World → World
  fanout_started m t (err e, w) = emit (event m.message_id m.topic "" "fanout_failed") w
  fanout_started m t (ok _, w) =
      let (failures, m', w') = deliver_pending env p (record m { status = delivering }) t w in
      logged "fanout_failed" m (record_delivery env m' t w')

  -- archived → delivering is recorded before the first delivery.
  unfoldable pub fanout_start : Manifest → Io (Unit {0})
  fanout_start m w =
      if m.status == archived
      then transition_status env m.message_id archived delivering w
      else (ok tt, w)

  unfoldable pub fanout_leased : Manifest → Topic → Result (Unit {0}) × World → Bool × World
  unfolding fanout_started fanout_start
  fanout_leased m t (err e, w) = (false, emit (event m.message_id m.topic "" "lease_lost") w)
  fanout_leased m t (ok _, w) = (true, fanout_started m t (fanout_start m w))

  unfoldable pub fanout_message : Manifest → World → Bool × World
  unfolding fanout_leased
  fanout_message m w =
      if not (m.status == archived || m.status == delivering)
      then (true, w)
      else elim (find_topic p.cfg.topics m.topic) [
        | none ↦ (true, emit (event m.message_id m.topic "" "fanout_skipped") w)
        | some t ↦ fanout_leased m t (ensure_lease env p w)
      ]

  abbrev pub fanout_listed : Result (List Manifest) × World → World
  fanout_listed (err e, w) = emit (event "" "" "" "fanout_failed") w
  fanout_listed (ok ms, w) = each_message env fanout_message ms w

  unfoldable pub fanout : World → World
  unfolding fanout_message each_message
  fanout w = fanout_listed (list_manifests env w)
