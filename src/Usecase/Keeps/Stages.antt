-- ===== src/Usecase/Keeps/Stages.antt =====
-- internal/usecase: pipeline.go and fanout.go do not write data_dir/lock.
use file_pubsub.Base.{
  String, ◌≡◌, refl, ◌∙◌, arith, none, some, Option, Result, ok, err, List, [], ◌∷◌, string_eq,
  pair_eq, Bool, Option-cases, inl, inr,
}
use file_pubsub.Config.{Topic, find_topic, subscription_names}
use file_pubsub.Domain.State.{MessageStatus, status_eq}
use file_pubsub.Domain.Pending.{pending_subscriptions}
use file_pubsub.Store.World.{World, Env, IsAlone, now}
use file_pubsub.Store.Manifest.{Manifest, subscription_states}
use file_pubsub.Store.ManifestStore.{list_manifests}
use file_pubsub.Store.Files.{copy_file_atomic}
use file_pubsub.Usecase.Pipeline.{
  Pipeline, Delivery, ensure_lease, place, delivered_one, deliver_one, deliver_each,
  deliver_pending, record_delivery, transition_status, record_callback, transition_callback,
}
use file_pubsub.Usecase.Fanout.{
  each_message, fanout_started, fanout_start, fanout_leased, fanout_message, fanout_listed, fanout,
}
use file_pubsub.Usecase.Keeps.{Keeps, Leaves}
use file_pubsub.Usecase.Keeps.Files.{list_manifests-Keeps, update-Keeps, holds_lease-Keeps}

module _ (env : Env) (alone : IsAlone env) (p : Pipeline) where
  pub ensure_lease-Keeps : Keeps (ensure_lease env p)
  unfolding ensure_lease
  ensure_lease-Keeps w = held p.lease
    where
      held : (l : Option _) → (ensure_lease env (record p { lease = l }) w).1.lease ≡ w.lease
      held none = refl
      held (some id) = ground (arith, holds_lease-Keeps env id.hostname id.boot_id (now env w) w)

  pub record_delivery-Keeps : (m : Manifest) (t : Topic) → Keeps (record_delivery env m t)
  unfolding record_delivery
  record_delivery-Keeps m t = update-Keeps env alone m.message_id (record_callback m t)

  pub transition_status-Keeps :
      (id : String) (from to : MessageStatus) → Keeps (transition_status env id from to)
  unfolding transition_status
  transition_status-Keeps id from to w =
      ground (arith, update-Keeps env alone id (transition_callback from to) w)

  deliver_one-Keeps :
      (t : Topic) (name : String) (d : Delivery) → (deliver_one env p t name d).2.lease ≡ d.2.lease
  unfolding deliver_one place delivered_one copy_file_atomic
  deliver_one-Keeps t name (f, m, w) = ground arith

  deliver_each-Keeps :
      (t : Topic) (names : List String) (d : Delivery)
      → (deliver_each env p t names d).2.lease ≡ d.2.lease
  unfolding deliver_each
  deliver_each-Keeps t [] d = refl
  deliver_each-Keeps t (name ∷ names) d =
      deliver_each-Keeps t names (deliver_one env p t name d) ∙ deliver_one-Keeps t name d

  pub deliver_pending-Keeps :
      (m : Manifest) (t : Topic) (w : World) → (deliver_pending env p m t w).2.lease ≡ w.lease
  unfolding deliver_pending
  deliver_pending-Keeps m t w =
      deliver_each-Keeps t
        (pending_subscriptions (subscription_states m) (subscription_names t.subscriptions))
        (0, m, w)

  pub each_message-Leaves :
      (body : Manifest → World → Bool × World)
      → ((m : Manifest) → Keeps (body m))
      → (ms : List Manifest) → Leaves (each_message env body ms)
  unfolding each_message
  each_message-Leaves body keeps [] w = refl
  each_message-Leaves body keeps (m ∷ ms) w =
      ground (arith, keeps m w, each_message-Leaves body keeps ms (body m w).1)

  fanout_start-Keeps : (m : Manifest) → Keeps (fanout_start env p m)
  unfolding fanout_start
  fanout_start-Keeps m w = ground (
    arith,
    transition_status-Keeps m.message_id MessageStatus.archived MessageStatus.delivering w,
  )

  fanout_started-Keeps :
      (m : Manifest) (t : Topic) (q : Result (Unit {0}) × World)
      → (fanout_started env p m t q).lease ≡ q.1.lease
  unfolding fanout_started
  fanout_started-Keeps m t (err e, w) = refl
  fanout_started-Keeps m t (ok _, w) =
      let sending = record m { status = MessageStatus.delivering } in
      let (failures, m', v) = deliver_pending env p sending t w in
      ground (arith, deliver_pending-Keeps sending t w, record_delivery-Keeps m' t v)

  fanout_leased-Keeps :
      (m : Manifest) (t : Topic) (q : Result (Unit {0}) × World)
      → (fanout_leased env p m t q).1.lease ≡ q.1.lease
  unfolding fanout_leased
  fanout_leased-Keeps m t (err e, w) = refl
  fanout_leased-Keeps m t (ok _, w) =
      fanout_started-Keeps m t (fanout_start env p m w) ∙ fanout_start-Keeps m w

  fanout_message-Keeps : (m : Manifest) → Keeps (fanout_message env p m)
  unfolding fanout_message
  fanout_message-Keeps m w = elim (Option-cases (find_topic p.cfg.topics m.topic)) [
    | inl e ↦ rw e (ground arith)
    | inr (t, e) ↦
        rw e (ground (arith, ensure_lease-Keeps w, fanout_leased-Keeps m t (ensure_lease env p w)))
  ]

  fanout_listed-Keeps :
      (q : Result (List Manifest) × World) → (fanout_listed env p q).lease ≡ q.1.lease
  fanout_listed-Keeps (err e, w) = refl
  fanout_listed-Keeps (ok ms, w) =
      each_message-Leaves (fanout_message env p) fanout_message-Keeps ms w

  pub fanout-Leaves : Leaves (fanout env p)
  unfolding fanout
  fanout-Leaves w = fanout_listed-Keeps (list_manifests env w) ∙ list_manifests-Keeps env w
