-- ===== src/Usecase/Pipeline/Record.antt =====
-- internal/usecase/pipeline.go: recordDelivery and transitionStatus over the stored manifest.
use file_pubsub.Base.{
  ℕ, String, ◌≡◌, refl, ◌∙◌, sym, ap, ◌+◌, ◌≤◌, ◌||◌, any, true, none, some, List, ◌++◌, All, ltb,
  string_eq, if◌then◌else◌, arith, Result, ok, err, Error, skip_manifest_update, ◌≢◌, ◌⊎◌, inl, inr,
}
use file_pubsub.Base.Dict
use file_pubsub.Base.Dict.{get-put}
use file_pubsub.Config.{Topic, subscription_names}
use file_pubsub.Domain.State.{
  MessageStatus, SubscriptionStatus, status_eq, status_beq_iff, validate_transition, unset,
}
use file_pubsub.Store.Manifest.{
  Manifest, DeliveryEvent, last_state, subscription_states, find_subscription, merge_subscriptions,
  append_missing_events, has_event,
}
use file_pubsub.Store.Manifest.Merge.{
  settled_at, settles, met, settled_at-merge_entries, find_entry-merge_entries,
  settled-merge_subscriptions,
}
use file_pubsub.Store.Manifest.Events.{append_missing_events_lem}
use file_pubsub.Store.World.{World, Env, IsAlone}
use file_pubsub.Store.ManifestStore.Frame.{but_locks}
use file_pubsub.Store.Update.{update, bump}
use file_pubsub.Store.Update.Outcome.{Outcome, stored, update_lem}
use file_pubsub.Usecase.Pipeline.{
  settle, record_callback, transition_callback, record_delivery, transition_status, forget,
}
use file_pubsub.Usecase.Pipeline.Settle.{settle_lem, status_of}

-- The manifest that recordDelivery settles.
abbrev merged : Manifest → Manifest → Manifest
merged m base =
    let merged = append_missing_events (merge_subscriptions base m) m.delivery_events in
    if ltb base.retry_count m.retry_count
    then record merged { retry_count = m.retry_count }
    else merged

record_callback-merged :
    (m base : Manifest) (topic : Topic) (t : ℕ)
    → record_callback m topic t base ≡ ok (settle t topic (merged m base))
unfolding record_callback
record_callback-merged m base topic t = refl

subscriptions-merged :
    (m base : Manifest) → (merged m base).subscriptions ≡ (merge_subscriptions base m).subscriptions
unfolding append_missing_events
subscriptions-merged m base = ground arith

-- What holds of the stored manifest `m'` after a writer recorded its manifest `m` over `base`.
pub record Recorded (m base m' : Manifest) : Type 0 where
  pub settled_kept :
      (n : String)
      → settled_at n base.subscriptions ≡ true
      → find_subscription m' n ≡ find_subscription base n
  pub entries_merged :
      (n : String) → find_subscription m' n ≡ met n (find_subscription base n) m.subscriptions
  pub settled_taken :
      (n : String)
      → settled_at n m'.subscriptions
        ≡ (settled_at n base.subscriptions || any (settles n) m.subscriptions)
  pub log_extended :
      (more : List DeliveryEvent) × (m'.delivery_events ≡ base.delivery_events ++ more)
  pub events_recorded : All (λ e. has_event e m'.delivery_events ≡ true) m.delivery_events
  pub retries_kept : base.retry_count ≤ m'.retry_count
  pub retries_taken : m.retry_count ≤ m'.retry_count
  pub revision_advanced : m'.revision ≡ base.revision + 1

-- The fields that `settle` and the revision leave alone.
record SameRecord (a b : Manifest) : Type 0 where
  subscriptions : b.subscriptions ≡ a.subscriptions
  delivery_events : b.delivery_events ≡ a.delivery_events
  retry_count : b.retry_count ≡ a.retry_count

SameRecord-settle :
    (base m : Manifest) (topic : Topic) (t : ℕ) → SameRecord m (bump base (settle t topic m))
SameRecord-settle base m topic t =
    let same = (settle_lem t topic m).2 in
    record {
      subscriptions = ap (λ (x : Manifest). x.subscriptions) same;
      delivery_events = ap (λ (x : Manifest). x.delivery_events) same;
      retry_count = ap (λ (x : Manifest). x.retry_count) same;
    }

find_subscription-merged :
    (m base m' : Manifest) (n : String)
    → m'.subscriptions ≡ (merged m base).subscriptions
    → settled_at n base.subscriptions ≡ true
    → find_subscription m' n ≡ find_subscription base n
unfolding find_subscription
find_subscription-merged m base m' n e h =
    rw (e, subscriptions-merged m base)
      (unfold find_subscription in settled-merge_subscriptions base m n h)

entries-merged :
    (m base m' : Manifest) (n : String)
    → m'.subscriptions ≡ (merged m base).subscriptions
    → find_subscription m' n ≡ met n (find_subscription base n) m.subscriptions
unfolding find_subscription merge_subscriptions
entries-merged m base m' n e =
    rw (e, subscriptions-merged m base)
      (find_entry-merge_entries base.subscriptions m.subscriptions n)

settled-merged :
    (m base m' : Manifest) (n : String)
    → m'.subscriptions ≡ (merged m base).subscriptions
    → settled_at n m'.subscriptions
      ≡ (settled_at n base.subscriptions || any (settles n) m.subscriptions)
unfolding merge_subscriptions
settled-merged m base m' n e =
    rw (e, subscriptions-merged m base)
      (settled_at-merge_entries base.subscriptions m.subscriptions n)

events-merged :
    (m base : Manifest)
    → (merged m base).delivery_events
      ≡ (append_missing_events (merge_subscriptions base m) m.delivery_events).delivery_events
events-merged m base = ground arith

base_events :
    (m base : Manifest) → (merge_subscriptions base m).delivery_events ≡ base.delivery_events
unfolding merge_subscriptions
base_events m base = refl

retries-merged :
    (m base : Manifest)
    → (base.retry_count ≤ (merged m base).retry_count)
      × (m.retry_count ≤ (merged m base).retry_count)
unfolding append_missing_events merge_subscriptions
retries-merged m base = ground arith

Recorded-callback :
    (m base : Manifest) (topic : Topic) (t : ℕ)
    → Recorded m base (bump base (settle t topic (merged m base)))
Recorded-callback m base topic t =
    let same = SameRecord-settle base (merged m base) topic t in
    let log = append_missing_events_lem (merge_subscriptions base m) m.delivery_events in
    let events = same.delivery_events ∙ events-merged m base in
    let retries = retries-merged m base in
    record {
      settled_kept = λ n h. find_subscription-merged m base _ n same.subscriptions h;
      entries_merged = λ n.
          entries-merged m base (bump base (settle t topic (merged m base))) n same.subscriptions;
      settled_taken = λ n.
          settled-merged m base (bump base (settle t topic (merged m base))) n same.subscriptions;
      log_extended = (log.0, events ∙ log.1 ∙ ap (λ es. es ++ log.0) (base_events m base));
      events_recorded = rw events log.2;
      retries_kept = rw same.retry_count retries.0;
      retries_taken = rw same.retry_count retries.1;
      revision_advanced = refl;
    }

pub states_eq :
    (a b : Manifest)
    → a.subscriptions ≡ b.subscriptions
    → subscription_states a ≡ subscription_states b
unfolding subscription_states
states_eq a b e = ap (last_state unset) e

merged_status : (m base : Manifest) → (merged m base).status ≡ base.status
unfolding append_missing_events merge_subscriptions
merged_status m base = ground arith

status-merged :
    (m base : Manifest) (topic : Topic) (t : ℕ)
    → let m' = bump base (settle t topic (merged m base)) in
      m'.status
      ≡ status_of (subscription_names topic.subscriptions) (subscription_states m') base.status
status-merged m base topic t =
    let same = SameRecord-settle base (merged m base) topic t in
    let names = subscription_names topic.subscriptions in
    (settle_lem t topic (merged m base)).0
    ∙ ap (λ (s : MessageStatus). status_of names (subscription_states (merged m base)) s)
        (merged_status m base)
    ∙ ap (λ (states : String → SubscriptionStatus). status_of names states base.status)
        (sym (
          states_eq (bump base (settle t topic (merged m base))) (merged m base)
            same.subscriptions))

validate_ne_skip :
    (from to : MessageStatus) → validate_transition from to ≢ some skip_manifest_update
unfolding validate_transition
validate_ne_skip from to h = ground arith

callback_skip :
    (from to : MessageStatus) (t : ℕ) (base : Manifest)
    → transition_callback from to t base ≡ err skip_manifest_update
    → base.status ≢ from
unfolding transition_callback
callback_skip from to t base h e =
    ground (arith, status_beq_iff base.status from, validate_ne_skip base.status to)

callback_change :
    (from to : MessageStatus) (t : ℕ) (base m : Manifest)
    → transition_callback from to t base ≡ ok m
    → (base.status ≡ from)
      × (validate_transition from to ≡ none)
      × (m ≡ record base { status = to })
unfolding transition_callback
callback_change from to t base m h = ground (arith, status_beq_iff base.status from)

-- What recordDelivery may return and leave behind.
pub data DeliverySpec (m : Manifest) (topic : Topic) (w : World) (r : Result Manifest) (w' : World)
    : Type 0 where
  refused : (e : Error) → r ≡ err e → but_locks w' ≡ but_locks w → DeliverySpec m topic w r w'
  recorded :
      (base m' : Manifest)
      → Dict.get w.manifests m.message_id ≡ some base
      → r ≡ ok m'
      → Recorded m base m'
      → m'.status
        ≡ status_of (subscription_names topic.subscriptions) (subscription_states m') base.status
      → but_locks w' ≡ but_locks (stored m.message_id m' w)
      → DeliverySpec m topic w r w'

module _ (env : Env) (alone : IsAlone env) where
  -- With one process running, and whatever access fails, recordDelivery changes no file but locks,
  -- or it stores a manifest in which every delivered or isolated subscription of the stored one
  -- keeps its entry, every other one has given way to the writer's entries of its name, in their order
  -- up to a settled one, so that a name is settled exactly when it was stored or written as settled,
  -- the stored log stays as a prefix and
  -- holds the writer's events too, the retry count is at least both, the revision is the next, and
  -- the status is that of its subscriptions.
  pub record_delivery_lem :
      (m : Manifest) (topic : Topic) (w : World)
      → let (r, w') = record_delivery env m topic w in DeliverySpec m topic w r w'
  unfolding record_delivery
  record_delivery_lem m topic w =
      let (r, w') = update env m.message_id (record_callback m topic) w in
      spec r w' (update_lem env alone m.message_id (record_callback m topic) w)
    where
      spec :
          (r : Result Manifest) (w' : World)
          → Outcome m.message_id (record_callback m topic) w r w'
          → DeliverySpec m topic w r w'
      spec r w' (Outcome.failed e f same) = DeliverySpec.refused e f same
      spec r w' (Outcome.skipped t base h f g same) =
          absurd (cc (record_callback-merged m base topic t))
      spec r w' (Outcome.committed t base m' h f g same) =
          let e : m' ≡ settle t topic (merged m base) =
            cc (record_callback-merged m base topic t) in
          DeliverySpec.recorded base (bump base m') h g (rw e (Recorded-callback m base topic t))
            (rw e (status-merged m base topic t)) same

  -- What transitionStatus may return and leave behind.
  abbrev pub TransitionSpec :
      String → MessageStatus → MessageStatus → World → Result (Unit {0}) → World → Type 0
  TransitionSpec id from to w (err e) w' = but_locks w' ≡ but_locks w
  TransitionSpec id from to w (ok _) w' =
      (base : Manifest) × (Dict.get w.manifests id ≡ some base)
      × (((base.status ≢ from) × (but_locks w' ≡ but_locks w))
          ⊎ ((base.status ≡ from)
              × (validate_transition from to ≡ none)
              × (but_locks w'
                  ≡ but_locks
                      (stored id (record base { status = to; revision = base.revision + 1 }) w))))

  -- With one process running, and whatever access fails, transitionStatus changes no file but locks
  -- when it returns an error or when the stored status is not `from`; otherwise the transition is a
  -- permitted one and the stored manifest gets status `to` and the next revision, and nothing else.
  pub transition_status_lem :
      (id : String) (from to : MessageStatus) (w : World)
      → let (r, w') = transition_status env id from to w in TransitionSpec id from to w r w'
  unfolding transition_status
  transition_status_lem id from to w =
      let (r, w') = update env id (transition_callback from to) w in
      spec r w' (update_lem env alone id (transition_callback from to) w)
    where
      skip :
          (t : ℕ) (base : Manifest)
          → transition_callback from to t base ≡ err skip_manifest_update
          → base.status ≢ from
      skip t base h = callback_skip from to t base h

      change :
          (t : ℕ) (base m : Manifest)
          → transition_callback from to t base ≡ ok m
          → (base.status ≡ from)
            × (validate_transition from to ≡ none)
            × (m ≡ record base { status = to })
      change t base m h = callback_change from to t base m h

      spec :
          (r : Result Manifest) (w' : World)
          → Outcome id (transition_callback from to) w r w'
          → TransitionSpec id from to w (forget (r, w')).0 (forget (r, w')).1
      spec r w' (Outcome.failed e f same) = rw f same
      spec r w' (Outcome.skipped t base h f g same) = rw g (base, h, inl (skip t base f, same))
      spec r w' (Outcome.committed t base m h f g same) =
          let (s, v, e) = change t base m f in
          rw g (
            base,
            h,
            inr (s, v, same ∙ ap (λ (x : Manifest). but_locks (stored id (bump base x) w)) e),
          )
