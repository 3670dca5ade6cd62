-- ===== src/Store/Manifest/Events.antt =====
-- internal/gateway/store/manifest.go: AppendMissingEvents on the audit log.
use file_pubsub.Base.{
  ◌≡◌, refl, true, ◌&&◌, ◌||◌, not, List, [], ◌∷◌, ◌++◌, nat_eq, string_eq, eq_iff, if◌then◌else◌,
  arith, All, ap,
}
use mathlib.Core.List.{append_assoc, append-nil}
use file_pubsub.Store.Manifest.{
  DeliveryEvent, Manifest, same_event, has_event, add_missing, append_missing_events,
}

has_event-append :
    (e : DeliveryEvent) (xs ys : List DeliveryEvent)
    → has_event e (xs ++ ys) ≡ (has_event e xs || has_event e ys)
has_event-append e [] ys = refl
has_event-append e (x ∷ xs) ys = ground (arith, has_event-append e xs ys)

same_event_refl : (e : DeliveryEvent) → same_event e e ≡ true
same_event_refl e = ground (
  arith,
  eq_iff e.subscription e.subscription,
  eq_iff e.event_type e.event_type,
  eq_iff e.detail e.detail,
)

add_one : List DeliveryEvent → DeliveryEvent → List DeliveryEvent
add_one present e = if has_event e present then present else present ++ e ∷ []

has_event-add_one :
    (present : List DeliveryEvent) (e d : DeliveryEvent)
    → has_event d (add_one present e)
      ≡ (has_event d present || (not (has_event e present) && same_event e d))
unfolding add_one
has_event-add_one present e d = ground (arith, has_event-append d present (e ∷ []))

has_event-add_one_self :
    (present : List DeliveryEvent) (e : DeliveryEvent) → has_event e (add_one present e) ≡ true
has_event-add_one_self present e = ground (arith, has_event-add_one present e e, same_event_refl e)

keeps-add_missing :
    (present events : List DeliveryEvent) (d : DeliveryEvent)
    → has_event d present ≡ true
    → has_event d (add_missing present events) ≡ true
unfolding add_missing add_one
keeps-add_missing present [] d h = h
keeps-add_missing present (e ∷ events) d h =
    keeps-add_missing (add_one present e) events d (rw (has_event-add_one present e d) (rw h))

-- The events of the update that the log does not hold yet, each once.
abbrev fresh : List DeliveryEvent → List DeliveryEvent → List DeliveryEvent
fresh present [] = []
fresh present (e ∷ events) =
    let old = fresh present events in
    let new = fresh (present ++ e ∷ []) events in if has_event e present then old else e ∷ new

add_missing-eq-append :
    (present events : List DeliveryEvent)
    → add_missing present events ≡ present ++ fresh present events
unfolding add_missing
add_missing-eq-append present [] = rw append-nil
add_missing-eq-append present (e ∷ events) = ground (
  arith,
  add_missing-eq-append present events,
  add_missing-eq-append (present ++ e ∷ []) events,
  append_assoc present (e ∷ []) (fresh (present ++ e ∷ []) events),
)

add_missing-All :
    (present events : List DeliveryEvent)
    → All (λ e. has_event e (add_missing present events) ≡ true) events
unfolding add_missing add_one
add_missing-All present [] = tt
add_missing-All present (e ∷ events) = (
  keeps-add_missing (add_one present e) events e (has_event-add_one_self present e),
  add_missing-All (add_one present e) events,
)

add_missing_present :
    (present events : List DeliveryEvent)
    → All (λ e. has_event e present ≡ true) events
    → add_missing present events ≡ present
unfolding add_missing
add_missing_present present [] h = refl
add_missing_present present (e ∷ events) h = rw h.0 (add_missing_present present events h.1)

-- Appending a writer's events keeps the log as a prefix, leaves every event of the writer in the
-- log, and changes nothing when it is done a second time.
pub append_missing_events_lem :
    (m : Manifest) (events : List DeliveryEvent)
    → let m' = append_missing_events m events in
      (more : List DeliveryEvent) × (m'.delivery_events ≡ m.delivery_events ++ more)
      × All (λ e. has_event e m'.delivery_events ≡ true) events
      × (append_missing_events m' events ≡ m')
unfolding append_missing_events
append_missing_events_lem m events = (
  fresh m.delivery_events events,
  add_missing-eq-append m.delivery_events events,
  add_missing-All m.delivery_events events,
  ap (λ (es : List DeliveryEvent). record m { delivery_events = es })
      (add_missing_present (add_missing m.delivery_events events) events
        (add_missing-All m.delivery_events events)),
)
