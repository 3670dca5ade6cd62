-- ===== src/Usecase/Pipeline/Placing.antt =====
-- internal/usecase/pipeline.go: one round of the loop in deliverPending.
use file_pubsub.Base.{
  ℕ, suc, String, ◌≡◌, ◌≢◌, refl, ◌∙◌, sym, Option, none, some, ◌==◌, string_eq, pair_eq, eq_iff,
  if◌then◌else◌, arith, Result, ok, err, beq_refl, Bool-cases, ◌⊎◌, inl, inr,
}
use file_pubsub.Base.Dict
use file_pubsub.Base.Dict.{get-put, get-put_self}
use file_pubsub.Config.{Topic, Subscription, find_subscription}
use file_pubsub.Domain.State.{SubscriptionStatus, delivered, failed}
use file_pubsub.Store.Manifest.{
  Manifest, SubscriptionDelivery, DeliveryEvent, set_subscription_state, append_event,
  subscription_states,
}
use file_pubsub.Store.Manifest as Manifests
use file_pubsub.Store.Manifest.States.{find_entry-set_entry}
use file_pubsub.Store.World.{World, Env, Bytes}
use file_pubsub.Usecase.Pipeline.{Pipeline, Delivery, deliver_one, place, delivered_one}

abbrev pub entry_of : Manifest → String → Option SubscriptionDelivery
entry_of m n = Manifests.find_subscription m n

-- The payload of a message in the archive.
abbrev pub payload : Manifest → World → Option Bytes
payload m w = Dict.get w.archive (m.topic, m.message_id)

-- What lies in a subscription's directory under the message's file name.
abbrev pub placed_at : Manifest → Subscription → World → Option Bytes
placed_at m sub w = Dict.get w.placed (sub.directory, m.original_file_name)

-- The parts of a message that a delivery reads.
abbrev pub SameMessage : Manifest → Manifest → Type 0
SameMessage m m' =
    (m'.message_id ≡ m.message_id)
    × (m'.topic ≡ m.topic)
    × (m'.original_file_name ≡ m.original_file_name)

-- What a status says agrees with a directory that holds `file`: delivered means that the payload
-- lies there, and otherwise the status is failed.
abbrev pub IsHonest : Option Bytes → Option Bytes → SubscriptionStatus → Type 0
IsHonest payload file delivered = (file ≡ payload) × (payload ≢ none)
IsHonest payload file failed = Unit
IsHonest payload file _ = ⊥

abbrev pub EntryIsHonest : Option Bytes → Option Bytes → Option SubscriptionDelivery → Type 0
EntryIsHonest payload file none = ⊥
EntryIsHonest payload file (some s) = IsHonest payload file s.status

entry_of-set :
    (m : Manifest) (name : String) (status : SubscriptionStatus) (t : Option ℕ) (e j : String)
    (ev : DeliveryEvent)
    → entry_of (append_event (set_subscription_state m name status t e) ev) j ≡ (
        if name == j
        then some
            (record { subscription = name; status = status; delivered_at = t; last_error = e })
        else entry_of m j)
unfolding Manifests.find_subscription set_subscription_state append_event
entry_of-set m name status t e j ev = find_entry-set_entry _ m.subscriptions j

pub entry_of-set_self :
    (m : Manifest) (name : String) (status : SubscriptionStatus) (t : Option ℕ) (e : String)
    (ev : DeliveryEvent)
    → entry_of (append_event (set_subscription_state m name status t e) ev) name
      ≡ some (record { subscription = name; status = status; delivered_at = t; last_error = e })
entry_of-set_self m name status t e ev =
    ground (arith, entry_of-set m name status t e name ev, beq_refl name)

module _ (env : Env) (m : Manifest) (sub : Subscription) (w : World) where
  pub place_frame :
      let (r, v) = place env m sub w in v ≡ record w { placed = v.placed; ops = suc w.ops }
  unfolding place
  place_frame = ground arith

  -- A copy fails and leaves the directory as it was, or puts the payload there.
  abbrev PlaceSpec : Result (Unit {0}) → World → Type 0
  PlaceSpec (err e) v = v.placed ≡ w.placed
  PlaceSpec (ok _) v =
      (content : Bytes) × (payload m w ≡ some content)
      × (v.placed ≡ Dict.put w.placed (sub.directory, m.original_file_name) content)

  place_lem : let (r, v) = place env m sub w in PlaceSpec r v
  unfolding place
  place_lem = placed (payload m w) refl
    where
      placed :
          (o : Option Bytes) → payload m w ≡ o → let (r, v) = place env m sub w in PlaceSpec r v
      placed none e = rw e refl
      placed (some content) e = elim (Bool-cases (env.fault w.ops)) [
        | inl bad ↦ rw (e, bad) refl
        | inr fine ↦ rw (e, fine) (content, e, refl)
      ]

module _ (env : Env) (p : Pipeline) (name : String) (f : ℕ) (m : Manifest) where
  abbrev pub written : Result (Unit {0}) × World → Delivery
  written r = delivered_one env p name f m r

  pub written_frame :
      (r : Result (Unit {0})) (v : World)
      → SameMessage m (written (r, v)).1
        × ((written (r, v)).2.archive ≡ v.archive)
        × ((written (r, v)).2.placed ≡ v.placed)
  unfolding delivered_one set_subscription_state append_event
  written_frame r v = ground arith

  pub written_entry_ne :
      (r : Result (Unit {0})) (v : World) (j : String)
      → name ≢ j
      → entry_of (written (r, v)).1 j ≡ entry_of m j
  unfolding delivered_one
  written_entry_ne (ok _) v j ne = rw entry_of-set (ground (arith, eq_iff name j))
  written_entry_ne (err e) v j ne = rw entry_of-set (ground (arith, eq_iff name j))

  -- The status that an outcome writes.
  abbrev outcome_status : Result (Unit {0}) → SubscriptionStatus
  outcome_status (ok _) = delivered
  outcome_status (err _) = failed

  written_entry_self :
      (r : Result (Unit {0})) (v : World)
      → (s : SubscriptionDelivery) × (entry_of (written (r, v)).1 name ≡ some s)
        × (s.status ≡ outcome_status r)
  unfolding delivered_one
  written_entry_self (ok _) v = (_, entry_of-set_self m name delivered _ "" _, refl)
  written_entry_self (err e) v = (_, entry_of-set_self m name failed none _ _, refl)

  module _ (topic : Topic) (w : World) (sub : Subscription)
      (found : find_subscription topic.subscriptions name ≡ some sub) where
    pub one_written : deliver_one env p topic name (f, m, w) ≡ written (place env m sub w)
    unfolding deliver_one
    one_written = rw (found, deliver_one) refl

    pub one_placed :
        (key : String × String)
        → let file = Dict.get (deliver_one env p topic name (f, m, w)).2.placed key in
          (file ≡ Dict.get w.placed key) ⊎ ((file ≡ payload m w) × (payload m w ≢ none))
    one_placed key = rw one_written (
        rw ((written_frame (place env m sub w).0 (place env m sub w).1).2)
          (cases (place env m sub w).0 (place env m sub w).1 (place_lem env m sub w)))
      where
        cases :
            (r : Result (Unit {0})) (v : World)
            → PlaceSpec env m sub w r v
            → (Dict.get v.placed key ≡ Dict.get w.placed key)
              ⊎ ((Dict.get v.placed key ≡ payload m w) × (payload m w ≢ none))
        cases (err e) v h = inl (rw h refl)
        cases (ok _) v (content, e, h) =
            ground (arith, get-put w.placed (sub.directory, m.original_file_name) key content)

    pub one_honest :
        let (f', m', w') = deliver_one env p topic name (f, m, w) in
        EntryIsHonest (payload m w) (placed_at m sub w') (entry_of m' name)
    one_honest = rw one_written (
        rw ((written_frame (place env m sub w).0 (place env m sub w).1).2)
          (cases (place env m sub w).0 (place env m sub w).1 (place_lem env m sub w)))
      where
        cases :
            (r : Result (Unit {0})) (v : World)
            → PlaceSpec env m sub w r v
            → EntryIsHonest (payload m w) (placed_at m sub v) (entry_of (written (r, v)).1 name)
        cases (err e) v h = let (s, e₁, e₂) = written_entry_self (err e) v in rw e₁ (rw e₂ tt)
        cases (ok _) v (content, e, h) =
            let (s, e₁, e₂) = written_entry_self (ok tt) v in
            rw e₁ (
              rw e₂ (
                rw h (get-put_self w.placed (sub.directory, m.original_file_name) content ∙ sym e),
                λ missing. cc,
              ))

-- The entry of subscription `j` is honest about its directory.
abbrev pub Honest : Subscription → String → Delivery → Type 0
Honest sub j (f, m, w) = EntryIsHonest (payload m w) (placed_at m sub w) (entry_of m j)
