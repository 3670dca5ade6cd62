-- ===== src/Store/Manifest/Merge.antt =====
-- internal/gateway/store/manifest.go: mergeSubscriptions and what is settled.
use file_pubsub.Base.{
  String, ◌≡◌, refl, Bool, true, ◌&&◌, ◌||◌, some, List, [], ◌∷◌, ◌==◌, string_eq, eq_iff,
  if◌then◌else◌, any, arith, ap, Option, ◌∙◌,
}
use file_pubsub.Store.Manifest.{
  SubscriptionDelivery, Manifest, find_entry, find_subscription, merge_entry, merge_entries,
  merge_subscriptions, is_settled, settled_entry,
}
use file_pubsub.Store.Manifest.States.{find_entry-set_entry}

find_entry-merge_entry :
    (base : List SubscriptionDelivery) (u : SubscriptionDelivery) (n : String)
    → find_entry (merge_entry base u) n ≡ (
        if settled_entry (find_entry base u.subscription)
        then find_entry base n
        else if u.subscription == n
        then some u
        else find_entry base n)
unfolding merge_entry
find_entry-merge_entry base u n = ground (arith, find_entry-set_entry u base n)

-- Whether subscription `n` is delivered or isolated.
abbrev pub settled_at : String → List SubscriptionDelivery → Bool
settled_at n xs = settled_entry (find_entry xs n)

abbrev pub settles : String → SubscriptionDelivery → Bool
settles n u = u.subscription == n && is_settled u.status

settled_at-merge_entry :
    (base : List SubscriptionDelivery) (u : SubscriptionDelivery) (n : String)
    → settled_at n (merge_entry base u) ≡ (settled_at n base || settles n u)
settled_at-merge_entry base u n =
    rw (find_entry-merge_entry base u n) (ground (arith, eq_iff u.subscription n))

pub settled_at-merge_entries :
    (base upd : List SubscriptionDelivery) (n : String)
    → settled_at n (merge_entries base upd) ≡ (settled_at n base || any (settles n) upd)
unfolding merge_entries
settled_at-merge_entries base [] n = ground arith
settled_at-merge_entries base (u ∷ upd) n =
    ground
      (arith, settled_at-merge_entries (merge_entry base u) upd n, settled_at-merge_entry base u n)

kept-merge_entry :
    (base : List SubscriptionDelivery) (u : SubscriptionDelivery) (n : String)
    → settled_at n base ≡ true
    → find_entry (merge_entry base u) n ≡ find_entry base n
kept-merge_entry base u n h =
    rw (find_entry-merge_entry base u n) (ground (arith, eq_iff u.subscription n))

kept-merge_entries :
    (base upd : List SubscriptionDelivery) (n : String)
    → settled_at n base ≡ true
    → find_entry (merge_entries base upd) n ≡ find_entry base n
unfolding merge_entries
kept-merge_entries base [] n h = refl
kept-merge_entries base (u ∷ upd) n h =
    let step = kept-merge_entry base u n h in
    kept-merge_entries (merge_entry base u) upd n (rw step h) ∙ step

-- The entry of subscription `n` after one that is stored meets those of an update one by one: a
-- settled entry stays, and any other gives way to each entry of the name.
abbrev pub met :
    String → Option SubscriptionDelivery → List SubscriptionDelivery → Option SubscriptionDelivery
met n cur [] = cur
met n cur (u ∷ us) =
    met n (if settled_entry cur then cur else if u.subscription == n then some u else cur) us

find_entry-met :
    (base : List SubscriptionDelivery) (u : SubscriptionDelivery) (n : String)
    → find_entry (merge_entry base u) n ≡ (
        if settled_entry (find_entry base n)
        then find_entry base n
        else if u.subscription == n
        then some u
        else find_entry base n)
find_entry-met base u n =
    rw (find_entry-merge_entry base u n) (ground (arith, eq_iff u.subscription n))

pub find_entry-merge_entries :
    (base upd : List SubscriptionDelivery) (n : String)
    → find_entry (merge_entries base upd) n ≡ met n (find_entry base n) upd
unfolding merge_entries
find_entry-merge_entries base [] n = refl
find_entry-merge_entries base (u ∷ upd) n =
    find_entry-merge_entries (merge_entry base u) upd n
    ∙ ap (λ e. met n e upd) (find_entry-met base u n)

-- A delivered or isolated subscription keeps its whole entry through a merge with any update.
pub settled-merge_subscriptions :
    (base upd : Manifest) (n : String)
    → settled_at n base.subscriptions ≡ true
    → find_subscription (merge_subscriptions base upd) n ≡ find_subscription base n
unfolding merge_subscriptions find_subscription
settled-merge_subscriptions base upd n h =
    kept-merge_entries base.subscriptions upd.subscriptions n h

-- Two writers that merge into one record leave the same subscriptions settled in either order.
pub settled_merge_comm :
    (base a b : Manifest) (n : String)
    → settled_at n (merge_subscriptions (merge_subscriptions base a) b).subscriptions
      ≡ settled_at n (merge_subscriptions (merge_subscriptions base b) a).subscriptions
unfolding merge_subscriptions
settled_merge_comm base a b n = ground (
  arith,
  settled_at-merge_entries (merge_entries base.subscriptions a.subscriptions) b.subscriptions n,
  settled_at-merge_entries base.subscriptions a.subscriptions n,
  settled_at-merge_entries (merge_entries base.subscriptions b.subscriptions) a.subscriptions n,
  settled_at-merge_entries base.subscriptions b.subscriptions n,
)
