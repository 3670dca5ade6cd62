-- ===== src/Store/Manifest/States.antt =====
-- internal/gateway/store/manifest.go: the state of each subscription after SetSubscriptionState.
use file_pubsub.Base.{
  String, ◌≡◌, refl, false, ◌||◌, Option, none, some, List, [], ◌∷◌, ◌==◌, string_eq, eq_iff,
  if◌then◌else◌, contains, arith, IsUnique,
}
use file_pubsub.Domain.State.{SubscriptionStatus, unset}
use file_pubsub.Store.Manifest.{
  SubscriptionDelivery, Manifest, set_entry, last_state, find_entry, subscription_states,
  find_subscription, merge_entry, merge_entries,
}

pub find_entry-set_entry :
    (s : SubscriptionDelivery) (xs : List SubscriptionDelivery) (j : String)
    → find_entry (set_entry s xs) j ≡ (if s.subscription == j then some s else find_entry xs j)
unfolding find_entry set_entry
find_entry-set_entry s [] j = refl
find_entry-set_entry s (x ∷ xs) j = ground (
  arith,
  eq_iff x.subscription s.subscription,
  eq_iff x.subscription j,
  eq_iff s.subscription j,
  find_entry-set_entry s xs j,
)

abbrev pub names : List SubscriptionDelivery → List String
names [] = []
names (x ∷ xs) = x.subscription ∷ names xs

contains-set_entry :
    (s : SubscriptionDelivery) (xs : List SubscriptionDelivery) (j : String)
    → contains j (names (set_entry s xs)) ≡ (s.subscription == j || contains j (names xs))
unfolding set_entry
contains-set_entry s [] j = refl
contains-set_entry s (x ∷ xs) j = ground (
  arith,
  eq_iff x.subscription s.subscription,
  eq_iff x.subscription j,
  eq_iff s.subscription j,
  contains-set_entry s xs j,
)

pub set_entry-IsUnique :
    (s : SubscriptionDelivery) (xs : List SubscriptionDelivery)
    → IsUnique (names xs)
    → IsUnique (names (set_entry s xs))
unfolding set_entry
set_entry-IsUnique s [] h = ground arith
set_entry-IsUnique s (x ∷ xs) h = ground (
  arith,
  eq_iff x.subscription s.subscription,
  eq_iff s.subscription x.subscription,
  contains-set_entry s xs x.subscription,
  set_entry-IsUnique s xs h.1,
)

merge_entry-IsUnique :
    (base : List SubscriptionDelivery) (u : SubscriptionDelivery)
    → IsUnique (names base)
    → IsUnique (names (merge_entry base u))
unfolding merge_entry
merge_entry-IsUnique base u h = ground (arith, set_entry-IsUnique u base h)

-- Merging keeps one entry for each name.
pub merge_entries-IsUnique :
    (base upd : List SubscriptionDelivery)
    → IsUnique (names base)
    → IsUnique (names (merge_entries base upd))
unfolding merge_entries
merge_entries-IsUnique base [] h = h
merge_entries-IsUnique base (u ∷ upd) h =
    merge_entries-IsUnique (merge_entry base u) upd (merge_entry-IsUnique base u h)

find_entry-absent :
    (xs : List SubscriptionDelivery) (n : String)
    → contains n (names xs) ≡ false
    → find_entry xs n ≡ none
unfolding find_entry
find_entry-absent [] n h = refl
find_entry-absent (x ∷ xs) n h = ground (arith, find_entry-absent xs n)

abbrev pub status_or : SubscriptionStatus → Option SubscriptionDelivery → SubscriptionStatus
status_or found none = found
status_or found (some s) = s.status

last_state-absent :
    (found : SubscriptionStatus) (xs : List SubscriptionDelivery) (n : String)
    → contains n (names xs) ≡ false
    → last_state found xs n ≡ found
unfolding last_state
last_state-absent found [] n h = refl
last_state-absent found (x ∷ xs) n h = ground (arith, last_state-absent found xs n)

last_state-find_entry :
    (found : SubscriptionStatus) (xs : List SubscriptionDelivery) (n : String)
    → IsUnique (names xs)
    → last_state found xs n ≡ status_or found (find_entry xs n)
unfolding last_state find_entry
last_state-find_entry found [] n h = refl
last_state-find_entry found (x ∷ xs) n h = ground (
  arith,
  eq_iff x.subscription n,
  last_state-absent x.status xs n,
  last_state-find_entry found xs n h.1,
)

-- With one entry for each name, the map that the code builds and the search agree.
pub subscription_states-find_subscription :
    (m : Manifest) (n : String)
    → IsUnique (names m.subscriptions)
    → subscription_states m n ≡ status_or unset (find_subscription m n)
unfolding subscription_states find_subscription
subscription_states-find_subscription m n h = last_state-find_entry unset m.subscriptions n h
