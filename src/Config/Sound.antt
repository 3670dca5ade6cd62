-- ===== src/Config/Sound.antt =====
-- internal/config/validate.go: what a configuration without a violation is like.
use file_pubsub.Base.{
  ℕ, suc, String, ◌≡◌, ◌≢◌, refl, Bool, true, false, ◌||◌, Option, none, some, List, [], ◌∷◌, ◌++◌,
  string_eq, eq_iff, arith, contains, IsUnique, All, subst,
}
use file_pubsub.Base.Int.{pos, leb_ℤ}
use file_pubsub.Config.{
  Config, Topic, Subscription, HighAvailability, not_positive, subscription_names,
}
use file_pubsub.Config.Names.{is_safe_name}
use file_pubsub.Config.Validate.{
  SourceViolation, topic_name, validate, validate_high_availability, validate_topics,
  validate_subscriptions, validate_source, check, check_name, seen_after, name_check, at_source,
  is_empty,
}

nil_append {ℓ} : {A : Type ℓ} (xs ys : List A) → xs ++ ys ≡ [] → (xs ≡ []) × (ys ≡ [])
nil_append [] ys h = (refl, h)
nil_append (x ∷ xs) ys h = absurd (cc)

-- Each name is new to those before it and to `seen`.
abbrev IsFresh : List String → List String → Type 0
IsFresh seen [] = Unit
IsFresh seen (n ∷ ns) = (contains n seen ≡ false) × IsFresh (n ∷ seen) ns

IsFresh-contains :
    (seen ns : List String) (a : String)
    → IsFresh seen ns
    → contains a seen ≡ true
    → contains a ns ≡ false
IsFresh-contains seen [] a h k = refl
IsFresh-contains seen (n ∷ ns) a (new, rest) k =
    ground (arith, eq_iff n a, IsFresh-contains (n ∷ seen) ns a rest)

IsFresh-IsUnique : (seen ns : List String) → IsFresh seen ns → IsUnique ns
IsFresh-IsUnique seen [] h = tt
IsFresh-IsUnique seen (n ∷ ns) (new, rest) = (
  IsFresh-contains (n ∷ seen) ns n rest (ground (arith, eq_iff n n)),
  IsFresh-IsUnique (n ∷ seen) ns rest,
)

abbrev pub SubscriptionIsSound : Subscription → Type 0
SubscriptionIsSound s = (is_safe_name s.name ≡ true) × (s.directory ≢ "")

subscriptions_sound :
    (i j : ℕ) (seen : List String) (ss : List Subscription)
    → validate_subscriptions i j seen ss ≡ []
    → All SubscriptionIsSound ss × IsFresh seen (subscription_names ss)
unfolding validate_subscriptions subscription_names
subscriptions_sound i j seen [] h = (tt, tt)
subscriptions_sound i j seen (s ∷ ss) h =
    ground (arith, subscriptions_sound i (suc j) (s.name ∷ seen) ss, eq_iff s.directory "")

abbrev pub names_of : List Topic → List String
names_of [] = []
names_of (t ∷ ts) = t.name ∷ names_of ts

abbrev pub TopicIsSound : Topic → Type 0
TopicIsSound t =
    (is_safe_name t.name ≡ true)
    × (validate_source t.source ≡ [])
    × (is_empty t.subscriptions ≡ false)
    × All SubscriptionIsSound t.subscriptions
    × IsUnique (subscription_names t.subscriptions)

abbrev pub HaIsSound : Option HighAvailability → Type 0
HaIsSound none = Unit
HaIsSound (some ha) =
    (not_positive ha.heartbeat_interval ≡ false)
    × (leb_ℤ ha.lease_ttl ha.heartbeat_interval ≡ false)
    × (not_positive ha.lease_ttl ≡ false)

ha_sound : (o : Option HighAvailability) → validate_high_availability o ≡ [] → HaIsSound o
unfolding validate_high_availability
ha_sound none h = tt
ha_sound (some ha) h = ground arith

nil_at_source : (i : ℕ) (vs : List SourceViolation) → at_source i vs ≡ [] → vs ≡ []
nil_at_source i [] h = refl
nil_at_source i (v ∷ vs) h = absurd (cc)

nil_check : {A : Type 0} (b : Bool) (v : A) → check b v ≡ [] → b ≡ false
nil_check true v h = absurd (cc)
nil_check false v h = refl

both_false : (a b : Bool) → (a || b) ≡ false → (a ≡ false) × (b ≡ false)
both_false a b h = ground arith

-- An accepted name is safe and new.
accepted :
    (i : ℕ) (seen : List String) (name : String)
    → name_check (topic_name i) (check_name seen name) ≡ []
    → (is_safe_name name ≡ true)
      × (contains name seen ≡ false)
      × (seen_after seen name (check_name seen name) ≡ name ∷ seen)
accepted i seen name h = ground arith

topics_sound :
    (i : ℕ) (seen : List String) (ts : List Topic)
    → validate_topics i seen ts ≡ []
    → All (TopicIsSound) ts × IsFresh seen (names_of ts)
unfolding validate_topics
topics_sound i seen [] h = (tt, tt)
topics_sound i seen (t ∷ ts) h =
    let (named, h1) = nil_append _ _ h in
    let (source_ok, h2) = nil_append _ _ h1 in
    let (some_subs, h3) = nil_append _ _ h2 in
    let (subs_ok, rest_ok) = nil_append _ _ h3 in
    let (safe, new, after) = accepted i seen t.name named in
    let (subs, fresh) = subscriptions_sound i 0 [] t.subscriptions subs_ok in
    let (later, later_fresh) =
      topics_sound (suc i) (t.name ∷ seen) ts
        (subst (λ (l : List String). validate_topics (suc i) l ts ≡ []) after rest_ok) in
    (
      (
        (
          safe,
          nil_at_source i _ source_ok,
          nil_check _ _ some_subs,
          subs,
          IsFresh-IsUnique [] (subscription_names t.subscriptions) fresh,
        ),
        later,
      ),
      (new, later_fresh),
    )

-- What the program relies on in a configuration.
pub record IsSound (c : Config) : Type 0 where
  pub polling : not_positive c.polling_interval ≡ false
  pub retention : not_positive c.archive_retention ≡ false
  pub retries : not_positive c.retry_max_count ≡ false
  pub port : (not_positive c.metrics_port ≡ false) × (leb_ℤ (pos 65536) c.metrics_port ≡ false)
  pub some_topic : is_empty c.topics ≡ false
  pub cluster : HaIsSound c.high_availability
  pub topics : All (TopicIsSound) c.topics
  pub unique : IsUnique (names_of c.topics)

-- A configuration that Validate accepts has positive intervals, retention and retry limit, a port
-- from 1 to 65535, a heartbeat shorter than the lease's ttl, and at least one topic; topic names are
-- safe as path elements and unique, and so are the subscriptions' names of each topic, which has at
-- least one subscription, a directory for each, and a source without violations.
pub validate-IsSound : (c : Config) → validate c ≡ [] → IsSound c
unfolding validate
validate-IsSound c h =
    let (a, h1) = nil_append _ _ h in
    let (b, h2) = nil_append _ _ h1 in
    let (r, h3) = nil_append _ _ h2 in
    let (port_ok, h4) = nil_append _ _ h3 in
    let (topic_ok, h5) = nil_append _ _ h4 in
    let (ha, ts) = nil_append _ _ h5 in
    let (topics_ok, fresh) = topics_sound 0 [] c.topics ts in
    let in_range = nil_check _ _ port_ok in
    record {
      polling = nil_check _ _ a;
      retention = nil_check _ _ b;
      retries = nil_check _ _ r;
      port = both_false _ _ in_range;
      some_topic = nil_check _ _ topic_ok;
      cluster = ha_sound c.high_availability ha;
      topics = topics_ok;
      unique = IsFresh-IsUnique [] (names_of c.topics) fresh;
    }
