-- ===== src/Usecase/Status.antt =====
-- internal/usecase/status.go: the tables that the status and dlq commands print.
pub mod Counts
use Prim.Native.String.{compare}
use Prim.Native.Nat.{Ordering}
use file_pubsub.Base.{
  ℕ, zero, suc, ◌+◌, String, Bool, true, false, not, ◌&&◌, ◌||◌, Option, none, some, List, [], ◌∷◌,
  ◌++◌, ◌==◌, string_eq, pair_eq, contains, if◌then◌else◌, Result, ok, err, io_error,
}
use file_pubsub.Base.Dict
use file_pubsub.Base.Dict.{Dict}
use file_pubsub.Config.{Topic}
use file_pubsub.Domain.State.{SubscriptionStatus, delivered, failed, dlq, other}
use file_pubsub.Store.Manifest.{Manifest, SubscriptionDelivery, ReplayRecord}
use file_pubsub.Store.World.{World, Env, DlqMeta, Io, fails, next, pure, ◌>>=◌, ◌>>◌}
use file_pubsub.Store.ManifestStore.{list_manifests}
use file_pubsub.Usecase.Pipeline.{Pipeline}

pub record StatusFilter : Type 0 where
  pub topic : String
  pub subscription : String
  pub status : String

pub record StatusRow : Type 0 where
  pub message_id : String
  pub topic : String
  pub subscription : String
  pub status : SubscriptionStatus
  pub retry : ℕ
  pub delivered_at : Option ℕ
  pub replay : Bool

-- The text of a status.
abbrev pub status_text : SubscriptionStatus → String
status_text delivered = "delivered"
status_text failed = "failed"
status_text dlq = "dlq"
status_text (other s) = s

-- An empty filter takes all.
abbrev pub admits : String → String → Bool
admits filter value = filter == "" || value == filter

-- The set `replayed`.
unfoldable pub is_replayed : List ReplayRecord → String → Bool
is_replayed [] name = false
is_replayed (r ∷ rs) name = contains name r.target_subscriptions || is_replayed rs name

unfoldable pub subscription_rows :
    StatusFilter → Manifest → List SubscriptionDelivery → List StatusRow
unfolding is_replayed
subscription_rows f m [] = []
subscription_rows f m (s ∷ ss) =
    let rest = subscription_rows f m ss in
    if admits f.subscription s.subscription && admits f.status (status_text s.status)
    then record {
      message_id = m.message_id;
      topic = m.topic;
      subscription = s.subscription;
      status = s.status;
      retry = m.retry_count;
      delivered_at = s.delivered_at;
      replay = is_replayed m.replay_records s.subscription;
    }
      ∷ rest
    else rest

unfoldable pub manifest_rows : StatusFilter → List Manifest → List StatusRow
unfolding subscription_rows
manifest_rows f [] = []
manifest_rows f (m ∷ ms) =
    let rest = manifest_rows f ms in
    if admits f.topic m.topic then subscription_rows f m m.subscriptions ++ rest else rest

unfoldable pub status_rows : Env → StatusFilter → Io (List StatusRow)
unfolding manifest_rows
status_rows env f = list_manifests env >>= λ ms. pure (manifest_rows f ms)

pub record StatusSummary : Type 0 where
  pub topic : String
  pub subscription : String
  pub delivered : ℕ
  pub failed : ℕ
  pub dlq : ℕ

abbrev pub new_summary : String → String → StatusSummary
new_summary topic subscription = record {
  topic = topic;
  subscription = subscription;
  delivered = 0;
  failed = 0;
  dlq = 0;
}

abbrev pub count_status : SubscriptionStatus → StatusSummary → StatusSummary
count_status delivered s = record s { delivered = suc s.delivered }
count_status failed s = record s { failed = suc s.failed }
count_status dlq s = record s { dlq = suc s.dlq }
count_status (other _) s = s

abbrev pub row_key : StatusRow → String × String
row_key r = (r.topic, r.subscription)

abbrev pub count_row : StatusRow → Option StatusSummary → StatusSummary
count_row r none = count_status r.status (new_summary r.topic r.subscription)
count_row r (some s) = count_status r.status s

-- The loop that fills the map `counts`.
unfoldable pub count_rows :
    Dict (String × String) StatusSummary → List StatusRow → Dict (String × String) StatusSummary
count_rows counts [] = counts
count_rows counts (r ∷ rows) =
    count_rows (Dict.put counts (row_key r) (count_row r (Dict.get counts (row_key r)))) rows

abbrev comes_first : StatusSummary → StatusSummary → Bool
comes_first a b =
    if a.topic == b.topic
    then elim (compare a.subscription b.subscription) [ Ordering.lt ↦ true | _ ↦ false ]
    else elim (compare a.topic b.topic) [ Ordering.lt ↦ true | _ ↦ false ]

insert_summary : StatusSummary → List StatusSummary → List StatusSummary
insert_summary s [] = s ∷ []
insert_summary s (x ∷ xs) =
    let later = insert_summary s xs in if comes_first x s then x ∷ later else s ∷ x ∷ xs

sort_summaries : Dict (String × String) StatusSummary → List StatusSummary
unfolding insert_summary
sort_summaries [] = []
sort_summaries ((k, s) ∷ d) = insert_summary s (sort_summaries d)

unfoldable pub summarize_status : List StatusRow → List StatusSummary
unfolding sort_summaries count_rows
summarize_status rows = sort_summaries (count_rows [] rows)

-- DLQStore.List: the metadata of one topic, by message id.
insert_meta : DlqMeta → List DlqMeta → List DlqMeta
insert_meta m [] = m ∷ []
insert_meta m (x ∷ xs) =
    let later = insert_meta m xs in
    elim (compare x.message_id m.message_id) [ Ordering.lt ↦ x ∷ later | _ ↦ m ∷ x ∷ xs ]

unfoldable pub topic_metas : String → Dict (String × String) DlqMeta → List DlqMeta
topic_metas topic [] = []
topic_metas topic (((t, id), m) ∷ d) =
    let rest = topic_metas topic d in if t == topic then m ∷ rest else rest

unfoldable pub sort_metas : List DlqMeta → List DlqMeta
unfolding insert_meta
sort_metas [] = []
sort_metas (m ∷ ms) = insert_meta m (sort_metas ms)

module _ (env : Env) where
  -- ReadMeta of each file; the first that cannot be read ends the list.
  unfoldable pub read_metas : List DlqMeta → Io (List DlqMeta)
  read_metas [] w = (ok [], w)
  read_metas (m ∷ ms) w =
      if fails env w
      then (err io_error, next w)
      else (read_metas ms >>= λ rest. pure (m ∷ rest)) (next w)

  unfoldable pub dlq_topic : String → Io (List DlqMeta)
  unfolding read_metas topic_metas sort_metas
  dlq_topic topic w =
      if fails env w
      then (err io_error, next w)
      else (read_metas (topic_metas topic w.dlq_meta) >>= λ ms. pure (sort_metas ms)) (next w)

  -- The loop of DLQList.
  unfoldable pub dlq_topics : String → List Topic → Io (List DlqMeta)
  unfolding dlq_topic
  dlq_topics filter [] w = (ok [], w)
  dlq_topics filter (t ∷ ts) w =
      if admits filter t.name
      then (dlq_topic t.name >>= λ ms. dlq_topics filter ts >>= λ rest. pure (ms ++ rest)) w
      else dlq_topics filter ts w

  unfoldable pub dlq_list : Pipeline → String → Io (List DlqMeta)
  unfolding dlq_topics
  dlq_list p filter = dlq_topics filter p.cfg.topics
