-- ===== src/Usecase/Status/Counts.antt =====
-- internal/usecase/status.go: what SummarizeStatus counts.
use file_pubsub.Base.{
  ℕ, suc, ◌+◌, String, ◌≡◌, ap, Bool, true, false, ◌&&◌, Option, none, some, List, [], ◌∷◌, ◌==◌,
  string_eq, pair_eq, pair_beq_iff, if◌then◌else◌, arith,
}
use file_pubsub.Base.Dict
use file_pubsub.Base.Dict.{Dict, get-put}
use file_pubsub.Domain.State.{SubscriptionStatus, delivered, failed, dlq}
use file_pubsub.Usecase.Status.{
  StatusRow, StatusSummary, new_summary, row_key, count_row, count_rows,
}

-- The rows of one topic and subscription that have the status a test asks for.
abbrev pub tally : (SubscriptionStatus → Bool) → String × String → List StatusRow → ℕ
tally p k [] = 0
tally p k (r ∷ rows) =
    let rest = tally p k rows in if row_key r == k && p r.status then suc rest else rest

abbrev pub is_delivered : SubscriptionStatus → Bool
is_delivered delivered = true
is_delivered _ = false

abbrev pub is_failed : SubscriptionStatus → Bool
is_failed failed = true
is_failed _ = false

abbrev pub is_dlq : SubscriptionStatus → Bool
is_dlq dlq = true
is_dlq _ = false

abbrev start : Option StatusSummary → StatusSummary
start none = new_summary "" ""
start (some s) = s

-- The counts of a summary, with those of more rows.
abbrev Counts : (before after : Option StatusSummary) → String × String → List StatusRow → Type 0
Counts before after k rows =
    ((start after).delivered ≡ (start before).delivered + tally is_delivered k rows)
    × ((start after).failed ≡ (start before).failed + tally is_failed k rows)
    × ((start after).dlq ≡ (start before).dlq + tally is_dlq k rows)

-- One row counts once, in the field of its status.
count_row_lem :
    (r : StatusRow) (o : Option StatusSummary)
    → let s = count_row r o in
      (s.delivered ≡ (start o).delivered + (if is_delivered r.status then 1 else 0))
      × (s.failed ≡ (start o).failed + (if is_failed r.status then 1 else 0))
      × (s.dlq ≡ (start o).dlq + (if is_dlq r.status then 1 else 0))
count_row_lem r o = ground arith

count_rows_lem :
    (counts : Dict (String × String) StatusSummary) (rows : List StatusRow) (k : String × String)
    → Counts (Dict.get counts k) (Dict.get (count_rows counts rows) k) k rows
unfolding count_rows
count_rows_lem counts [] k = (omega arith, omega arith, omega arith)
count_rows_lem counts (r ∷ rows) k =
    let next_counts = Dict.put counts (row_key r) (count_row r (Dict.get counts (row_key r))) in
    let same : row_key r ≡ k → Dict.get counts (row_key r) ≡ Dict.get counts k =
      λ e. ap (λ (j : String × String). Dict.get counts j) e in
    ground (
      arith,
      get-put counts (row_key r) k (count_row r (Dict.get counts (row_key r))),
      pair_beq_iff (row_key r) k,
      same,
      count_row_lem r (Dict.get counts (row_key r)),
      count_rows_lem next_counts rows k,
    )

-- The map from which SummarizeStatus makes its lines counts, for every topic and subscription in it,
-- the rows of each status; a status that is none of the three counts nowhere.
pub count_rows-tally :
    (rows : List StatusRow) (k : String × String) (s : StatusSummary)
    → Dict.get (count_rows [] rows) k ≡ some s
    → (s.delivered ≡ tally is_delivered k rows)
      × (s.failed ≡ tally is_failed k rows)
      × (s.dlq ≡ tally is_dlq k rows)
unfolding Dict.get
count_rows-tally rows k s h = ground (arith, count_rows_lem [] rows k)
