-- ===== src/Usecase/Replay.antt =====
-- internal/usecase/replay.go: archived messages are placed again in one subscription's directory.
-- The zero time, which stands for a date that was not given, is 0.
pub mod Checked
use file_pubsub.Base.{
  ℕ, zero, suc, ◌+◌, String, Bool, true, false, not, ◌&&◌, ◌||◌, Option, none, some, List, [], ◌∷◌,
  ◌==◌, ltb, string_eq, nat_eq, pair_eq, keep, if◌then◌else◌, Result, ok, err, Error, usage_error,
  archive_missing, canceled,
}
use file_pubsub.Base.Dict
use file_pubsub.Config.{Topic, Subscription, find_topic, find_subscription}
use file_pubsub.Domain.Limits.{day}
use file_pubsub.Domain.State.{SubscriptionStatus}
use file_pubsub.Store.Manifest.{Manifest, set_subscription_state, append_event, append_replay}
use file_pubsub.Store.World.{World, Env, Io, emit, now, pure, ◌>>=◌, ◌>>◌}
use file_pubsub.Store.ManifestStore.{Mutate, get_manifest, list_manifests}
use file_pubsub.Store.Update.{update}
use file_pubsub.Store.Files.{exists}
use file_pubsub.Usecase.Pipeline.{Pipeline, event, delivery_event, place}

pub record ReplayParams : Type 0 where
  pub topic : String
  pub message_id : String
  pub from : ℕ
  pub to : ℕ
  pub subscription : String

abbrev is_given : ℕ → Bool
is_given t = not (t == 0)

-- The choice between one message and a period.
abbrev validate_choice : ReplayParams → Option Error
validate_choice params =
    if not (params.message_id == "") && (is_given params.from || is_given params.to)
    then some usage_error
    else if params.message_id == ""
    then if not (is_given params.from) || not (is_given params.to)
      then some usage_error
      else if ltb params.to params.from
      then some usage_error
      else none
    else none

unfoldable pub validate_replay : Pipeline → ReplayParams → Option Error
validate_replay p params =
    if params.topic == "" then some usage_error else elim (find_topic p.cfg.topics params.topic) [
      | none ↦ some usage_error
      | some t ↦
          if params.subscription == ""
          then some usage_error
          else elim (find_subscription t.subscriptions params.subscription) [
            | none ↦ some usage_error
            | some _ ↦ validate_choice params
          ]
    ]

-- From the start of the first day to the end of the last one.
abbrev pub in_period : ReplayParams → Manifest → Bool
in_period params m =
    m.topic == params.topic
    && (not (ltb m.collected_at params.from) && ltb m.collected_at (params.to + day))

-- The callback of Update, at the time `t` after the copy.
unfoldable pub replay_callback : String → ℕ → Mutate
replay_callback name t at base = ok (
    append_event
      (append_replay (set_subscription_state base name SubscriptionStatus.delivered (some t) "")
        (record { replayed_at = t; target_subscriptions = name ∷ []; result = "success" }))
      (delivery_event t name "replayed" ""))

module _ (env : Env) (p : Pipeline) where
  abbrev pub one_target : ReplayParams → Manifest → Io (List Manifest)
  one_target params m w = if m.topic == params.topic then (ok (m ∷ []), w) else (err usage_error, w)

  unfoldable pub replay_targets : ReplayParams → Io (List Manifest)
  replay_targets params w =
      if params.message_id == ""
      then (list_manifests env >>= λ all. pure (keep (in_period params) all)) w
      else (get_manifest env params.message_id >>= one_target params) w

  abbrev pub found_archive : Bool → Io (Unit {0})
  found_archive true w = (ok tt, w)
  found_archive false w = (err archive_missing, w)

  abbrev record_replay : String → Manifest → Io Manifest
  record_replay name m w = update env m.message_id (replay_callback name (now env w)) w

  -- One round of the loop in Replay.
  unfoldable pub replay_one : Subscription → String → Manifest → Io (Unit {0})
  unfolding replay_callback
  replay_one sub name m = do
    stored ← exists env m.topic m.message_id
    found_archive stored
    place env m sub
    updated ← record_replay name m
    λ w. (ok tt, emit (event m.message_id m.topic name "replayed") w)

  abbrev pub count_one :
      ℕ
      → Result (Unit {0}) × World
      → (ℕ → World → (ℕ × Option Error) × World)
      → (ℕ × Option Error) × World
  count_one n (ok _, w) rest = rest (suc n) w
  count_one n (err e, w) rest = ((n, some e), w)

  -- The number of messages that were placed and recorded, and the error that ended the loop.
  unfoldable pub replay_each :
      Subscription → String → List Manifest → ℕ → World → (ℕ × Option Error) × World
  replay_each sub name [] n w = ((n, none), w)
  replay_each sub name (m ∷ ms) n w =
      let rest = λ (k : ℕ) (v : World). replay_each sub name ms k v in
      if env.canceled w.ops
      then ((n, some canceled), w)
      else count_one n (replay_one sub name m w) rest

  abbrev pub replay_listed :
      Subscription → String → Result (List Manifest) × World → (ℕ × Option Error) × World
  replay_listed sub name (err e, w) = ((0, some e), w)
  replay_listed sub name (ok ms, w) = replay_each sub name ms 0 w

  abbrev pub chosen_subscription : ReplayParams → Option Subscription
  chosen_subscription params = elim (find_topic p.cfg.topics params.topic) [
    | none ↦ none
    | some t ↦ find_subscription t.subscriptions params.subscription
  ]

  abbrev pub replay_valid : ReplayParams → Option Error → World → (ℕ × Option Error) × World
  replay_valid params (some e) w = ((0, some e), w)
  replay_valid params none w = elim (chosen_subscription params) [
    | none ↦ ((0, some usage_error), w)  -- not reached: the parameters are valid
    | some sub ↦ replay_listed sub params.subscription (replay_targets params w)
  ]

  unfoldable pub replay : ReplayParams → World → (ℕ × Option Error) × World
  unfolding validate_replay replay_each
  replay params w = replay_valid params (validate_replay p params) w
