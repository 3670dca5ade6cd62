-- ===== src/Usecase/Replay/Checked.antt =====
-- internal/usecase/replay.go: the files that a replay can reach.
use file_pubsub.Base.{
  ℕ, suc, String, ◌≡◌, ◌≢◌, refl, ◌∙◌, ap, Bool, true, false, Option, none, some, List, [], ◌∷◌,
  ◌==◌, string_eq, pair_eq, eq_iff, arith, Error, Result, ok, err, Bool-cases, Option-cases, inl,
  inr,
}
use file_pubsub.Base.Dict
use file_pubsub.Base.Dict.{Dict, get-put}
use file_pubsub.Config.{Topic, Subscription, find_topic, find_subscription}
use file_pubsub.Store.Manifest.{Manifest}
use file_pubsub.Store.World.{
  World, Env, Bytes, DlqMeta, ProcessedEntry, SourceFile, LockRecord, IsAlone, now, fails, continue,
}
use file_pubsub.Store.ManifestStore.{list_manifests, get_manifest}
use file_pubsub.Store.ManifestStore.Frame.{but_ops-list_manifests}
use file_pubsub.Store.Files.{exists}
use file_pubsub.Store.Update.{update}
use file_pubsub.Store.Update.Frame.{but_manifests-update}
use file_pubsub.Usecase.Pipeline.{Pipeline, place}
use file_pubsub.Store.ManifestStore.{Mutate}
use file_pubsub.Usecase.Replay.{
  ReplayParams, validate_replay, replay_one, replay_each, replay_targets, replay, count_one,
  found_archive, one_target, replay_callback, replay_listed, replay_valid, chosen_subscription,
}

-- Rejected parameters place nothing and change nothing.
pub replay-rejected :
    (env : Env) (p : Pipeline) (params : ReplayParams) (e : Error) (w : World)
    → validate_replay p params ≡ some e
    → replay env p params w ≡ ((0, some e), w)
unfolding replay
replay-rejected env p params e w h = rw h refl

module _ (env : Env) (p : Pipeline) (alone : IsAlone env) where
  -- The files of a world but those of subscriptions, the manifests and their locks.
  abbrev pub beside_placed :
      World
      → Dict (String × String) Bytes
        × Dict (String × String) Bytes
        × Dict (String × String) Bytes
        × Dict (String × String) DlqMeta
        × Dict String (List ProcessedEntry)
        × Dict (String × String) SourceFile
        × Option LockRecord
  beside_placed w = (w.archive, w.work, w.dlq, w.dlq_meta, w.processed, w.originals, w.lease)

  -- What one replay leaves outside the subscription's directory.
  abbrev pub Untouched : Subscription → World → World → Type 0
  Untouched sub w w' =
      ((dir name : String)
        → dir ≢ sub.directory
        → Dict.get w'.placed (dir, name) ≡ Dict.get w.placed (dir, name))
      × (beside_placed w' ≡ beside_placed w)

  Untouched-trans :
      (sub : Subscription) (u v w : World)
      → Untouched sub u v
      → Untouched sub v w
      → Untouched sub u w
  Untouched-trans sub u v w a b = (λ dir name ne. b.0 dir name ne ∙ a.0 dir name ne, b.1 ∙ a.1)

  place-Untouched :
      (sub : Subscription) (m : Manifest) (w : World) → Untouched sub w (place env m sub w).1
  unfolding place
  place-Untouched sub m w = elim (Option-cases (Dict.get w.archive (m.topic, m.message_id))) [
    | inl missing ↦ ground (arith, missing)
    | inr (content, here) ↦ elim (Bool-cases (fails env w)) [
      | inl bad ↦ rw (here, bad) (λ dir name ne. refl, refl)
      | inr fine ↦ rw (here, fine) (away content, refl)
    ]
  ]
    where
      away :
          (content : Bytes) (dir name : String)
          → dir ≢ sub.directory
          → Dict.get (Dict.put w.placed (sub.directory, m.original_file_name) content) (dir, name)
            ≡ Dict.get w.placed (dir, name)
      away content dir name ne = ground (
        arith,
        get-put w.placed (sub.directory, m.original_file_name) (dir, name) content,
        eq_iff sub.directory dir,
      )

  update-Untouched :
      (sub : Subscription) (id : String) (mutate : Mutate) (w : World)
      → Untouched sub w (update env id mutate w).1
  update-Untouched sub id mutate w =
      let same = but_manifests-update env alone id mutate w in
      (λ dir name ne. ap (λ (u : World). Dict.get u.placed (dir, name)) same, ap beside_placed same)

  -- A chain of two calls.
  Untouched-continue :
      (sub : Subscription) (w : World) {A B : Type 0} (q : Result A × World)
      (f : A → World → Result B × World)
      → Untouched sub w q.1
      → ((a : A) (v : World) → Untouched sub v (f a v).1)
      → Untouched sub w (continue q.0 f q.1).1
  Untouched-continue sub w (ok a, v) f first then_ =
      Untouched-trans sub w v (f a v).1 first (then_ a v)
  Untouched-continue sub w (err e, v) f first then_ = first

  still : (sub : Subscription) (w : World) → Untouched sub w w
  still sub w = (λ dir name ne. refl, refl)

  exists-Untouched :
      (sub : Subscription) (topic id : String) (w : World)
      → Untouched sub w (exists env topic id w).1
  unfolding exists
  exists-Untouched sub topic id w = elim (Bool-cases (fails env w)) [
    | inl bad ↦ rw bad (still sub w)
    | inr fine ↦ rw fine (still sub w)
  ]

  found_archive-Untouched :
      (sub : Subscription) (b : Bool) (w : World) → Untouched sub w (found_archive env p b w).1
  found_archive-Untouched sub true w = still sub w
  found_archive-Untouched sub false w = still sub w

  replay_one-Untouched :
      (sub : Subscription) (name : String) (m : Manifest) (w : World)
      → Untouched sub w (replay_one env p sub name m w).1
  unfolding replay_one
  replay_one-Untouched sub name m w =
      Untouched-continue sub w (exists env m.topic m.message_id w) _
        (exists-Untouched sub m.topic m.message_id w)
        (λ stored v.
          Untouched-continue sub v (found_archive env p stored v) _
            (found_archive-Untouched sub stored v)
            (λ _ u. Untouched-continue sub u (place env m sub u) _ (place-Untouched sub m u) (λ _ x.
              Untouched-continue sub x
                (update env m.message_id (replay_callback name (now env x)) x) _
                (update-Untouched sub m.message_id (replay_callback name (now env x)) x)
                (λ updated y. still sub y))))

  count_one-Untouched :
      (sub : Subscription) (w : World) (n : ℕ) (q : Result (Unit {0}) × World)
      (rest : ℕ → World → (ℕ × Option Error) × World)
      → Untouched sub w q.1
      → ((k : ℕ) (v : World) → Untouched sub v (rest k v).1)
      → Untouched sub w (count_one env p n q rest).1
  count_one-Untouched sub w n (ok _, v) rest first later =
      Untouched-trans sub w v (rest (suc n) v).1 first (later (suc n) v)
  count_one-Untouched sub w n (err e, v) rest first later = first

  replay_each-Untouched :
      (sub : Subscription) (name : String) (ms : List Manifest) (n : ℕ) (w : World)
      → Untouched sub w (replay_each env p sub name ms n w).1
  unfolding replay_each
  replay_each-Untouched sub name [] n w = still sub w
  replay_each-Untouched sub name (m ∷ ms) n w = elim (Bool-cases (env.canceled w.ops)) [
    | inl stop ↦ rw stop (still sub w)
    | inr on ↦ rw on (
        count_one-Untouched sub w n (replay_one env p sub name m w)
          (λ k v. replay_each env p sub name ms k v) (replay_one-Untouched sub name m w)
          (λ k v. replay_each-Untouched sub name ms k v))
  ]

  list_manifests-Untouched :
      (sub : Subscription) (w : World) → Untouched sub w (list_manifests env w).1
  list_manifests-Untouched sub w =
      let same = but_ops-list_manifests env w in
      (λ dir name ne. ap (λ (u : World). Dict.get u.placed (dir, name)) same, ap beside_placed same)

  get_manifest-Untouched :
      (sub : Subscription) (id : String) (w : World) → Untouched sub w (get_manifest env id w).1
  unfolding get_manifest
  get_manifest-Untouched sub id w = elim (Bool-cases (fails env w)) [
    | inl bad ↦ rw bad (still sub w)
    | inr fine ↦ rw fine (still sub w)
  ]

  one_target-Untouched :
      (sub : Subscription) (params : ReplayParams) (m : Manifest) (w : World)
      → Untouched sub w (one_target env p params m w).1
  one_target-Untouched sub params m w = elim (Bool-cases (m.topic == params.topic)) [
    | inl same ↦ rw same (still sub w)
    | inr differ ↦ rw differ (still sub w)
  ]

  replay_targets-Untouched :
      (sub : Subscription) (params : ReplayParams) (w : World)
      → Untouched sub w (replay_targets env p params w).1
  unfolding replay_targets
  replay_targets-Untouched sub params w = elim (Bool-cases (params.message_id == "")) [
    | inl period ↦ rw period (
        Untouched-continue sub w (list_manifests env w) _ (list_manifests-Untouched sub w)
          (λ all v. still sub v))
    | inr one ↦ rw one (
        Untouched-continue sub w (get_manifest env params.message_id w) _
          (get_manifest-Untouched sub params.message_id w)
          (λ m v. one_target-Untouched sub params m v))
  ]

  replay_listed-Untouched :
      (sub : Subscription) (name : String) (w : World) (q : Result (List Manifest) × World)
      → Untouched sub w q.1
      → Untouched sub w (replay_listed env p sub name q).1
  replay_listed-Untouched sub name w (err e, v) first = first
  replay_listed-Untouched sub name w (ok ms, v) first =
      Untouched-trans sub w v (replay_each env p sub name ms 0 v).1 first
        (replay_each-Untouched sub name ms 0 v)

  -- Whatever fails while no other process runs, a replay with valid parameters leaves the files in
  -- the directories of all other subscriptions, the archive, the work directory, the DLQ with its
  -- metadata, the processed records, the sources and the lock file as they were.
  pub replay-Untouched :
      (params : ReplayParams) (t : Topic) (sub : Subscription) (w : World)
      → validate_replay p params ≡ none
      → find_topic p.cfg.topics params.topic ≡ some t
      → find_subscription t.subscriptions params.subscription ≡ some sub
      → Untouched sub w (replay env p params w).1
  unfolding replay
  replay-Untouched params t sub w valid topic chosen =
      rw (valid, replay_valid, chosen_subscription, topic, chosen)
        (replay_listed-Untouched sub params.subscription w (replay_targets env p params w)
          (replay_targets-Untouched sub params w))
