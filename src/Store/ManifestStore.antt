-- ===== src/Store/ManifestStore.antt =====
-- internal/gateway/store/manifest.go: ManifestStore and the update lock of one message.
pub mod Frame
use Prim.Native.String.{◌++◌ as append, compare}
use Prim.Native.Nat.{Ordering}
use file_pubsub.Base.{
  ℕ, zero, suc, ◌+◌, ◌*◌, String, Bool, true, false, not, Option, none, some, List, [], ◌∷◌, ◌==◌,
  ltb, nat_eq, string_eq, if◌then◌else◌, Error, Result, ok, err, io_error, not_exist, is_exist,
  manifest_locked, manifest_cas, skip_manifest_update, empty_message_id,
}
use file_pubsub.Base.Dict
use file_pubsub.Base.Dict.{Dict}
use file_pubsub.Domain.Limits.{second}
use file_pubsub.Store.Manifest.{Manifest}
use file_pubsub.Store.World.{World, Env, UpdateLock, Io, fails, left, now, next, pure, ◌>>=◌, ◌>>◌}

abbrev pub manifest_lock_retries : ℕ
manifest_lock_retries = 50

abbrev pub manifest_cas_retries : ℕ
manifest_cas_retries = 10

abbrev pub manifest_lock_stale_after : ℕ
manifest_lock_stale_after = 60 * second

-- The callback of Update: from the time that the clock shows and the manifest that was read.
abbrev pub Mutate : Type 0
Mutate = ℕ → Manifest → Result Manifest

abbrev or_missing {ℓ} : {A : Type ℓ} → Option A → Result A
or_missing none = err not_exist
or_missing (some a) = ok a

-- `file name ascending`, as os.ReadDir sorts; the file of a message is named {id}.json.
insert_name : String → List String → List String
insert_name n [] = n ∷ []
insert_name n (x ∷ xs) =
    let later = insert_name n xs in
    elim (compare (append n ".json") (append x ".json")) [
      | Ordering.gt ↦ x ∷ later
      | _ ↦ n ∷ x ∷ xs
    ]

unfoldable pub dir_names : Dict String Manifest → List String
unfolding insert_name
dir_names [] = []
dir_names ((id, m) ∷ d) = insert_name id (dir_names d)

module _ (env : Env) where
  unfoldable pub get_manifest : String → Io Manifest
  get_manifest id w =
      if fails env w then (err io_error, next w) else (or_missing (Dict.get w.manifests id), next w)

  -- ManifestStore.Exists.
  unfoldable pub manifest_exists : String → Io Bool
  manifest_exists id w =
      if fails env w
      then (err io_error, next w)
      else (ok (elim (Dict.get w.manifests id) [ none ↦ false | some _ ↦ true ]), next w)

  unfoldable pub put_manifest : Manifest → Io (Unit {0})
  put_manifest m w =
      if m.message_id == ""
      then (err empty_message_id, w)
      else if fails env w
      then (err io_error, next w)
      else (ok tt, next (record w { manifests = Dict.put w.manifests m.message_id m }))

  read_all : List String → Io (List Manifest)
  unfolding get_manifest
  read_all [] = pure []
  read_all (id ∷ ids) = do m ← get_manifest id; ms ← read_all ids; pure (m ∷ ms)

  -- ManifestStore.List.
  unfoldable pub list_manifests : Io (List Manifest)
  unfolding read_all dir_names
  list_manifests w =
      if fails env w then (err io_error, next w) else read_all (dir_names w.manifests) (next w)

  abbrev new_lock : String → String → World → World
  new_lock id token w = record w {
    locks = Dict.put w.locks id (record { token = token; mod_time = now env w });
  }

  -- A lock whose writing failed is removed again, if it can be; after a failed Close it stays.
  abbrev left_lock : String → String → Option UpdateLock → World → World
  left_lock id token none w = left env (new_lock id token w) w
  left_lock id token (some _) w = w

  write_lock_exclusive : String → String → Io (Unit {0})
  write_lock_exclusive id token w =
      if fails env w
      then (err io_error, next (left_lock id token (Dict.get w.locks id) w))
      else elim (Dict.get w.locks id) [
        | none ↦ (ok tt, next (new_lock id token w))
        | some _ ↦ (err is_exist, next w)
      ]

  -- time.Sleep between two attempts.
  abbrev backoff : World → World
  backoff w = env.others w.ops (next w)

  retry_exist :
      Result (Unit {0}) × World → (World → Result (Unit {0}) × World) → Result (Unit {0}) × World
  retry_exist (ok _, w) again = (ok tt, w)
  retry_exist (err is_exist, w) again = again (backoff w)
  retry_exist (err e, w) again = (err e, w)

  try_lock : ℕ → String → String → Io (Unit {0})
  unfolding write_lock_exclusive retry_exist
  try_lock zero id token w = (err is_exist, w)
  try_lock (suc n) id token w =
      retry_exist (write_lock_exclusive id token w) (λ w'. try_lock n id token w')

  abbrev is_stale_lock : Option UpdateLock → ℕ → Bool
  is_stale_lock none t = false
  is_stale_lock (some l) t = ltb (l.mod_time + manifest_lock_stale_after) t

  abbrev remove_lock : String → World → World
  remove_lock id w =
      if fails env w then next w else next (record w { locks = Dict.remove w.locks id })

  -- Any failure of the second creation ends in ErrManifestLocked.
  abbrev fail_closed : Result (Unit {0}) × World → Result (Unit {0}) × World
  fail_closed (ok _, w) = (ok tt, w)
  fail_closed (err _, w) = (err manifest_locked, w)

  -- After the retries: one takeover of a lock that a crashed holder left.
  recover_stale : String → String → Io (Unit {0})
  unfolding write_lock_exclusive
  recover_stale id token w =
      if fails env w
      then (err manifest_locked, next w)
      else if is_stale_lock (Dict.get w.locks id) (now env w)
      then fail_closed (write_lock_exclusive id token (remove_lock id (next w)))
      else (err manifest_locked, next w)

  recover_exist : String → String → Result (Unit {0}) × World → Result (Unit {0}) × World
  unfolding recover_stale
  recover_exist id token (ok _, w) = (ok tt, w)
  recover_exist id token (err is_exist, w) = recover_stale id token w
  recover_exist id token (err e, w) = (err e, w)

  -- MkdirAll, newLockToken, and the attempts. Returns the token of the lock that is now held.
  unfoldable pub acquire_lock : String → Io String
  unfolding try_lock recover_exist
  acquire_lock id w =
      if fails env w
      then (err io_error, next w)
      else let w₁ = next w in
        if fails env w₁
        then (err io_error, next w₁)
        else let token = env.random_token w₁.ops in
          ((λ w'. recover_exist id token (try_lock manifest_lock_retries id token w')) >>= λ _.
          pure token)
            (next w₁)

  abbrev holds : String → Option UpdateLock → Bool
  holds token none = false
  holds token (some l) = l.token == token

  unfoldable pub lock_held_by : String → String → Io Bool
  lock_held_by id token w =
      if fails env w
      then (err io_error, next w)
      else (ok (holds token (Dict.get w.locks id)), next w)

  abbrev release_if : String → Result Bool × World → World
  release_if id (ok true, w) = remove_lock id w
  release_if id (_, w) = w

  unfoldable pub release : String → String → World → World
  unfolding lock_held_by
  release id token w = release_if id (lock_held_by id token w)

  -- The staging file, which no other function reads.
  unfoldable pub write_staging : Io (Unit {0})
  write_staging w = if fails env w then (err io_error, next w) else (ok tt, next w)

  -- The guard before the rename; the others may have run since the manifest was read.
  confirmed : Result Bool × World → Result (Unit {0}) × World
  confirmed (ok true, w) = (ok tt, w)
  confirmed (_, w) = (err manifest_locked, w)

  unfoldable pub confirm_held : String → String → Io (Unit {0})
  unfolding lock_held_by confirmed
  confirm_held id token w = confirmed (lock_held_by id token (env.others w.ops w))

  unfoldable pub rename_over : String → Manifest → Io (Option Manifest)
  rename_over id m w =
      if fails env w
      then (err io_error, next w)
      else (ok (some m), next (record w { manifests = Dict.put w.manifests id m }))
