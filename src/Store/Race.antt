-- ===== src/Store/Race.antt =====
-- internal/gateway/store/manifest.go: Update and acquireLock as several writers of one message run
-- them, an access to the disk at a time, interleaved in any order. A writer's token is its number:
-- newLockToken gives no two writers the same one.
pub mod Exclusion
pub mod Lost
use file_pubsub.Base.{
  ℕ, ◌≡◌, ◌≢◌, Bool, true, Option, none, some, List, [], ◌∷◌, ◌==◌, nat_eq, if◌then◌else◌, Result,
  ok, err,
}
use file_pubsub.Store.Manifest.{Manifest}
use file_pubsub.Store.Update.{bump}

-- What the writers of one message share: the owner in its lock file, its manifest, and, for the
-- record, who has renamed a new manifest into place, the last one first.
pub record Shared : Type 0 where
  pub lock : Option ℕ
  pub file : Manifest
  pub renamed : List ℕ

-- Where a writer stands, with the local variables that are live there.
pub data Pc : Type 0 where
  idle : Pc
  trying : Pc  -- before writeLockExclusive
  found_stale : Pc  -- before os.Remove of a lock that looks abandoned
  retaking : Pc  -- before the second writeLockExclusive
  reading : Pc  -- before Get at the head of the loop
  staged : (base m : Manifest) → Pc  -- before lockHeldBy
  confirmed : (base m : Manifest) → Pc  -- before the second Get
  matched : (base m : Manifest) → Pc  -- before os.Rename
  leaving : Pc  -- before lockHeldBy of release
  releasing : Pc  -- before os.Remove of release

-- What a writer makes of the manifest that it has read: the result of its callback with the next
-- revision, or nothing to write.
abbrev made : Manifest → Result Manifest → Option Manifest
made base (ok m) = some (bump base m)
made base (err e) = none

abbrev pub make : (ℕ → Manifest → Result Manifest) → ℕ → Manifest → Option Manifest
make mutate i base = made base (mutate i base)

-- One step of writer `i`. The flag says whether a lock may count as abandoned: then its holder has
-- crashed, or has slept for longer than manifestLockStaleAfter. An access may fail.
pub data Move (mutate : ℕ → Manifest → Result Manifest) (stale : Bool) (i : ℕ) (s : Shared)
    : Pc → Shared → Pc → Type 0 where
  start : Move mutate stale i s idle s trying
  create : s.lock ≡ none → Move mutate stale i s trying (record s { lock = some i }) reading
  busy : s.lock ≢ none → Move mutate stale i s trying s trying
  give_up : Move mutate stale i s trying s idle
  see_stale : stale ≡ true → Move mutate stale i s trying s found_stale
  remove_stale : Move mutate stale i s found_stale (record s { lock = none }) retaking
  retake : s.lock ≡ none → Move mutate stale i s retaking (record s { lock = some i }) reading
  outrun : Move mutate stale i s retaking s idle
  read :
      {m : Manifest}
      → make mutate i s.file ≡ some m
      → Move mutate stale i s reading s (staged s.file m)
  nothing : make mutate i s.file ≡ none → Move mutate stale i s reading s leaving
  confirm :
      {base m : Manifest}
      → s.lock ≡ some i
      → Move mutate stale i s (staged base m) s (confirmed base m)
  compare :
      {base m : Manifest}
      → s.file.revision ≡ base.revision
      → Move mutate stale i s (confirmed base m) s (matched base m)
  again :
      {base m : Manifest}
      → s.file.revision ≢ base.revision
      → Move mutate stale i s (confirmed base m) s reading
  rename :
      {base m : Manifest}
      → Move mutate stale i s
          (matched base m)
          (record s { file = m; renamed = i ∷ s.renamed })
          leaving
  fail_reading : Move mutate stale i s reading s leaving
  fail_staged : {base m : Manifest} → Move mutate stale i s (staged base m) s leaving
  fail_confirmed : {base m : Manifest} → Move mutate stale i s (confirmed base m) s leaving
  fail_matched : {base m : Manifest} → Move mutate stale i s (matched base m) s leaving
  own : s.lock ≡ some i → Move mutate stale i s leaving s releasing
  foreign : s.lock ≢ some i → Move mutate stale i s leaving s idle
  remove : Move mutate stale i s releasing (record s { lock = none }) idle
  fail_leaving : Move mutate stale i s leaving s idle
  fail_releasing : Move mutate stale i s releasing s idle

pub record System : Type 0 where
  pub shared : Shared
  pub pc : ℕ → Pc

abbrev pub at : (ℕ → Pc) → ℕ → Pc → ℕ → Pc
at pc i p j = if i == j then p else pc j

pub data Step (mutate : ℕ → Manifest → Result Manifest) (stale : Bool) (s : System)
    : System → Type 0 where
  pick :
      (i : ℕ) {t : Shared} {p : Pc}
      → Move mutate stale i s.shared (s.pc i) t p
      → Step mutate stale s (record { shared = t; pc = at s.pc i p })

-- The manifest is `m`, nobody holds the lock and no writer has started.
abbrev pub initial : Manifest → System
initial m = record { shared = record { lock = none; file = m; renamed = [] }; pc = λ i. idle }

pub data Reach (mutate : ℕ → Manifest → Result Manifest) (stale : Bool) (m : Manifest)
    : System → Type 0 where
  begin : Reach mutate stale m (initial m)
  later : {s t : System} → Reach mutate stale m s → Step mutate stale s t → Reach mutate stale m t

-- Writer `i` makes one step more.
pub go :
    {mutate : ℕ → Manifest → Result Manifest} {stale : Bool} {m : Manifest} {s : System} (i : ℕ)
    {t : Shared} {p : Pc}
    → Reach mutate stale m s
    → Move mutate stale i s.shared (s.pc i) t p
    → Reach mutate stale m (record { shared = t; pc = at s.pc i p })
go i r mv = Reach.later r (Step.pick i mv)
