-- ===== src/Store/World.antt =====
-- What the stores keep on disk and in memory, and what the operating system decides.
--
-- A file is named by the key that the store's path function takes, so two path functions never name
-- one file: manifest/{id}.json, manifest/{id}.json.lock, work/collect/{topic}/{id},
-- archive/{topic}/{id}, dlq/{topic}/{id}, dlq/{topic}/{id}.meta.json, processed/{topic}.json, lock.
-- The directories of sources and of subscriptions are taken to lie outside of data_dir.
-- A JSON file holds the value that was encoded into it; one that cannot be read is a fault.
-- Every access to the disk and every reading of the clock counts one operation, and the environment
-- decides by that count which accesses fail and what the clock shows.
use file_pubsub.Base.{
  ℕ, suc, String, ◌≡◌, Result, ok, err, Bool, false, Option, List, [], ◌∷◌, ◌++◌, if◌then◌else◌,
}
use file_pubsub.Base.Dict.{Dict}
use file_pubsub.Domain.Limits.{Span}
use file_pubsub.Domain.Stability.{Observation}
use file_pubsub.Store.Manifest.{Manifest}

abbrev pub Bytes : Type 0
Bytes = List ℕ

-- lockRecord of store/lock.go.
pub record LockRecord : Type 0 where
  pub pid : ℕ
  pub acquired_at : ℕ
  pub hostname : String
  pub boot_id : String
  pub renewed_at : ℕ
  pub ttl : ℕ
  pub generation : ℕ

-- The owner token in an update lock, and the file's modification time.
pub record UpdateLock : Type 0 where
  pub token : String
  pub mod_time : ℕ

-- DLQMeta of store/dlq.go.
pub record DlqMeta : Type 0 where
  pub message_id : String
  pub topic : String
  pub isolation_reason : String
  pub failure_count : ℕ
  pub isolated_at : ℕ

-- ProcessedEntry of store/processed.go.
pub record ProcessedEntry : Type 0 where
  pub source_file_identifier : String
  pub mod_time_unix_nano : ℕ
  pub size : ℕ
  pub processed_at : ℕ

-- The fields of logging.Event that a reader can count on; the free text is left out.
pub record LogEvent : Type 0 where
  pub message_id : String
  pub topic : String
  pub subscription : String
  pub event_type : String

-- The five series of metricsreg.Registry, by topic.
pub record Metrics : Type 0 where
  pub last_collect : Dict String ℕ
  pub processed_total : Dict String ℕ
  pub delivery_failure_total : Dict String ℕ
  pub dlq_count : Dict String ℕ
  pub backlog_count : Dict String ℕ

-- A file in a source directory: what List shows of it, and its content.
pub record SourceFile : Type 0 where
  pub size : ℕ
  pub mod_time : ℕ
  pub content : Bytes

pub record World : Type 0 where
  pub manifests : Dict String Manifest
  pub locks : Dict String UpdateLock
  pub work : Dict (String × String) Bytes
  pub archive : Dict (String × String) Bytes
  pub dlq : Dict (String × String) Bytes
  pub dlq_meta : Dict (String × String) DlqMeta
  pub processed : Dict String (List ProcessedEntry)
  pub placed : Dict (String × String) Bytes  -- by subscription directory and file name
  pub originals : Dict (String × String) SourceFile  -- by source directory and file name
  pub lease : Option LockRecord  -- data_dir/lock
  pub log : List LogEvent
  pub metrics : Metrics
  pub observations : Dict (String × String) Observation  -- by topic and file name
  pub ops : ℕ

-- What the program does not decide.
pub record Env : Type 0 where
  pub fault : ℕ → Bool  -- whether the n-th operation fails
  pub clock : ℕ → ℕ  -- what time.Now shows at the n-th operation
  pub random_token : ℕ → String  -- newLockToken
  pub others : ℕ → World → World  -- what other processes do while this one waits
  pub canceled : ℕ → Bool  -- whether the context is canceled at the n-th operation
  pub alive : ℕ → Bool  -- whether signal 0 reaches the process of a positive pid
  -- Whether a creation that fails at the n-th operation leaves its file: Close failed, or Remove after
  -- a failed write. A file that is left and cannot be read is a fault of its later readings.
  pub leaves : ℕ → Bool
  pub zone : ℕ → Span  -- the local time zone, looked up at an instant
  pub error_text : String  -- what the operating system says of a failed write
  pub format : ℕ → String  -- Time.Format with the layout 20060102T150405

abbrev pub next : World → World
next w = record w { ops = suc w.ops }

-- What a creation that fails leaves: `made` is the world with the file.
abbrev pub left : Env → World → World → World
left env made w = if env.leaves w.ops then made else w

-- Whether the operation at hand fails.
abbrev pub fails : Env → World → Bool
fails env w = env.fault w.ops

abbrev pub now : Env → World → ℕ
now env w = env.clock w.ops

abbrev pub emit : LogEvent → World → World
emit e w = record w { log = w.log ++ e ∷ [] }

-- No other process writes under the data directory while this one waits.
pub record IsAlone (env : Env) : Type 0 where
  pub quiet : (n : ℕ) (w : World) → env.others n w ≡ w

abbrev pub Io {ℓ} : Type ℓ → Type ℓ
Io A = World → Result A × World

-- A chain of calls that returns at the first error.
abbrev pub continue {ℓ κ} : {A : Type ℓ} {B : Type κ} → Result A → (A → Io B) → Io B
continue (ok a) f w = f a w
continue (err e) f w = (err e, w)

infixl 5 ◌>>=◌ ◌>>◌
abbrev pub ◌>>=◌ {ℓ κ} : {A : Type ℓ} {B : Type κ} → Io A → (A → Io B) → Io B
◌>>=◌ m f w = let (r, w') = m w in continue r f w'

abbrev pub ◌>>◌ {ℓ} : {B : Type ℓ} → Io (Unit {0}) → Io B → Io B
m >> n = m >>= λ _. n

abbrev pub pure {ℓ} : {A : Type ℓ} → A → Io A
pure a w = (ok a, w)

-- Every access succeeds.
pub record IsHealthy (env : Env) : Type 0 where
  pub works : (n : ℕ) → env.fault n ≡ false
