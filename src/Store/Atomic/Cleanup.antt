-- ===== src/Store/Atomic/Cleanup.antt =====
-- internal/gateway/store/atomic.go: CleanupTempFiles and the moments of an atomic write.
use file_pubsub.Base.{String, ◌≡◌, refl, arith, Bool, false, [], ◌∷◌, string_eq, eq_iff, ◌⊎◌, some}
use file_pubsub.Base.Dict
use file_pubsub.Base.Dict.{get-remove}
use file_pubsub.Base.Text.{has_suffix}
use file_pubsub.Store.World.{Bytes}
use file_pubsub.Store.Atomic.{
  folder, file, Dir, temp_suffix, Moment, Run, cleanup_loop, cleanup_temp_files,
}
use file_pubsub.Store.Atomic.Moments.{moments}

module _ (stuck : String → Bool) (name : String) (plain : has_suffix name temp_suffix ≡ false) where
  cleanup_loop-plain :
      (entries d : Dir) → Dict.get (cleanup_loop stuck entries d).1 name ≡ Dict.get d name
  unfolding cleanup_loop
  cleanup_loop-plain [] d = refl
  cleanup_loop-plain ((n, folder) ∷ entries) d = cleanup_loop-plain entries d
  cleanup_loop-plain ((n, file content) ∷ entries) d = ground (
    arith,
    cleanup_loop-plain entries d,
    cleanup_loop-plain entries (Dict.remove d n),
    get-remove d n name,
    eq_iff n name,
  )

-- When an atomic write is killed at any moment and the directory is cleaned up afterwards, whichever
-- files cannot be removed, a final name that does not itself end in .tmp holds what it held before
-- the write, or the whole content.
pub cleanup-moments :
    (stuck : String → Bool) (dst : String) (content : Bytes) (before : Dir) {m : Moment}
    → has_suffix dst temp_suffix ≡ false
    → Run dst content before m
    → let d = (cleanup_temp_files stuck m.dir).1 in
      (Dict.get d dst ≡ Dict.get before dst) ⊎ (Dict.get d dst ≡ some (file content))
unfolding cleanup_temp_files
cleanup-moments stuck dst content before {m} plain r =
    ground (arith, (moments dst content before r).0, cleanup_loop-plain stuck dst plain m.dir m.dir)
