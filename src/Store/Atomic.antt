-- ===== src/Store/Atomic.antt =====
-- internal/gateway/store/atomic.go: WriteFileAtomic one call of the system at a time, so that each
-- moment at which the process can be killed is a state; and CleanupTempFiles.
pub mod Moments
pub mod Cleanup
use Prim.Native.String.{◌++◌ as append}
use file_pubsub.Base.{
  ℕ, String, ◌≡◌, Bool, true, false, not, ◌||◌, Option, none, some, List, [], ◌∷◌, ◌++◌, string_eq,
  if◌then◌else◌, Result, ok, err, Error, io_error,
}
use file_pubsub.Base.Dict
use file_pubsub.Base.Dict.{Dict}
use file_pubsub.Base.Text.{has_suffix}
use file_pubsub.Store.World.{Bytes}

-- What a directory holds under a name.
pub data Entry : Type 0 where
  folder : Entry
  file : Bytes → Entry

abbrev pub Dir : Type 0
Dir = Dict String Entry

abbrev pub temp_suffix : String
temp_suffix = ".tmp"

abbrev pub temp_of : String → String
temp_of dst = append dst temp_suffix

-- Where the call stands.
pub data Phase : Type 0 where
  starting : Phase  -- before MkdirAll
  opening : Phase  -- before OpenFile
  copying : Bytes → Phase  -- in io.Copy, with what is written so far
  copied : Phase  -- before Sync
  synced : Phase  -- before Close
  closed : Phase  -- before Rename
  removing : Phase  -- before Remove of the temporary file, after an error
  returned : Result (Unit {0}) → Phase

pub record Moment : Type 0 where
  pub dir : Dir
  pub phase : Phase

-- One call of the system. O_TRUNC empties a temporary file that was left over. A write of io.Copy
-- takes any part of what is left.
pub data Call (dst : String) (content : Bytes) (d : Dir) : Phase → Dir → Phase → Type 0 where
  mkdir : Call dst content d starting d opening
  create : Call dst content d opening (Dict.put d (temp_of dst) (file [])) (copying [])
  write :
      {done : Bytes} (part rest : Bytes)
      → content ≡ (done ++ part) ++ rest
      → Call dst content d
          (copying done)
          (Dict.put d (temp_of dst) (file (done ++ part)))
          (copying (done ++ part))
  finish : Call dst content d (copying content) d copied
  sync : Call dst content d copied d synced
  close : Call dst content d synced d closed
  rename :
      {e : Entry}
      → Dict.get d (temp_of dst) ≡ some e
      → Call dst content d closed (Dict.put (Dict.remove d (temp_of dst)) dst e) (returned (ok tt))
  fail_mkdir : Call dst content d starting d (returned (err io_error))
  fail_open : Call dst content d opening d (returned (err io_error))
  fail_copy : {done : Bytes} → Call dst content d (copying done) d removing
  fail_sync : Call dst content d copied d removing
  fail_close : Call dst content d synced d removing
  fail_rename : Call dst content d closed d removing
  remove : Call dst content d removing (Dict.remove d (temp_of dst)) (returned (err io_error))
  fail_remove : Call dst content d removing d (returned (err io_error))

pub data Run (dst : String) (content : Bytes) (before : Dir) : Moment → Type 0 where
  begin : Run dst content before (record { dir = before; phase = starting })
  next :
      {m : Moment} {d : Dir} {p : Phase}
      → Run dst content before m
      → Call dst content m.dir m.phase d p
      → Run dst content before (record { dir = d; phase = p })

-- The loop of CleanupTempFiles over the names that ReadDir gave. The first Remove that fails ends
-- it; the function says which names cannot be removed.
abbrev is_temp : String → Entry → Bool
is_temp name folder = false
is_temp name (file content) = has_suffix name temp_suffix

unfoldable pub cleanup_loop : (String → Bool) → Dir → Dir → Result (Unit {0}) × Dir
cleanup_loop stuck [] d = (ok tt, d)
cleanup_loop stuck ((name, e) ∷ entries) d =
    let rest = cleanup_loop stuck entries (Dict.remove d name) in
    let skip = cleanup_loop stuck entries d in
    if not (is_temp name e) then skip else if stuck name then (err io_error, d) else rest

unfoldable pub cleanup_temp_files : (String → Bool) → Dir → Result (Unit {0}) × Dir
unfolding cleanup_loop
cleanup_temp_files stuck d = cleanup_loop stuck d d
