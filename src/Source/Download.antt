-- ===== src/Source/Download.antt =====
-- internal/gateway/source/remote.go and downloadAndClose of ftp.go: how the bytes of a server come
-- into the destination directory.
pub mod Whole
pub mod Views
pub mod Closed
use file_pubsub.Base.{
  ℕ, ◌+◌, String, Bool, true, false, not, ◌||◌, Option, none, some, List, [], string_eq, nat_eq,
  ◌==◌, length, if◌then◌else◌, Result, ok, err, io_error,
}
use file_pubsub.Base.Dict
use file_pubsub.Base.Int.{ℤ, pos, negsuc}
use file_pubsub.Store.World.{Bytes}
use file_pubsub.Store.Atomic.{Dir, file, temp_of}
use file_pubsub.Source.{FileInfo}

-- What io.Copy has copied, and whether it ended with an error of the reader or of the writer.
pub record Copy : Type 0 where
  pub bytes : Bytes
  pub broken : Bool

-- An entry of a server's listing.
pub record RemoteEntry : Type 0 where
  pub is_file : Bool
  pub info : FileInfo

-- The server, the network and the destination disk, as the connectors' calls find them. The calls
-- are counted, and each answer may depend on the count. The source directory is fixed, so a remote
-- path is its name there.
pub record Server : Type 0 where
  pub fault : ℕ → Bool  -- this call fails
  pub canceled : ℕ → Bool  -- ctx.Err()
  pub entries : ℕ → List RemoteEntry
  pub output : ℕ → String  -- what the command that lists prints
  pub size : ℕ → String → Option ℤ  -- none for a text that is not a number
  pub copy : ℕ → String → Copy

-- The data connection of a download, closed with or without an error.
pub data Response : Type 0 where
  opened : Response
  closed : Bool → Response

abbrev pub is_open : Response → Bool
is_open opened = true
is_open (closed failed) = false

-- The fields of a connector that hold its clients, not nil or nil, and the open connections.
pub record Link : Type 0 where
  pub connected : Bool
  pub subsystem : Bool  -- the client of sftp over the one of ssh
  pub connections : ℕ

-- What the connectors change.
pub record Session : Type 0 where
  pub calls : ℕ
  pub dir : Dir  -- the destination
  pub link : Link
  pub dialed : List String
  pub response : Response
  pub closes : ℕ  -- how often a response was closed
  pub removed : List String  -- names that the server was told to remove, the latest first

abbrev pub Call {ℓ} : Type ℓ → Type ℓ
Call A = Session → Result A × Session

abbrev pub tick : Session → Session
tick s = record s { calls = s.calls + 1 }

-- `want` is negative for a size that is not known.
abbrev pub is_mismatch : ℤ → ℕ → Bool
is_mismatch (pos n) written = not (n == written)
is_mismatch (negsuc n) written = false

module _ (srv : Server) where
  -- A call whose error the code looks at.
  abbrev pub fails : Session → Bool
  fails s = srv.fault s.calls

  abbrev pub remove_temp : String → Session → Session
  remove_temp name s =
      if fails s then tick s else tick (record s { dir = Dict.remove s.dir (temp_of name) })

  -- The Boolean is `err != nil`.
  abbrev pub sync_file : Bool × Session → Bool × Session
  sync_file (bad, s) = if bad then (true, s) else (fails s, tick s)

  abbrev pub close_file : Bool × Session → Bool × Session
  close_file (bad, s) = (bad || fails s, tick s)

  abbrev pub run_finish : Option (Session → Bool × Session) → Bool × Session → Bool × Session
  run_finish none q = q
  run_finish (some finish) (bad, s) = if bad then (true, s) else finish s

  abbrev pub moved : String → Bytes → Session → Session
  moved name content s =
      tick (record s { dir = Dict.put (Dict.remove s.dir (temp_of name)) name (file content) })

  abbrev pub conclude : String → Copy → ℤ → Bool × Session → Result String × Session
  conclude name c want (bad, s) =
      if bad || is_mismatch want (length c.bytes)
      then (err io_error, remove_temp name s)
      else if fails s
      then (err io_error, remove_temp name (tick s))
      else (ok name, moved name c.bytes s)

  -- The temporary file with what io.Copy wrote.
  abbrev pub copied : String → Copy → Session → Bool × Session
  copied name c s =
      (c.broken, tick (record s { dir = Dict.put s.dir (temp_of name) (file c.bytes) }))

  -- The path that it returns is the name in the destination directory.
  unfoldable pub write_temp_and_rename :
      String → Copy → ℤ → Option (Session → Bool × Session) → Call String
  write_temp_and_rename name c want finish s =
      if fails s
      then (err io_error, tick s)
      else if fails (tick s)
      then (err io_error, tick (tick s))
      else conclude name c want
          (run_finish finish (close_file (sync_file (copied name c (tick (tick s))))))

  abbrev pub answered : Response → Session → Bool × Session
  answered opened s =
      (fails s, tick (record s { response = closed (fails s); closes = s.closes + 1 }))
  answered (closed failed) s = (failed, s)

  -- closeResp: a second call repeats the answer of the first.
  unfoldable pub close_response : Session → Bool × Session
  close_response s = answered s.response s

  abbrev pub deferred_close : Result String × Session → Result String × Session
  deferred_close (r, s) = (r, (close_response s).1)

  unfoldable pub download_and_close : String → Copy → ℤ → Call String
  unfolding write_temp_and_rename close_response
  download_and_close name c want s =
      deferred_close
        (write_temp_and_rename name c want (some close_response) (record s { response = opened }))
