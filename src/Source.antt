-- ===== src/Source.antt =====
-- internal/gateway/source/connector.go and local.go: how files come out of a source directory.
-- The stages are given the connectors for FTP, SFTP and SCP as values of Connector; the children have
-- what these connectors do.
pub mod Download
pub mod Fetched
pub mod Shell
pub mod Remote
pub mod Ftp
pub mod Sftp
pub mod Listing
pub mod Scp
pub mod Sessions
use Prim.Native.String.{compare}
use Prim.Native.Nat.{Ordering}
use file_pubsub.Base.{
  ℕ, String, ◌≡◌, Bool, true, false, not, ◌&&◌, ◌||◌, Option, none, some, List, [], ◌∷◌, ◌==◌,
  string_eq, nat_eq, pair_eq, length, if◌then◌else◌, Result, ok, err, io_error, not_exist, canceled,
  usage_error,
}
use file_pubsub.Base.Dict
use file_pubsub.Base.Dict.{Dict}
use file_pubsub.Base.Text.{has_slash}
use file_pubsub.Config.{Source}
use file_pubsub.Store.World.{World, Env, Bytes, SourceFile, Io, fails, next}

pub record FileInfo : Type 0 where
  pub name : String
  pub size : ℕ
  pub mod_time : ℕ

-- Fetch leaves a verified copy in the fetch directory, which stands here for its content.
pub record Connector : Type 0 where
  pub list : Io (List FileInfo)
  pub fetch : String → Io Bytes
  pub remove : String → Io (Unit {0})

-- os.ReadDir sorts by file name.
insert_file : FileInfo → List FileInfo → List FileInfo
insert_file f [] = f ∷ []
insert_file f (g ∷ gs) =
    let later = insert_file f gs in
    elim (compare f.name g.name) [ Ordering.gt ↦ g ∷ later | _ ↦ f ∷ g ∷ gs ]

dir_files : String → Dict (String × String) SourceFile → List FileInfo
unfolding insert_file
dir_files dir [] = []
dir_files dir (((d, name), f) ∷ rest) =
    let files = dir_files dir rest in
    if d == dir
    then insert_file (record { name = name; size = f.size; mod_time = f.mod_time }) files
    else files

-- The name is its own filepath.Base: it has no separator, or it is the root.
unfoldable pub validate_name : String → Bool
validate_name name = not (name == "") && (name == "/" || not (has_slash name))

module _ (env : Env) (dir : String) where
  unfoldable pub local_list : Io (List FileInfo)
  unfolding dir_files
  local_list w =
      if env.canceled w.ops
      then (err canceled, w)
      else if fails env w
      then (err io_error, next w)
      else (ok (dir_files dir w.originals), next w)

  -- The size that Stat showed is compared with the number of bytes copied.
  abbrev fetched : Option SourceFile → Io Bytes
  fetched none w = (err not_exist, next w)
  fetched (some f) w =
      if fails env w
      then (err io_error, next w)
      else if length f.content == f.size
      then (ok f.content, next w)
      else (err io_error, next w)

  unfoldable pub local_fetch : String → Io Bytes
  unfolding validate_name
  local_fetch name w =
      if env.canceled w.ops
      then (err canceled, w)
      else if validate_name name
      then fetched (Dict.get w.originals (dir, name)) w
      else (err usage_error, w)

  abbrev removed : String → Option SourceFile → Io (Unit {0})
  removed name none w = (err not_exist, next w)
  removed name (some _) w =
      if fails env w
      then (err io_error, next w)
      else (ok tt, next (record w { originals = Dict.remove w.originals (dir, name) }))

  unfoldable pub local_remove : String → Io (Unit {0})
  unfolding validate_name
  local_remove name w =
      if env.canceled w.ops
      then (err canceled, w)
      else if validate_name name
      then removed name (Dict.get w.originals (dir, name)) w
      else (err usage_error, w)

  unfoldable pub local : Connector
  unfolding local_list local_fetch local_remove
  local = record { list = local_list; fetch = local_fetch; remove = local_remove }

-- New of connector.go; `remote` gives the connectors that are not local.
unfoldable pub new_connector : Env → (Source → Connector) → Source → Result Connector
unfolding local
new_connector env remote s =
    if s.kind == "local" || s.kind == "inbox"
    then ok (local env s.directory)
    else if s.kind == "ftp" || (s.kind == "sftp" || s.kind == "scp")
    then ok (remote s)
    else err usage_error
