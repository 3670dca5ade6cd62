-- ===== src/Source/Sftp.antt =====
-- internal/gateway/source/sftp.go: the connector for SFTP.
use file_pubsub.Base.{
  String, Bool, true, false, not, ◌||◌, Option, none, some, List, [], ◌∷◌, string_eq, if◌then◌else◌,
  Result, ok, err, io_error,
}
use file_pubsub.Base.Int.{ℤ}
use file_pubsub.Config.{Source}
use file_pubsub.Source.{FileInfo, validate_name}
use file_pubsub.Source.Download.{
  Server, Session, opened, RemoteEntry, Call, tick, fails, write_temp_and_rename, close_response,
}
use file_pubsub.Source.Remote.{
  and_then, call, checked, checked_name, dial_ssh, less_open, and_close,
}

-- The loop of List.
unfoldable pub sftp_files : List RemoteEntry → List FileInfo
sftp_files [] = []
sftp_files (e ∷ es) = let files = sftp_files es in if not e.is_file then files else e.info ∷ files

module _ (srv : Server) (o : Source) (configured : Bool) where
  abbrev sftp_held : Session → Session
  sftp_held s = record s { link = record s.link { connected = true; subsystem = true } }

  abbrev sftp_client : Call (Unit {0})
  sftp_client s =
      if fails srv s
      then (err io_error, tick (less_open srv (tick s)))
      else (ok tt, sftp_held (tick s))

  unfoldable pub sftp_connect : Call (Unit {0})
  unfolding dial_ssh
  sftp_connect s =
      if s.link.subsystem
      then (ok tt, s)
      else and_then (dial_ssh srv o configured s) (λ _ t. sftp_client t)

  unfoldable pub sftp_list : Call (List FileInfo)
  unfolding sftp_connect sftp_files
  sftp_list s = and_then (checked srv s) (λ _ t.
      and_then (sftp_connect t)
        (λ _ u. and_then (call srv u) (λ _ v. (ok (sftp_files (srv.entries u.calls)), v))))

  abbrev pub opened_file : Session → Session
  opened_file s = record s { response = opened }

  abbrev pub known_size : Option ℤ → String → Session → Result String × Session
  known_size none name s = (err io_error, s)
  known_size (some want) name s = write_temp_and_rename srv name (srv.copy s.calls name) want none s

  -- Stat of the open file, and the download.
  unfoldable pub stat_and_copy : String → Call String
  unfolding write_temp_and_rename
  stat_and_copy name s =
      if fails srv s
      then (err io_error, tick s)
      else known_size (srv.size s.calls name) name (tick s)

  unfoldable pub sftp_fetch : String → Call String
  unfolding sftp_connect validate_name write_temp_and_rename close_response
  sftp_fetch name s = and_then (checked_name srv name s) (λ _ t.
      and_then (sftp_connect t)
        (λ _ u. and_then (call srv u) (λ _ v. and_close srv (stat_and_copy name (opened_file v)))))

  unfoldable pub sftp_remove : String → Call (Unit {0})
  unfolding sftp_connect validate_name
  sftp_remove name s = and_then (checked_name srv name s) (λ _ t.
      and_then (sftp_connect t)
        (λ _ u. and_then (call srv u) (λ _ v. (ok tt, record v { removed = name ∷ v.removed }))))

  -- Close keeps the first of the two errors.
  abbrev subsystem_closed : Session → Bool × Session
  subsystem_closed s =
      if s.link.subsystem
      then (fails srv s, tick (record s { link = record s.link { subsystem = false } }))
      else (false, s)

  abbrev ssh_closed : Bool × Session → Bool × Session
  ssh_closed (bad, s) =
      if s.link.connected
      then (
        bad || fails srv s,
        tick (record (less_open srv s) {
          link = record (less_open srv s).link { connected = false };
        }),
      )
      else (bad, s)

  abbrev close_answer : Bool × Session → Result (Unit {0}) × Session
  close_answer (bad, s) = (if bad then err io_error else ok tt, s)

  unfoldable pub sftp_close : Call (Unit {0})
  sftp_close s = close_answer (ssh_closed (subsystem_closed s))
