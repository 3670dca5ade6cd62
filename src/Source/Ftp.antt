-- ===== src/Source/Ftp.antt =====
-- internal/gateway/source/ftp.go: the connector for FTP.
use file_pubsub.Base.{
  String, true, false, not, Option, none, some, List, [], ◌∷◌, string_eq, if◌then◌else◌, ok, err,
  io_error,
}
use file_pubsub.Base.Int.{ℤ, negsuc}
use file_pubsub.Config.{Source}
use file_pubsub.Source.{FileInfo, validate_name}
use file_pubsub.Source.Download.{
  Server, Session, RemoteEntry, Call, tick, fails, download_and_close,
}
use file_pubsub.Source.Remote.{
  host_port, and_then, call, checked, checked_name, dialed, more_open, less_open,
}

unfoldable pub ftp_entries_to_file_info : List RemoteEntry → List FileInfo
ftp_entries_to_file_info [] = []
ftp_entries_to_file_info (e ∷ es) =
    let files = ftp_entries_to_file_info es in if not e.is_file then files else e.info ∷ files

module _ (srv : Server) (o : Source) where
  abbrev held : Session → Session
  held s = record s { link = record s.link { connected = true } }

  -- Quit after a refused login: its own error is ignored.
  abbrev login : Call (Unit {0})
  login s =
      if fails srv s then (err io_error, tick (less_open srv (tick s))) else (ok tt, held (tick s))

  unfoldable pub ftp_connect : Call (Unit {0})
  unfolding host_port
  ftp_connect s =
      let addr = host_port o.host o.port 21 in
      if s.link.connected
      then (ok tt, s)
      else if fails srv s
      then (err io_error, dialed srv addr s)
      else login (more_open srv (dialed srv addr s))

  unfoldable pub ftp_list : Call (List FileInfo)
  unfolding ftp_connect ftp_entries_to_file_info
  ftp_list s = and_then (checked srv s) (λ _ t. and_then (ftp_connect t) (λ _ u.
      and_then (call srv u) (λ _ v. (ok (ftp_entries_to_file_info (srv.entries u.calls)), v))))

  abbrev pub size_or_unknown : Option ℤ → ℤ
  size_or_unknown none = negsuc 0
  size_or_unknown (some n) = n

  -- SIZE: a server that does not answer it leaves the size unknown.
  abbrev pub asked_size : String → Session → ℤ
  asked_size name s = if fails srv s then negsuc 0 else size_or_unknown (srv.size s.calls name)

  unfoldable pub ftp_fetch : String → Call String
  unfolding ftp_connect validate_name download_and_close
  ftp_fetch name s = and_then (checked_name srv name s) (λ _ t. and_then (ftp_connect t) (λ _ u.
      and_then (call srv (tick u))
        (λ _ v. download_and_close srv name (srv.copy (tick u).calls name) (asked_size name u) v)))

  unfoldable pub ftp_remove : String → Call (Unit {0})
  unfolding ftp_connect validate_name
  ftp_remove name s = and_then (checked_name srv name s) (λ _ t.
      and_then (ftp_connect t)
        (λ _ u. and_then (call srv u) (λ _ v. (ok tt, record v { removed = name ∷ v.removed }))))

  abbrev hung_up : Session → Session
  hung_up s = record s { link = record s.link { connected = false } }

  unfoldable pub ftp_close : Call (Unit {0})
  ftp_close s =
      if s.link.connected
      then (if fails srv s then err io_error else ok tt, hung_up (tick (less_open srv s)))
      else (ok tt, s)
