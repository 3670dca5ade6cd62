-- ===== src/Source/Scp.antt =====
-- internal/gateway/source/scp.go: the connector for SCP, which runs commands of a shell.
use file_pubsub.Base.{
  ℕ, String, Bool, true, false, Option, none, some, List, ◌∷◌, string_eq, if◌then◌else◌, ok, err,
  io_error,
}
use file_pubsub.Base.Int.{ℤ}
use file_pubsub.Config.{Source}
use file_pubsub.Source.{validate_name}
use file_pubsub.Source.Download.{
  Server, Session, opened, Call, tick, fails, write_temp_and_rename, close_response,
}
use file_pubsub.Source.Listing.{Listed, parse_scp_list}
use file_pubsub.Source.Remote.{
  and_then, call, checked, checked_name, dial_ssh, less_open, and_close,
}

module _ (srv : Server) (o : Source) (configured : Bool) where
  abbrev scp_held : Session → Session
  scp_held s = record s { link = record s.link { connected = true } }

  unfoldable pub scp_connect : Call (Unit {0})
  unfolding dial_ssh
  scp_connect s =
      if s.link.connected
      then (ok tt, s)
      else and_then (dial_ssh srv o configured s) (λ _ t. (ok tt, scp_held t))

  abbrev pub in_session : Session → Session
  in_session s = record s { response = opened }

  -- A command in a session of its own. The result is the count at which it ran, by which the server
  -- tells what it printed.
  unfoldable pub run : Call ℕ
  unfolding scp_connect close_response
  run s = and_then (scp_connect s) (λ _ t. and_then (call srv t) (λ _ u.
      and_close srv (and_then (call srv (in_session u)) (λ _ v. (ok (in_session u).calls, v)))))

  unfoldable pub scp_list : Call (List Listed)
  unfolding run parse_scp_list
  scp_list s =
      and_then (checked srv s)
        (λ _ t. and_then (run t) (λ at u. (parse_scp_list (srv.output at), u)))

  -- finish: the command that printed the content has to end well.
  abbrev pub wait : Session → Bool × Session
  wait s = (fails srv s, tick s)

  -- StdoutPipe and Start, then the download.
  unfoldable pub cat : String → ℤ → Call String
  unfolding write_temp_and_rename
  cat name want s = and_then (call srv s) (λ _ t.
      and_then (call srv t)
        (λ _ u. write_temp_and_rename srv name (srv.copy t.calls name) want (some wait) u))

  unfoldable pub sized : String → Option ℤ → Call String
  unfolding scp_connect close_response write_temp_and_rename
  sized name none s = (err io_error, s)
  sized name (some want) s =
      and_then (scp_connect s)
        (λ _ t. and_then (call srv t) (λ _ u. and_close srv (cat name want (in_session u))))

  unfoldable pub scp_fetch : String → Call String
  unfolding run validate_name scp_connect close_response write_temp_and_rename
  scp_fetch name s =
      and_then (checked_name srv name s)
        (λ _ t. and_then (run t) (λ at u. sized name (srv.size at name) u))

  unfoldable pub scp_remove : String → Call (Unit {0})
  unfolding run validate_name
  scp_remove name s =
      and_then (checked_name srv name s)
        (λ _ t. and_then (run t) (λ _ u. (ok tt, record u { removed = name ∷ u.removed })))

  unfoldable pub scp_close : Call (Unit {0})
  scp_close s =
      if s.link.connected
      then (
        if fails srv s then err io_error else ok tt,
        tick (record (less_open srv s) {
          link = record (less_open srv s).link { connected = false };
        }),
      )
      else (ok tt, s)
