-- ===== src/Source/Sessions.antt =====
-- internal/gateway/source: the requests of a collection to a remote connector, and Close after them.
pub mod Calls
pub mod Idle
pub mod Fetches
use file_pubsub.Base.{ℕ, zero, String, ◌≡◌, Bool, true, false, List, [], ◌∷◌, if◌then◌else◌, Result}
use file_pubsub.Config.{Source}
use file_pubsub.Source.Download.{Server, Session, Link, is_open, Call}
use file_pubsub.Source.Ftp.{ftp_list, ftp_fetch, ftp_remove, ftp_close}
use file_pubsub.Source.Sftp.{sftp_list, sftp_fetch, sftp_remove, sftp_close}
use file_pubsub.Source.Scp.{scp_list, scp_fetch, scp_remove, scp_close}

-- Which connector New gave.
pub data Protocol : Type 0 where
  ftp sftp scp : Protocol

pub data Request : Type 0 where
  list : Request
  fetch : String → Request
  remove : String → Request

-- Whether a client of a subsystem stands over the connection.
abbrev pub is_layered : Protocol → Bool
is_layered ftp = false
is_layered sftp = true
is_layered scp = false

module _ (srv : Server) (o : Source) (configured : Bool) where
  abbrev pub fetch_by : Protocol → String → Call String
  fetch_by ftp name s = ftp_fetch srv o name s
  fetch_by sftp name s = sftp_fetch srv o configured name s
  fetch_by scp name s = scp_fetch srv o configured name s

  -- A call of the interface, for what it changes.
  unfoldable pub serve : Protocol → Request → Session → Session
  unfolding ftp_list ftp_remove sftp_list sftp_remove scp_list scp_remove
  serve ftp list s = (ftp_list srv o s).1
  serve sftp list s = (sftp_list srv o configured s).1
  serve scp list s = (scp_list srv o configured s).1
  serve p (fetch name) s = (fetch_by p name s).1
  serve ftp (remove name) s = (ftp_remove srv o name s).1
  serve sftp (remove name) s = (sftp_remove srv o configured name s).1
  serve scp (remove name) s = (scp_remove srv o configured name s).1

  unfoldable pub serve_all : Protocol → List Request → Session → Session
  unfolding serve
  serve_all p [] s = s
  serve_all p (r ∷ rs) s = serve_all p rs (serve p r s)

  unfoldable pub close_connector : Protocol → Call (Unit {0})
  unfolding ftp_close sftp_close scp_close
  close_connector ftp s = ftp_close srv o s
  close_connector sftp s = sftp_close srv o configured s
  close_connector scp s = scp_close srv o configured s

-- One connection is open while the connector holds it, and none otherwise.
abbrev pub IsBalanced : Bool → Link → Type 0
IsBalanced layered l =
    (l.connections ≡ (if l.connected then 1 else 0))
    × (l.subsystem ≡ (if layered then l.connected else false))

-- Between two requests nothing else is open.
abbrev pub IsIdle : Bool → Session → Type 0
IsIdle layered s = IsBalanced layered s.link × (is_open s.response ≡ false)

abbrev pub IsShut : Session → Type 0
IsShut s =
    (s.link.connections ≡ 0)
    × (s.link.connected ≡ false)
    × (s.link.subsystem ≡ false)
    × (is_open s.response ≡ false)
