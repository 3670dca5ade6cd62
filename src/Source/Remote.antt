-- ===== src/Source/Remote.antt =====
-- internal/gateway/source/remote.go and sftp.go: addresses, authentication and the connection over ssh
-- that the connectors for SFTP and SCP share.
use Prim.Native.String.{◌++◌ as append}
use file_pubsub.Base.{
  ℕ, zero, suc, ◌+◌, ◌-◌, String, Bool, false, not, ◌||◌, Option, none, some, List, [], ◌∷◌, ◌++◌,
  string_eq, ◌==◌, if◌then◌else◌, Result, ok, err, io_error, canceled, usage_error,
}
use file_pubsub.Base.Int.{ℤ, pos, negsuc}
use file_pubsub.Base.Text.{decimal}
use file_pubsub.Store.World.{Bytes}
use file_pubsub.Config.{Source, Auth}
use file_pubsub.Source.{validate_name}
use file_pubsub.Source.Download.{Server, Session, Call, tick, fails, close_response}

-- strconv.Itoa.
abbrev itoa : ℤ → String
itoa (pos n) = decimal n
itoa (negsuc n) = append "-" (decimal (n + 1))

unfoldable pub has_colon : String → Bool
has_colon String.[] = false
has_colon (String.◌∷◌ c s) = String.◌∷◌ c String.[] == ":" || has_colon s

-- net.JoinHostPort puts brackets around a host that is an IPv6 address.
abbrev join_host_port : String → String → String
join_host_port host port =
    if has_colon host
    then append "[" (append host (append "]:" port))
    else append host (append ":" port)

abbrev or_default : ℤ → ℕ → ℤ
or_default (pos zero) default_port = pos default_port
or_default (pos (suc n)) default_port = pos (suc n)
or_default (negsuc n) default_port = negsuc n

unfoldable pub host_port : String → ℤ → ℕ → String
unfolding has_colon decimal
host_port host port default_port = join_host_port host (itoa (or_default port default_port))

-- What the ssh library makes of a key file.
pub data Parsed (Signer : Type 0) : Type 0 where
  signer : Signer → Parsed Signer
  passphrase_missing : Parsed Signer
  no_key : Parsed Signer

pub data AuthMethod (Signer : Type 0) : Type 0 where
  public_keys : Signer → AuthMethod Signer
  password_auth : String → AuthMethod Signer

module _ {Signer : Type 0} (read_file : String → Result Bytes) (parse : Bytes → Parsed Signer)
    (parse_with : Bytes → String → Option Signer) where
  abbrev from_option : Option Signer → Result (List (AuthMethod Signer))
  from_option none = err io_error
  from_option (some k) = ok (public_keys k ∷ [])

  abbrev key_parsed : String → Bytes → Parsed Signer → Result (List (AuthMethod Signer))
  key_parsed password pem (signer k) = ok (public_keys k ∷ [])
  key_parsed password pem passphrase_missing =
      if password == "" then err io_error else from_option (parse_with pem password)
  key_parsed password pem no_key = err io_error

  abbrev key_read : String → Result Bytes → Result (List (AuthMethod Signer))
  key_read password (err e) = err e
  key_read password (ok pem) = key_parsed password pem (parse pem)

  abbrev key_methods : Auth → Result (List (AuthMethod Signer))
  key_methods a = if a.key_file == "" then ok [] else key_read a.password (read_file a.key_file)

  abbrev with_password : String → List (AuthMethod Signer) → List (AuthMethod Signer)
  with_password password ms = if password == "" then ms else ms ++ (password_auth password ∷ [])

  abbrev not_empty : List (AuthMethod Signer) → Result (List (AuthMethod Signer))
  not_empty [] = err usage_error
  not_empty (m ∷ ms) = ok (m ∷ ms)

  abbrev completed : Auth → Result (List (AuthMethod Signer)) → Result (List (AuthMethod Signer))
  completed a (err e) = err e
  completed a (ok ms) = not_empty (with_password a.password ms)

  -- The methods of the client configuration, in the order in which they are offered.
  unfoldable pub ssh_client_config : Auth → Result (List (AuthMethod Signer))
  ssh_client_config a = completed a (key_methods a)

-- What follows a call without an error.
abbrev pub and_then {ℓ κ} :
    {A : Type ℓ} {B : Type κ}
    → Result A × Session
    → (A → Session → Result B × Session)
    → Result B × Session
and_then (err e, s) k = (err e, s)
and_then (ok a, s) k = k a s

module _ (srv : Server) where
  -- A call of which only success or failure counts.
  abbrev pub call : Call (Unit {0})
  call s = if fails srv s then (err io_error, tick s) else (ok tt, tick s)

  -- The checks before a connector does anything.
  abbrev pub checked : Call (Unit {0})
  checked s = if srv.canceled s.calls then (err canceled, s) else (ok tt, s)

  abbrev pub checked_name : String → Call (Unit {0})
  checked_name name s =
      and_then (checked s) (λ _ t. if validate_name name then (ok tt, t) else (err usage_error, t))

  abbrev pub dialed : String → Session → Session
  dialed addr s = tick (record s { dialed = addr ∷ s.dialed })

  abbrev pub more_open : Session → Session
  more_open s = record s { link = record s.link { connections = s.link.connections + 1 } }

  abbrev pub less_open : Session → Session
  less_open s = record s { link = record s.link { connections = s.link.connections - 1 } }

  -- The flag says whether sshClientConfig gave no error: the files it reads do not change.
  unfoldable pub dial_ssh : Source → Bool → Call (Unit {0})
  unfolding host_port
  dial_ssh o configured s =
      let addr = host_port o.host o.port 22 in
      if not configured
      then (err io_error, s)
      else if fails srv s
      then (err io_error, dialed addr s)
      else (ok tt, more_open (dialed addr s))

  -- The deferred Close of what was opened; its error is ignored.
  abbrev pub and_close {ℓ} : {A : Type ℓ} → Result A × Session → Result A × Session
  unfolding close_response
  and_close (r, s) = (r, (close_response srv s).1)
