-- ===== src/Source/Sessions/Calls.antt =====
-- internal/gateway/source: what a listing, a removal and a command of the remote connectors leave open.
use file_pubsub.Base.{
  ℕ, String, ◌≡◌, refl, arith, Bool, true, false, if◌then◌else◌, Result, ok, err, usage_error,
  Bool-cases, inl, inr,
}
use file_pubsub.Config.{Source}
use file_pubsub.Source.{validate_name}
use file_pubsub.Source.Download.{
  Server, Session, Response, opened, closed, fails, close_response, answered,
}
use file_pubsub.Source.Remote.{and_then, call, checked, checked_name, dial_ssh, and_close}
use file_pubsub.Source.Sessions.{IsBalanced, IsIdle}
use file_pubsub.Source.Ftp.{ftp_connect, ftp_list, ftp_remove}
use file_pubsub.Source.Sftp.{sftp_connect, sftp_list, sftp_remove}
use file_pubsub.Source.Scp.{scp_connect, in_session, run, scp_list, scp_remove}

module _ (srv : Server) (o : Source) (configured : Bool) where
  pub ftp_connect-Idle : (s : Session) → IsIdle false s → IsIdle false (ftp_connect srv o s).1
  unfolding ftp_connect
  ftp_connect-Idle s h = ground (arith, h)

  pub sftp_connect-Idle :
      (s : Session) → IsIdle true s → IsIdle true (sftp_connect srv o configured s).1
  unfolding sftp_connect dial_ssh
  sftp_connect-Idle s h = ground (arith, h)

  pub scp_connect-Idle :
      (s : Session) → IsIdle false s → IsIdle false (scp_connect srv o configured s).1
  unfolding scp_connect dial_ssh
  scp_connect-Idle s h = ground (arith, h)

  pub and_then-Idle :
      {A : Type 0} {B : Type 0} (b : Bool) (q : Result A × Session)
      (k : A → Session → Result B × Session)
      → IsIdle b q.1
      → ((a : A) (t : Session) → IsIdle b t → IsIdle b (k a t).1)
      → IsIdle b (and_then q k).1
  and_then-Idle b (err e, s) k h next = h
  and_then-Idle b (ok a, s) k h next = next a s h

  pub call-Idle : (b : Bool) (s : Session) → IsIdle b s → IsIdle b (call srv s).1
  call-Idle b s h = elim (Bool-cases (fails srv s)) [ inl e ↦ rw e h | inr e ↦ rw e h ]

  pub checked-Idle : (b : Bool) (s : Session) → IsIdle b s → IsIdle b (checked srv s).1
  checked-Idle b s h = elim (Bool-cases (srv.canceled s.calls)) [ inl e ↦ rw e h | inr e ↦ rw e h ]

  pub checked_name-Idle :
      (b : Bool) (name : String) (s : Session) → IsIdle b s → IsIdle b (checked_name srv name s).1
  checked_name-Idle b name s h =
      and_then-Idle b (checked srv s)
        (λ _ t. if validate_name name then (ok tt, t) else (err usage_error, t))
        (checked-Idle b s h)
        (λ _ t g. elim (Bool-cases (validate_name name)) [ inl e ↦ rw e g | inr e ↦ rw e g ])

  -- What was opened is closed when the function returns.
  pub and_close-Idle :
      {A : Type 0} (b : Bool) (q : Result A × Session)
      → IsBalanced b q.1.link
      → IsIdle b (and_close srv q).1
  unfolding close_response
  and_close-Idle b (r, s) h = answered-Idle s.response refl
    where
      answered-Idle : (q : Response) → s.response ≡ q → IsIdle b (answered srv q s).1
      answered-Idle opened e = (h, refl)
      answered-Idle (closed failed) e = (h, rw e refl)

  pub run-Idle : (s : Session) → IsIdle false s → IsIdle false (run srv o configured s).1
  unfolding run
  run-Idle s h =
      and_then-Idle false (scp_connect srv o configured s) _ (scp_connect-Idle s h) (λ _ t g.
        and_then-Idle false (call srv t) _ (call-Idle false t g) (λ _ u k.
          and_close-Idle false
            (and_then (call srv (in_session srv o configured u)) (λ _ v. (ok (u.calls), v)))
            (and_then-Balanced u k.0)))
    where
      and_then-Balanced :
          (u : Session)
          → IsBalanced false u.link
          → IsBalanced false
              (and_then {B = ℕ}
                (call srv (in_session srv o configured u))
                (λ _ v. (ok (u.calls), v))).1.link
      and_then-Balanced u k = elim (Bool-cases (fails srv u)) [ inl e ↦ rw e k | inr e ↦ rw e k ]

  pub ftp_list-Idle : (s : Session) → IsIdle false s → IsIdle false (ftp_list srv o s).1
  unfolding ftp_list
  ftp_list-Idle s h = and_then-Idle false (checked srv s) _ (checked-Idle false s h) (λ _ t g.
      and_then-Idle false (ftp_connect srv o t) _ (ftp_connect-Idle t g)
        (λ _ u k. and_then-Idle false (call srv u) _ (call-Idle false u k) (λ _ v l. l)))

  pub sftp_list-Idle : (s : Session) → IsIdle true s → IsIdle true (sftp_list srv o configured s).1
  unfolding sftp_list
  sftp_list-Idle s h = and_then-Idle true (checked srv s) _ (checked-Idle true s h) (λ _ t g.
      and_then-Idle true (sftp_connect srv o configured t) _ (sftp_connect-Idle t g)
        (λ _ u k. and_then-Idle true (call srv u) _ (call-Idle true u k) (λ _ v l. l)))

  pub scp_list-Idle : (s : Session) → IsIdle false s → IsIdle false (scp_list srv o configured s).1
  unfolding scp_list
  scp_list-Idle s h =
      and_then-Idle false (checked srv s) _ (checked-Idle false s h)
        (λ _ t g. and_then-Idle false (run srv o configured t) _ (run-Idle t g) (λ _ u l. l))

  pub ftp_remove-Idle :
      (name : String) (s : Session) → IsIdle false s → IsIdle false (ftp_remove srv o name s).1
  unfolding ftp_remove
  ftp_remove-Idle name s h =
      and_then-Idle false (checked_name srv name s) _ (checked_name-Idle false name s h) (λ _ t g.
        and_then-Idle false (ftp_connect srv o t) _ (ftp_connect-Idle t g)
          (λ _ u k. and_then-Idle false (call srv u) _ (call-Idle false u k) (λ _ v l. l)))

  pub sftp_remove-Idle :
      (name : String) (s : Session)
      → IsIdle true s
      → IsIdle true (sftp_remove srv o configured name s).1
  unfolding sftp_remove
  sftp_remove-Idle name s h =
      and_then-Idle true (checked_name srv name s) _ (checked_name-Idle true name s h) (λ _ t g.
        and_then-Idle true (sftp_connect srv o configured t) _ (sftp_connect-Idle t g)
          (λ _ u k. and_then-Idle true (call srv u) _ (call-Idle true u k) (λ _ v l. l)))

  pub scp_remove-Idle :
      (name : String) (s : Session)
      → IsIdle false s
      → IsIdle false (scp_remove srv o configured name s).1
  unfolding scp_remove
  scp_remove-Idle name s h =
      and_then-Idle false (checked_name srv name s) _ (checked_name-Idle false name s h)
        (λ _ t g. and_then-Idle false (run srv o configured t) _ (run-Idle t g) (λ _ u l. l))
