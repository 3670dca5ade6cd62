-- ===== src/Source/Sessions/Idle.antt =====
-- internal/gateway/source: what Fetch of the remote connectors leaves open, and Close after any requests.
use file_pubsub.Base.{
  ℕ, String, ◌≡◌, refl, sym, subst, arith, Bool, true, false, Option, none, some, List, [], ◌∷◌,
  Result, ok, err, Bool-cases, inl, inr,
}
use file_pubsub.Base.Int.{ℤ, negsuc}
use file_pubsub.Config.{Source}
use file_pubsub.Source.Download.{
  Server, Copy, Session, Response, is_open, tick, fails, download_and_close, write_temp_and_rename,
}
use file_pubsub.Source.Download.Closed.{download_and_close_lem, ClosedSpec}
use file_pubsub.Source.Download.Views.{
  KeepsView, view-write_temp_and_rename, download_and_close-link,
}
use file_pubsub.Source.Remote.{call, checked_name}
use file_pubsub.Source.Sessions.{
  IsBalanced, IsIdle, Protocol, ftp, sftp, scp, Request, list, fetch, remove, serve, serve_all,
  close_connector, is_layered, IsShut,
}
use file_pubsub.Source.Ftp.{ftp_connect, asked_size, ftp_fetch, ftp_close}
use file_pubsub.Source.Sftp.{
  sftp_connect, opened_file, known_size, stat_and_copy, sftp_fetch, sftp_close,
}
use file_pubsub.Source.Scp.{scp_connect, in_session, wait, cat, sized, run, scp_fetch, scp_close}
use file_pubsub.Source.Sessions.Calls.{
  ftp_connect-Idle, sftp_connect-Idle, scp_connect-Idle, and_then-Idle, call-Idle,
  checked_name-Idle, and_close-Idle, run-Idle, ftp_list-Idle, sftp_list-Idle, scp_list-Idle,
  ftp_remove-Idle, sftp_remove-Idle, scp_remove-Idle,
}

module _ (srv : Server) (o : Source) (configured : Bool) where
  closed-response :
      (n : ℕ) (r : Result String) (q : Response) (m : ℕ)
      → ClosedSpec srv "" (record { bytes = []; broken = false }) (negsuc 0) n r q m
      → is_open q ≡ false
  closed-response n (ok path) q m h = rw (h.0) refl
  closed-response n (err e) q m h = h.0

  download-Idle :
      (name : String) (c : Copy) (want : ℤ) (s : Session)
      → IsIdle false s
      → IsIdle false (download_and_close srv name c want s).1
  download-Idle name c want s h =
      let r = download_and_close srv name c want s in
      (
        subst (λ l. IsBalanced false l) (sym (download_and_close-link srv name c want s)) h.0,
        closed-response s.closes r.0 r.1.response r.1.closes
            (download_and_close_lem srv name c want s).0,
      )

  ftp_fetch-Idle :
      (name : String) (s : Session) → IsIdle false s → IsIdle false (ftp_fetch srv o name s).1
  unfolding ftp_fetch
  ftp_fetch-Idle name s h =
      and_then-Idle srv o configured false (checked_name srv name s) _
        (checked_name-Idle srv o configured false name s h)
        (λ _ t g.
          and_then-Idle srv o configured false (ftp_connect srv o t) _
            (ftp_connect-Idle srv o configured t g)
            (λ _ u k.
              and_then-Idle srv o configured false (call srv (tick u)) _
                (call-Idle srv o configured false (tick u) k)
                (λ _ v l.
                  download-Idle name (srv.copy (tick u).calls name) (asked_size srv o name u) v l)))

  same_link :
      (name : String) (c : Copy) (want : ℤ) (finish : Option (Session → Bool × Session))
      (s : Session)
      → KeepsView (λ t. t.link) (λ t n d. refl) srv name c want finish
      → (write_temp_and_rename srv name c want finish s).1.link ≡ s.link
  same_link name c want finish s keep =
      view-write_temp_and_rename (λ t. t.link) (λ t n d. refl) srv name c want finish keep s

  stat_and_copy-link :
      (name : String) (s : Session) → (stat_and_copy srv o configured name s).1.link ≡ s.link
  unfolding stat_and_copy
  stat_and_copy-link name s = elim (Bool-cases (fails srv s)) [
    | inl e ↦ rw e refl
    | inr e ↦ rw e (known (srv.size s.calls name))
  ]
    where
      known : (size : Option ℤ) → (known_size srv o configured size name (tick s)).1.link ≡ s.link
      known none = refl
      known (some want) = same_link name (srv.copy (tick s).calls name) want none (tick s) tt

  sftp_fetch-Idle :
      (name : String) (s : Session)
      → IsIdle true s
      → IsIdle true (sftp_fetch srv o configured name s).1
  unfolding sftp_fetch
  sftp_fetch-Idle name s h =
      and_then-Idle srv o configured true (checked_name srv name s) _
        (checked_name-Idle srv o configured true name s h)
        (λ _ t g.
          and_then-Idle srv o configured true (sftp_connect srv o configured t) _
            (sftp_connect-Idle srv o configured t g)
            (λ _ u k.
              and_then-Idle srv o configured true (call srv u) _
                (call-Idle srv o configured true u k)
                (λ _ v l.
                  let w = opened_file srv o configured v in
                  and_close-Idle srv o configured true (stat_and_copy srv o configured name w)
                    (subst (λ x. IsBalanced true x) (sym (stat_and_copy-link name w)) l.0))))

  cat-link :
      (name : String) (want : ℤ) (s : Session) → (cat srv o configured name want s).1.link ≡ s.link
  unfolding cat
  cat-link name want s = elim (Bool-cases (fails srv s)) [
    | inl e ↦ rw e refl
    | inr e ↦ elim (Bool-cases (fails srv (tick s))) [
      | inl f ↦ rw e (rw f refl)
      | inr f ↦ rw e (
          rw f (
            same_link name (srv.copy (tick s).calls name) want (some (wait srv o configured))
              (tick (tick s)) (λ t. refl)))
    ]
  ]

  sized-Idle :
      (name : String) (size : Option ℤ) (s : Session)
      → IsIdle false s
      → IsIdle false (sized srv o configured name size s).1
  unfolding sized
  sized-Idle name none s h = h
  sized-Idle name (some want) s h =
      and_then-Idle srv o configured false (scp_connect srv o configured s) _
        (scp_connect-Idle srv o configured s h)
        (λ _ t g.
          and_then-Idle srv o configured false (call srv t) _ (call-Idle srv o configured false t g)
            (λ _ u k.
              let v = in_session srv o configured u in
              and_close-Idle srv o configured false (cat srv o configured name want v)
                (subst (λ x. IsBalanced false x) (sym (cat-link name want v)) k.0)))

  scp_fetch-Idle :
      (name : String) (s : Session)
      → IsIdle false s
      → IsIdle false (scp_fetch srv o configured name s).1
  unfolding scp_fetch
  scp_fetch-Idle name s h =
      and_then-Idle srv o configured false (checked_name srv name s) _
        (checked_name-Idle srv o configured false name s h)
        (λ _ t g.
          and_then-Idle srv o configured false (run srv o configured t) _
            (run-Idle srv o configured t g) (λ at u l. sized-Idle name (srv.size at name) u l))

  serve-Idle :
      (p : Protocol) (r : Request) (s : Session)
      → IsIdle (is_layered p) s
      → IsIdle (is_layered p) (serve srv o configured p r s)
  unfolding serve
  serve-Idle ftp list s h = ftp_list-Idle srv o configured s h
  serve-Idle ftp (fetch name) s h = ftp_fetch-Idle name s h
  serve-Idle ftp (remove name) s h = ftp_remove-Idle srv o configured name s h
  serve-Idle sftp list s h = sftp_list-Idle srv o configured s h
  serve-Idle sftp (fetch name) s h = sftp_fetch-Idle name s h
  serve-Idle sftp (remove name) s h = sftp_remove-Idle srv o configured name s h
  serve-Idle scp list s h = scp_list-Idle srv o configured s h
  serve-Idle scp (fetch name) s h = scp_fetch-Idle name s h
  serve-Idle scp (remove name) s h = scp_remove-Idle srv o configured name s h

  -- After any requests one connection is open while the connector holds it and none otherwise, and
  -- no data connection, file or session is open, whichever calls failed.
  pub serve_all-IsIdle :
      (p : Protocol) (rs : List Request) (s : Session)
      → IsIdle (is_layered p) s
      → IsIdle (is_layered p) (serve_all srv o configured p rs s)
  unfolding serve_all
  serve_all-IsIdle p [] s h = h
  serve_all-IsIdle p (r ∷ rs) s h =
      serve_all-IsIdle p rs (serve srv o configured p r s) (serve-Idle p r s h)

  ftp_close-Shut : (s : Session) → IsIdle false s → IsShut (ftp_close srv o s).1
  unfolding ftp_close
  ftp_close-Shut s h = ground (arith, h)

  sftp_close-Shut : (s : Session) → IsIdle true s → IsShut (sftp_close srv o configured s).1
  unfolding sftp_close
  sftp_close-Shut s h = ground (arith, h)

  scp_close-Shut : (s : Session) → IsIdle false s → IsShut (scp_close srv o configured s).1
  unfolding scp_close
  scp_close-Shut s h = ground (arith, h)

  close_connector-Shut :
      (p : Protocol) (s : Session)
      → IsIdle (is_layered p) s
      → IsShut (close_connector srv o configured p s).1
  unfolding close_connector
  close_connector-Shut ftp s h = ftp_close-Shut s h
  close_connector-Shut sftp s h = sftp_close-Shut s h
  close_connector-Shut scp s h = scp_close-Shut s h

  -- When a connector is closed after any requests of a collection, nothing that it opened is still
  -- open, whichever calls failed, the calls that close included.
  pub close_connector-serve_all :
      (p : Protocol) (rs : List Request) (s : Session)
      → IsIdle (is_layered p) s
      → IsShut (close_connector srv o configured p (serve_all srv o configured p rs s)).1
  close_connector-serve_all p rs s h =
      close_connector-Shut p (serve_all srv o configured p rs s) (serve_all-IsIdle p rs s h)
