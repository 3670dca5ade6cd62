-- ===== src/Source/Sessions/Fetches.antt =====
-- internal/gateway/source: what Fetch of the remote connectors leaves in the destination.
use file_pubsub.Base.{
  ℕ, String, ◌≡◌, ◌≢◌, ◌⊎◌, refl, ◌∙◌, subst, arith, Bool, true, false, Option, none, some,
  string_eq, Result, ok, err, Bool-cases, inl, inr,
}
use file_pubsub.Base.Dict
use file_pubsub.Base.Int.{ℤ, negsuc}
use file_pubsub.Config.{Source}
use file_pubsub.Store.Atomic.{Dir, temp_of}
use file_pubsub.Source.{validate_name}
use file_pubsub.Source.Download.{
  Server, Session, Response, opened, closed, tick, fails, download_and_close, write_temp_and_rename,
  close_response, answered,
}
use file_pubsub.Source.Download.Whole.{DownloadSpec, write_temp_and_rename_lem}
use file_pubsub.Source.Download.Closed.{download_and_close_lem}
use file_pubsub.Source.Remote.{and_then, call, checked_name, dial_ssh, and_close}
use file_pubsub.Source.Sessions.{Protocol, ftp, sftp, scp, fetch_by}
use file_pubsub.Source.Ftp.{ftp_connect, asked_size, size_or_unknown, ftp_fetch}
use file_pubsub.Source.Sftp.{sftp_connect, opened_file, known_size, stat_and_copy, sftp_fetch}
use file_pubsub.Source.Scp.{scp_connect, in_session, wait, cat, sized, run, scp_fetch}

module _ (srv : Server) (o : Source) (configured : Bool) where
  -- The size with which the copy is compared is one that the server gave. With FTP it is unknown
  -- only when the call that asks for it failed or gave no number.
  abbrev pub Asked : Protocol → String → ℤ → Type 0
  Asked ftp name want =
      (k : ℕ) × (((want ≡ negsuc 0) × ((srv.fault k ≡ true) ⊎ (srv.size k name ≡ none)))
        ⊎ ((srv.fault k ≡ false) × (srv.size k name ≡ some want)))
  Asked sftp name want = (k : ℕ) × (srv.size k name ≡ some want)
  Asked scp name want = (k : ℕ) × (srv.size k name ≡ some want)

  abbrev pub FetchSpec : Protocol → String → Dir → Result String → Dir → Type 0
  FetchSpec p name before (ok path) d =
      (validate_name name ≡ true)
      × (n : ℕ) × (want : ℤ) × Asked p name want
      × DownloadSpec srv name (srv.copy n name) want before (ok path) d
  FetchSpec p name before (err e) d =
      (j : String) → j ≢ temp_of name → Dict.get d j ≡ Dict.get before j

  abbrev Fetched : Protocol → String → Dir → Result String × Session → Type 0
  Fetched p name before q = FetchSpec p name before q.0 q.1.dir

  from_download :
      (p : Protocol) (name : String) (before : Dir) (n : ℕ) (want : ℤ) (q : Result String × Session)
      → validate_name name ≡ true
      → Asked p name want
      → DownloadSpec srv name (srv.copy n name) want before q.0 q.1.dir
      → Fetched p name before q
  from_download p name before n want (ok path, s) v a h = (v, n, want, a, h)
  from_download p name before n want (err e, s) v a h = h

  and_then-Fetched :
      {A : Type 0} (p : Protocol) (name : String) (before : Dir) (q : Result A × Session)
      (k : A → Session → Result String × Session)
      → q.1.dir ≡ before
      → ((a : A) (t : Session) → t.dir ≡ before → Fetched p name before (k a t))
      → Fetched p name before (and_then q k)
  and_then-Fetched p name before (err e, s) k h next = λ j ne. rw h refl
  and_then-Fetched p name before (ok a, s) k h next = next a s h

  call-dir : (s : Session) → (call srv s).1.dir ≡ s.dir
  call-dir s = elim (Bool-cases (fails srv s)) [ inl e ↦ rw e refl | inr e ↦ rw e refl ]

  ftp_connect-dir : (s : Session) → (ftp_connect srv o s).1.dir ≡ s.dir
  unfolding ftp_connect
  ftp_connect-dir s = ground arith

  sftp_connect-dir : (s : Session) → (sftp_connect srv o configured s).1.dir ≡ s.dir
  unfolding sftp_connect dial_ssh
  sftp_connect-dir s = ground arith

  scp_connect-dir : (s : Session) → (scp_connect srv o configured s).1.dir ≡ s.dir
  unfolding scp_connect dial_ssh
  scp_connect-dir s = ground arith

  run-dir : (s : Session) → (run srv o configured s).1.dir ≡ s.dir
  unfolding run close_response scp_connect dial_ssh
  run-dir s = ground arith

  -- The checks before a connection: a name that is refused changes nothing.
  checked-Fetched :
      (p : Protocol) (name : String) (s : Session)
      (k : Unit {0} → Session → Result String × Session)
      → (validate_name name ≡ true → (t : Session) → t.dir ≡ s.dir → Fetched p name s.dir (k tt t))
      → Fetched p name s.dir (and_then (checked_name srv name s) k)
  checked-Fetched p name s k next = elim (Bool-cases (srv.canceled s.calls)) [
    | inl e ↦ rw e (λ j ne. refl)
    | inr e ↦ elim (Bool-cases (validate_name name)) [
      | inl v ↦ rw e (rw v (next v s refl))
      | inr v ↦ rw e (rw v (λ j ne. refl))
    ]
  ]

  asked_size-Asked : (name : String) (s : Session) → Asked ftp name (asked_size srv o name s)
  asked_size-Asked name s = elim (Bool-cases (fails srv s)) [
    | inl e ↦ rw e (s.calls, inl (refl, inl e))
    | inr e ↦ rw e (known e (srv.size s.calls name) refl)
  ]
    where
      known :
          srv.fault s.calls ≡ false
          → (q : Option ℤ) → srv.size s.calls name ≡ q
          → Asked ftp name (size_or_unknown srv o q)
      known f none e = (s.calls, inl (refl, inr e))
      known f (some want) e = (s.calls, inr (f, e))

  ftp_fetch-Fetched :
      (name : String) (s : Session) → Fetched ftp name s.dir (ftp_fetch srv o name s)
  unfolding ftp_fetch
  ftp_fetch-Fetched name s = checked-Fetched ftp name s _ (λ v t e.
      and_then-Fetched ftp name s.dir (ftp_connect srv o t) _ (ftp_connect-dir t ∙ e) (λ _ u f.
        and_then-Fetched ftp name s.dir (call srv (tick u)) _ (call-dir (tick u) ∙ f) (λ _ x g.
          let n = (tick u).calls in
          let want = asked_size srv o name u in
          from_download ftp name s.dir n want (download_and_close srv name (srv.copy n name) want x)
            v (asked_size-Asked name u)
            (subst
              (λ d.
                DownloadSpec srv name (srv.copy n name) want d
                  (download_and_close srv name (srv.copy n name) want x).0
                  (download_and_close srv name (srv.copy n name) want x).1.dir)
              g (download_and_close_lem srv name (srv.copy n name) want x).1))))

  and_close-Fetched :
      (p : Protocol) (name : String) (before : Dir) (q : Result String × Session)
      → Fetched p name before q
      → Fetched p name before (and_close srv q)
  unfolding close_response
  and_close-Fetched p name before (r, s) h = answered-Fetched s.response
    where
      answered-Fetched : (x : Response) → FetchSpec p name before r (answered srv x s).1.dir
      answered-Fetched opened = h
      answered-Fetched (closed failed) = h

  stat_and_copy-Fetched :
      (name : String) (s : Session)
      → validate_name name ≡ true
      → Fetched sftp name s.dir (stat_and_copy srv o configured name s)
  unfolding stat_and_copy
  stat_and_copy-Fetched name s v = elim (Bool-cases (fails srv s)) [
    | inl e ↦ rw e (λ j ne. refl)
    | inr e ↦ rw e (known (srv.size s.calls name) refl)
  ]
    where
      known :
          (q : Option ℤ)
          → srv.size s.calls name ≡ q
          → Fetched sftp name s.dir (known_size srv o configured q name (tick s))
      known none e = λ j ne. refl
      known (some want) e =
          let c = srv.copy (tick s).calls name in
          from_download sftp name s.dir (tick s).calls want
            (write_temp_and_rename srv name c want none (tick s)) v (s.calls, e)
            (write_temp_and_rename_lem srv name c want none tt (tick s))

  sftp_fetch-Fetched :
      (name : String) (s : Session) → Fetched sftp name s.dir (sftp_fetch srv o configured name s)
  unfolding sftp_fetch
  sftp_fetch-Fetched name s = checked-Fetched sftp name s _ (λ v t e.
      and_then-Fetched sftp name s.dir (sftp_connect srv o configured t) _ (sftp_connect-dir t ∙ e)
        (λ _ u f. and_then-Fetched sftp name s.dir (call srv u) _ (call-dir u ∙ f) (λ _ x g.
          let q = stat_and_copy srv o configured name (opened_file srv o configured x) in
          and_close-Fetched sftp name s.dir q (
            subst (λ d. Fetched sftp name d q) g
              (stat_and_copy-Fetched name (opened_file srv o configured x) v)))))

  cat-Fetched :
      (name : String) (k : ℕ) (want : ℤ) (s : Session)
      → validate_name name ≡ true
      → srv.size k name ≡ some want
      → Fetched scp name s.dir (cat srv o configured name want s)
  unfolding cat
  cat-Fetched name k want s v a =
      and_then-Fetched scp name s.dir (call srv s) _ (call-dir s) (λ _ t e.
        and_then-Fetched scp name s.dir (call srv t) _ (call-dir t ∙ e) (λ _ u f.
          let c = srv.copy t.calls name in
          let q = write_temp_and_rename srv name c want (some (wait srv o configured)) u in
          from_download scp name s.dir t.calls want q v (k, a)
            (subst (λ d. DownloadSpec srv name c want d q.0 q.1.dir) f
              (write_temp_and_rename_lem srv name c want (some (wait srv o configured)) (λ _. refl)
                u))))

  sized-Fetched :
      (name : String) (k : ℕ) (size : Option ℤ) (s : Session)
      → validate_name name ≡ true
      → srv.size k name ≡ size
      → Fetched scp name s.dir (sized srv o configured name size s)
  unfolding sized
  sized-Fetched name k none s v a = λ j ne. refl
  sized-Fetched name k (some want) s v a =
      and_then-Fetched scp name s.dir (scp_connect srv o configured s) _ (scp_connect-dir s)
        (λ _ t e. and_then-Fetched scp name s.dir (call srv t) _ (call-dir t ∙ e) (λ _ u f.
          let q = cat srv o configured name want (in_session srv o configured u) in
          and_close-Fetched scp name s.dir q (
            subst (λ d. Fetched scp name d q) f
              (cat-Fetched name k want (in_session srv o configured u) v a))))

  scp_fetch-Fetched :
      (name : String) (s : Session) → Fetched scp name s.dir (scp_fetch srv o configured name s)
  unfolding scp_fetch
  scp_fetch-Fetched name s = checked-Fetched scp name s _ (λ v t e.
      and_then-Fetched scp name s.dir (run srv o configured t) _ (run-dir t ∙ e) (λ at u f.
        let q = sized srv o configured name (srv.size at name) u in
        subst (λ d. Fetched scp name d q) f (sized-Fetched name at (srv.size at name) u v refl)))

  -- A remote Fetch that returns a path was asked for a name without a directory, and the destination
  -- has under that name the whole content of one copy that the server sent without an error, of the
  -- size that the server had given, unless the server of FTP failed to give one, and every other file as before but for the
  -- temporary one. A Fetch that fails has touched no file but the temporary one.
  pub fetch_by_lem :
      (p : Protocol) (name : String) (s : Session)
      → let r = fetch_by srv o configured p name s in FetchSpec p name s.dir r.0 r.1.dir
  fetch_by_lem ftp name s = ftp_fetch-Fetched name s
  fetch_by_lem sftp name s = sftp_fetch-Fetched name s
  fetch_by_lem scp name s = scp_fetch-Fetched name s
