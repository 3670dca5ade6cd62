-- ===== src/Source/Download/Closed.antt =====
-- internal/gateway/source/ftp.go: downloadAndClose closes the data connection once on every path.
use file_pubsub.Base.{
  ℕ, ◌+◌, String, ◌≡◌, refl, sym, ◌∙◌, ap, subst, arith, Bool, true, false, some, string_eq, length,
  if◌then◌else◌, Result, ok, err, Bool-cases, inl, inr,
}
use file_pubsub.Base.Int.{ℤ}
use file_pubsub.Source.Download.{
  Copy, Server, Session, Response, opened, closed, is_open, tick, is_mismatch, fails, remove_temp,
  sync_file, close_file, run_finish, conclude, copied, write_temp_and_rename, answered,
  close_response, download_and_close,
}
use file_pubsub.Source.Download.Whole.{DownloadSpec, write_temp_and_rename_lem, close_response-dir}

module _ (srv : Server) (name : String) (c : Copy) (want : ℤ) where
  -- The response before the deferred close: closed at most once, and without an error on success.
  abbrev OnceSpec : ℕ → Bool → Response → ℕ → Type 0
  OnceSpec n good opened m = (good ≡ false) × (m ≡ n)
  OnceSpec n good (closed failed) m = (good ≡ true → failed ≡ false) × (m ≡ n + 1)

  abbrev is_path : Result String → Bool
  is_path (ok path) = true
  is_path (err e) = false

  -- What the steps before the end leave.
  abbrev StepSpec : ℕ → Bool × Session → Type 0
  StepSpec n (bad, s) = OnceSpec n (if bad then false else true) s.response s.closes

  failed-Once :
      (n : ℕ) (good : Bool) (r : Response) (m : ℕ) → OnceSpec n good r m → OnceSpec n false r m
  failed-Once n good opened m h = (refl, h.1)
  failed-Once n good (closed failed) m h = (λ e. absurd (ground (arith, e)), h.1)

  remove_temp-Once :
      (n : ℕ) (good : Bool) (s : Session)
      → OnceSpec n good s.response s.closes
      → OnceSpec n false (remove_temp srv name s).response (remove_temp srv name s).closes
  remove_temp-Once n good s h = elim (Bool-cases (fails srv s)) [
    | inl e ↦ rw e (failed-Once n good s.response s.closes h)
    | inr e ↦ rw e (failed-Once n good s.response s.closes h)
  ]

  conclude-Once :
      (n : ℕ) (q : Bool × Session)
      → StepSpec n q
      → OnceSpec n
          (is_path (conclude srv name c want q).0)
          (conclude srv name c want q).1.response
          (conclude srv name c want q).1.closes
  conclude-Once n (true, s) h = remove_temp-Once n false s h
  conclude-Once n (false, s) h = elim (Bool-cases (is_mismatch want (length c.bytes))) [
    | inl e ↦ rw e (remove_temp-Once n true s h)
    | inr e ↦ elim (Bool-cases (fails srv s)) [
      | inl f ↦ rw e (rw f (remove_temp-Once n true (tick s) h))
      | inr f ↦ rw e (rw f h)
    ]
  ]

  answered-Once : (q : Bool × Session) → StepSpec q.1.closes (answered srv opened q.1)
  answered-Once (bad, s) = elim (Bool-cases (fails srv s)) [
    | inl e ↦ rw e (λ h. absurd (ground (arith, h)), refl)
    | inr e ↦ rw e (λ h. refl, refl)
  ]

  finish-Once :
      (q : Bool × Session)
      → q.1.response ≡ opened
      → StepSpec q.1.closes (run_finish srv (some (close_response srv)) q)
  unfolding close_response
  finish-Once (true, s) r = rw r (refl, refl)
  finish-Once (false, s) r = rw r (answered-Once (false, s))

  abbrev closed_file : Session → Bool × Session
  closed_file s = close_file srv (sync_file srv (copied srv name c s))

  closed_file-response :
      (s : Session)
      → ((closed_file s).1.response ≡ s.response) × ((closed_file s).1.closes ≡ s.closes)
  closed_file-response s = elim (Bool-cases c.broken) [
    | inl e ↦ rw e (refl, refl)
    | inr e ↦ rw e (refl, refl)
  ]

  write_temp_and_rename-Once :
      (s : Session)
      → s.response ≡ opened
      → let r = write_temp_and_rename srv name c want (some (close_response srv)) s in
        OnceSpec s.closes (is_path r.0) r.1.response r.1.closes
  unfolding write_temp_and_rename
  write_temp_and_rename-Once s o =
      let t = tick (tick s) in
      let q = closed_file t in
      let kept = closed_file-response t in
      elim (Bool-cases (fails srv s)) [
        | inl e ↦ rw e (rw o (refl, refl))
        | inr e ↦ elim (Bool-cases (fails srv (tick s))) [
          | inl f ↦ rw e (rw f (rw o (refl, refl)))
          | inr f ↦ rw e (
              rw f (
                conclude-Once s.closes (run_finish srv (some (close_response srv)) q) (
                  subst (λ n. StepSpec n (run_finish srv (some (close_response srv)) q)) kept.1
                    (finish-Once q (kept.0 ∙ o)))))
        ]
      ]

  -- After the deferred close.
  abbrev pub ClosedSpec : ℕ → Result String → Response → ℕ → Type 0
  ClosedSpec n (ok path) r m = (r ≡ closed false) × (m ≡ n + 1)
  ClosedSpec n (err e) r m = (is_open r ≡ false) × (m ≡ n + 1)

  answered-Closed :
      (n : ℕ) (r : Result String) (q : Response) (s : Session)
      → OnceSpec n (is_path r) q s.closes
      → s.response ≡ q
      → ClosedSpec n r (answered srv q s).1.response (answered srv q s).1.closes
  answered-Closed n (ok path) opened s h e = absurd (ground (arith, h.0))
  answered-Closed n (ok path) (closed failed) s h e = (e ∙ ap closed (h.0 refl), h.1)
  answered-Closed n (err x) opened s h e = (refl, ground (arith, h.1))
  answered-Closed n (err x) (closed failed) s h e = (rw e refl, h.1)

  -- downloadAndClose closes the data connection exactly once on every path, and a path is returned
  -- only when that close gave no error and the destination has the whole content under the name. On
  -- an error no file of the destination but the temporary one is touched.
  pub download_and_close_lem :
      (s : Session)
      → let r = download_and_close srv name c want s in
        ClosedSpec s.closes r.0 r.1.response r.1.closes
        × DownloadSpec srv name c want s.dir r.0 r.1.dir
  unfolding download_and_close close_response
  download_and_close_lem s =
      let begun : Session = record s { response = opened } in
      let r = write_temp_and_rename srv name c want (some (close_response srv)) begun in
      (
        answered-Closed s.closes r.0 r.1.response r.1 (write_temp_and_rename-Once begun refl) refl,
        subst (λ d. DownloadSpec srv name c want s.dir r.0 d)
            (sym (close_response-dir srv name c want r.1))
            (write_temp_and_rename_lem srv name c want (some (close_response srv))
              (close_response-dir srv name c want) begun),
      )
