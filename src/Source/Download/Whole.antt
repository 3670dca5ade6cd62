-- ===== src/Source/Download/Whole.antt =====
-- internal/gateway/source/remote.go: what a download leaves behind, whatever fails.
use file_pubsub.Base.{
  String, ◌≡◌, ◌≢◌, refl, sym, ◌∙◌, arith, Bool, true, false, Option, none, some, string_eq, nat_eq,
  length, Result, ok, err, Bool-cases, inl, inr, eq_iff, subst,
}
use file_pubsub.Base.Dict
use file_pubsub.Base.Int.{ℤ}
use file_pubsub.Store.World.{Bytes}
use file_pubsub.Store.Atomic.{Dir, file, temp_of}
use file_pubsub.Source.Download.{
  Copy, Server, Session, Response, opened, closed, tick, is_mismatch, fails, remove_temp, sync_file,
  close_file, run_finish, conclude, copied, write_temp_and_rename, answered, close_response,
}

module _ (srv : Server) (name : String) (c : Copy) (want : ℤ) where
  -- Only the temporary file was touched.
  abbrev IsAside : Dir → Dir → Type 0
  IsAside before d = (j : String) → j ≢ temp_of name → Dict.get d j ≡ Dict.get before j

  IsAside-put :
      (before d : Dir) (b : Bytes)
      → IsAside before d
      → IsAside before (Dict.put d (temp_of name) (file b))
  IsAside-put before d b h j ne =
      ground (arith, h j ne, Dict.get-put d (temp_of name) j (file b), eq_iff (temp_of name) j)

  IsAside-remove :
      (before d : Dir) → IsAside before d → IsAside before (Dict.remove d (temp_of name))
  IsAside-remove before d h j ne =
      ground (arith, h j ne, Dict.get-remove d (temp_of name) j, eq_iff (temp_of name) j)

  abbrev pub DownloadSpec : Dir → Result String → Dir → Type 0
  DownloadSpec before (ok path) d =
      (path ≡ name)
      × (Dict.get d name ≡ some (file c.bytes))
      × (c.broken ≡ false)
      × (is_mismatch want (length c.bytes) ≡ false)
      × ((j : String) → j ≢ name → j ≢ temp_of name → Dict.get d j ≡ Dict.get before j)
  DownloadSpec before (err e) d = IsAside before d

  removed-Aside :
      (before : Dir) (s : Session)
      → IsAside before s.dir
      → IsAside before (remove_temp srv name s).dir
  removed-Aside before s h = elim (Bool-cases (fails srv s)) [
    | inl e ↦ rw e h
    | inr e ↦ rw e (IsAside-remove before s.dir h)
  ]

  moved-Aside :
      (before d : Dir)
      → IsAside before d
      → (j : String) → j ≢ name
      → j ≢ temp_of name
      → Dict.get (Dict.put (Dict.remove d (temp_of name)) name (file c.bytes)) j ≡ Dict.get before j
  moved-Aside before d h j ne nt = ground (
    arith,
    IsAside-remove before d h j nt,
    Dict.get-put (Dict.remove d (temp_of name)) name j (file c.bytes),
    eq_iff name j,
  )

  conclude-Spec :
      (before : Dir) (q : Bool × Session)
      → (q.0 ≡ false → c.broken ≡ false)
      → IsAside before q.1.dir
      → DownloadSpec before (conclude srv name c want q).0 (conclude srv name c want q).1.dir
  conclude-Spec before (true, s) whole h = removed-Aside before s h
  conclude-Spec before (false, s) whole h = elim (Bool-cases (is_mismatch want (length c.bytes))) [
    | inl e ↦ rw e (removed-Aside before s h)
    | inr e ↦ elim (Bool-cases (fails srv s)) [
      | inl f ↦ rw e (rw f (removed-Aside before (tick s) h))
      | inr f ↦ rw e (
          rw f (
            refl,
            Dict.get-put_self (Dict.remove s.dir (temp_of name)) name (file c.bytes),
            whole refl,
            e,
            moved-Aside before s.dir h,
          ))
    ]
  ]

  -- What a finish step must keep.
  abbrev KeepsDir : Option (Session → Bool × Session) → Type 0
  KeepsDir none = Unit {0}
  KeepsDir (some finish) = (s : Session) → (finish s).1.dir ≡ s.dir

  abbrev closed_file : Session → Bool × Session
  closed_file s = close_file srv (sync_file srv (copied srv name c s))

  closed_file-dir :
      (s : Session) → (closed_file s).1.dir ≡ Dict.put s.dir (temp_of name) (file c.bytes)
  closed_file-dir s = elim (Bool-cases c.broken) [ inl e ↦ rw e refl | inr e ↦ rw e refl ]

  closed_file-bad : (s : Session) → c.broken ≡ true → (closed_file s).0 ≡ true
  closed_file-bad s e = rw e refl

  run_finish-dir :
      (finish : Option (Session → Bool × Session))
      → KeepsDir finish
      → (q : Bool × Session) → (run_finish srv finish q).1.dir ≡ q.1.dir
  run_finish-dir none keep q = refl
  run_finish-dir (some finish) keep (true, s) = refl
  run_finish-dir (some finish) keep (false, s) = keep s

  run_finish-bad :
      (finish : Option (Session → Bool × Session)) (q : Bool × Session)
      → q.0 ≡ true
      → (run_finish srv finish q).0 ≡ true
  run_finish-bad none q e = e
  run_finish-bad (some finish) (bad, s) e = rw e refl

  -- A download that returns a path has put the whole content under the name, of the size that was
  -- asked for. A download that fails touches no file but the temporary one, whichever call failed.
  pub write_temp_and_rename_lem :
      (finish : Option (Session → Bool × Session))
      → KeepsDir finish
      → (s : Session)
      → DownloadSpec s.dir
          (write_temp_and_rename srv name c want finish s).0
          (write_temp_and_rename srv name c want finish s).1.dir
  unfolding write_temp_and_rename
  write_temp_and_rename_lem finish keep s =
      let t = tick (tick s) in
      let q = run_finish srv finish (closed_file t) in
      let same = run_finish-dir finish keep (closed_file t) ∙ closed_file-dir t in
      elim (Bool-cases (fails srv s)) [
        | inl e ↦ rw e (λ j ne. refl)
        | inr e ↦ elim (Bool-cases (fails srv (tick s))) [
          | inl f ↦ rw e (rw f (λ j ne. refl))
          | inr f ↦ rw e (
              rw f (
                conclude-Spec s.dir q
                  (λ good. elim (Bool-cases c.broken) [
                    | inl b ↦ absurd (
                        ground (
                          arith,
                          good,
                          run_finish-bad finish (closed_file t) (closed_file-bad t b),
                        ))
                    | inr b ↦ b
                  ])
                  (subst (λ d. IsAside s.dir d) (sym same)
                    (IsAside-put s.dir s.dir c.bytes (λ j ne. refl)))))
        ]
      ]

  pub close_response-dir : (s : Session) → (close_response srv s).1.dir ≡ s.dir
  unfolding close_response
  close_response-dir s = answered-dir s.response s
    where
      answered-dir : (r : Response) (s : Session) → (answered srv r s).1.dir ≡ s.dir
      answered-dir opened s = refl
      answered-dir (closed failed) s = refl
