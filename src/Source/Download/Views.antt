-- ===== src/Source/Download/Views.antt =====
-- internal/gateway/source/remote.go: what a download does not change.
use file_pubsub.Base.{
  ℕ, ◌+◌, String, ◌≡◌, refl, ◌∙◌, Bool, true, false, Option, none, some, string_eq, length,
  Bool-cases, inl, inr,
}
use file_pubsub.Base.Dict
use file_pubsub.Base.Int.{ℤ}
use file_pubsub.Store.Atomic.{Dir, file, temp_of}
use file_pubsub.Source.Download.{
  Copy, Server, Session, Response, opened, closed, tick, is_mismatch, fails, remove_temp, sync_file,
  close_file, run_finish, conclude, copied, write_temp_and_rename, answered, close_response,
  download_and_close,
}

-- A view of the session that neither a call nor a file of the destination changes.
abbrev pub IsApart {ℓ} : {A : Type ℓ} → (Session → A) → Type ℓ
IsApart view = (s : Session) (n : ℕ) (d : Dir) → view (record s { calls = n; dir = d }) ≡ view s

module _ {ℓ} {A : Type ℓ} (view : Session → A) (apart : IsApart view) (srv : Server) (name : String)
    (c : Copy) (want : ℤ) where
  abbrev pub KeepsView : Option (Session → Bool × Session) → Type ℓ
  KeepsView none = Unit {ℓ}
  KeepsView (some finish) = (s : Session) → view (finish s).1 ≡ view s

  view-tick : (s : Session) → view (tick s) ≡ view s
  view-tick s = apart s (s.calls + 1) s.dir

  view-remove_temp : (s : Session) → view (remove_temp srv name s) ≡ view s
  view-remove_temp s = elim (Bool-cases (fails srv s)) [
    | inl e ↦ rw e (view-tick s)
    | inr e ↦ rw e (apart s (s.calls + 1) (Dict.remove s.dir (temp_of name)))
  ]

  view-conclude : (q : Bool × Session) → view (conclude srv name c want q).1 ≡ view q.1
  view-conclude (true, s) = view-remove_temp s
  view-conclude (false, s) = elim (Bool-cases (is_mismatch want (length c.bytes))) [
    | inl e ↦ rw e (view-remove_temp s)
    | inr e ↦ elim (Bool-cases (fails srv s)) [
      | inl f ↦ rw e (rw f (view-remove_temp (tick s) ∙ view-tick s))
      | inr f ↦ rw e (
          rw f (
            apart s (s.calls + 1)
              (Dict.put (Dict.remove s.dir (temp_of name)) name (file c.bytes))))
    ]
  ]

  view-run_finish :
      (finish : Option (Session → Bool × Session))
      → KeepsView finish
      → (q : Bool × Session) → view (run_finish srv finish q).1 ≡ view q.1
  view-run_finish none keep q = refl
  view-run_finish (some finish) keep (true, s) = refl
  view-run_finish (some finish) keep (false, s) = keep s

  view-closed_file :
      (s : Session) → view (close_file srv (sync_file srv (copied srv name c s))).1 ≡ view s
  view-closed_file s =
      let d = Dict.put s.dir (temp_of name) (file c.bytes) in
      elim (Bool-cases c.broken) [
        | inl e ↦ rw e (apart s (s.calls + 1 + 1) d)
        | inr e ↦ rw e (apart s (s.calls + 1 + 1 + 1) d)
      ]

  pub view-write_temp_and_rename :
      (finish : Option (Session → Bool × Session))
      → KeepsView finish
      → (s : Session) → view (write_temp_and_rename srv name c want finish s).1 ≡ view s
  unfolding write_temp_and_rename
  view-write_temp_and_rename finish keep s =
      let t = tick (tick s) in
      let q = close_file srv (sync_file srv (copied srv name c t)) in
      let twice = view-tick (tick s) ∙ view-tick s in
      elim (Bool-cases (fails srv s)) [
        | inl e ↦ rw e (view-tick s)
        | inr e ↦ elim (Bool-cases (fails srv (tick s))) [
          | inl f ↦ rw e (rw f twice)
          | inr f ↦ rw e (
              rw f (
                view-conclude (run_finish srv finish q)
                ∙ view-run_finish finish keep q
                ∙ view-closed_file t
                ∙ twice))
        ]
      ]

pub download_and_close-link :
    (srv : Server) (name : String) (c : Copy) (want : ℤ) (s : Session)
    → (download_and_close srv name c want s).1.link ≡ s.link
unfolding download_and_close close_response
download_and_close-link srv name c want s =
    let r =
      write_temp_and_rename srv name c want (some (close_response srv))
        (record s { response = opened }) in
    answered-link r.1.response r.1
    ∙ view-write_temp_and_rename (λ t. t.link) (λ t n d. refl) srv name c want
        (some (close_response srv)) (λ t. answered-link t.response t)
        (record s { response = opened })
  where
    answered-link : (r : Response) (t : Session) → (answered srv r t).1.link ≡ t.link
    answered-link opened t = refl
    answered-link (closed failed) t = refl
