-- ===== src/Usecase/Retention/Safe.antt =====
-- internal/usecase/retention.go: the archive after a run.
use file_pubsub.Base.{
  ℕ, suc, String, ◌≡◌, refl, ◌∙◌, Bool, true, false, ◌&&◌, none, List, [], ◌∷◌, ◌==◌, string_eq,
  pair_eq, arith, pair_beq_iff, if◌then◌else◌, Result, ok, Bool-cases, inl, inr, ◌⊎◌, ap, sym, any,
}
use file_pubsub.Base.Dict
use file_pubsub.Base.Dict.{get-remove, get-remove_self}
use file_pubsub.Domain.State.{status_eq}
use file_pubsub.Store.Manifest.{Manifest}
use file_pubsub.Store.World.{World, Env, IsHealthy, now}
use file_pubsub.Store.Files.{exists, delete}
use file_pubsub.Store.ManifestStore.{list_manifests}
use file_pubsub.Store.ManifestStore.Frame.{but_ops-list_manifests}
use file_pubsub.Usecase.Fanout.{each_message}
use file_pubsub.Usecase.Retention.{retention_message, retention, is_due, is_final}

-- Whether the archive file of a message may go at time `t`.
abbrev pub may_go : ℕ → Manifest → Bool
may_go t m = is_due m.retention_deadline t && is_final m.status

abbrev pub file_key : Manifest → String × String
file_key m = (m.topic, m.message_id)

module _ (env : Env) where
  listed_archive :
      (w v : World) (r : Result (List Manifest))
      → list_manifests env w ≡ (r, v)
      → v.archive ≡ w.archive
  listed_archive w v r listed =
      sym (ap (λ (p : Result (List Manifest) × World). p.1.archive) listed)
      ∙ ap (λ (u : World). u.archive) (but_ops-list_manifests env w)

  -- What one round of the loop may do to one archive file.
  abbrev RoundSpec : String × String → ℕ → Manifest → World → Bool × World → Type 0
  RoundSpec key t m w (b, w') =
      (b ≡ true)
      × (Dict.get w'.archive key ≡ Dict.get w.archive key
          ⊎ ((may_go t m && file_key m == key) ≡ true) × (Dict.get w'.archive key ≡ none))

  retention_message_lem :
      (key : String × String) (t : ℕ) (m : Manifest) (w : World)
      → RoundSpec key t m w (retention_message env t m w)
  unfolding retention_message exists delete
  retention_message_lem key t m w =
      let e = get-remove w.archive (file_key m) key in
      elim (Bool-cases (file_key m == key)) [
        | inl same ↦ ground (arith, e, same)
        | inr differ ↦ ground (arith, e, differ)
      ]

  abbrev pub allows : ℕ → String × String → Manifest → Bool
  allows t key m = may_go t m && file_key m == key

  -- A pass keeps every file that no listed message allows to go.
  each-keeps :
      (t : ℕ) (key : String × String) (ms : List Manifest) (w : World)
      → any (allows t key) ms ≡ false
      → Dict.get (each_message env (retention_message env t) ms w).archive key
        ≡ Dict.get w.archive key
  unfolding each_message
  each-keeps t key [] w h = refl
  each-keeps t key (m ∷ ms) w h =
      let (b, w') = retention_message env t m w in
      let kept : Dict.get w'.archive key ≡ Dict.get w.archive key =
        ground (arith, retention_message_lem key t m w) in
      let rest = each-keeps t key ms w' (ground arith) in
      elim (Bool-cases (env.canceled w.ops)) [
        | inl stop ↦ rw stop refl
        | inr on ↦ ground (arith, on, retention_message_lem key t m w)
      ]

  module _ (h : IsHealthy env) (on : (n : ℕ) → env.canceled n ≡ false) where
    round-removes :
        (key : String × String) (t : ℕ) (m : Manifest) (w : World)
        → Dict.get (retention_message env t m w).1.archive key
          ≡ (if allows t key m then none else Dict.get w.archive key)
    unfolding retention_message exists delete
    round-removes key t m w = ground (
      arith,
      get-remove w.archive (file_key m) key,
      h.works w.ops,
      h.works (suc w.ops),
      pair_beq_iff (file_key m) key,
    )

    -- A pass that nothing interrupts removes exactly the files that a listed message allows to go.
    each-removes :
        (t : ℕ) (key : String × String) (ms : List Manifest) (w : World)
        → Dict.get (each_message env (retention_message env t) ms w).archive key
          ≡ (if any (allows t key) ms then none else Dict.get w.archive key)
    unfolding each_message
    each-removes t key [] w = refl
    each-removes t key (m ∷ ms) w =
        let (b, w') = retention_message env t m w in
        ground (
          arith,
          on w.ops,
          retention_message_lem key t m w,
          round-removes key t m w,
          each-removes t key ms w',
        )

    -- When nothing fails and the context stays alive, a retention run that lists `ms` leaves no
    -- archive file of a listed message that is settled and past its deadline at the time after the
    -- listing, and leaves every other archive file as it was.
    pub retention-IsHealthy :
        (key : String × String) (ms : List Manifest) (w v : World)
        → list_manifests env w ≡ (ok ms, v)
        → Dict.get (retention env w).archive key
          ≡ (if any (allows (now env v) key) ms then none else Dict.get w.archive key)
    unfolding retention
    retention-IsHealthy key ms w v listed =
        rw (listed, each-removes (now env v) key ms v, listed_archive w v (ok ms) listed) refl

  -- Whatever fails, a retention run that lists `ms` keeps every archive file but those of listed
  -- messages that are settled and past their deadline at the time after the listing.
  pub retention-keeps :
      (key : String × String) (ms : List Manifest) (w v : World)
      → list_manifests env w ≡ (ok ms, v)
      → any (allows (now env v) key) ms ≡ false
      → Dict.get (retention env w).archive key ≡ Dict.get w.archive key
  unfolding retention
  retention-keeps key ms w v listed none_go =
      rw (listed, each-keeps (now env v) key ms v none_go, listed_archive w v (ok ms) listed) refl
