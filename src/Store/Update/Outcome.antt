-- ===== src/Store/Update/Outcome.antt =====
-- internal/gateway/store/manifest.go: the outcomes of Update, whatever fails.
use file_pubsub.Base.{
  ℕ, zero, suc, String, ◌≡◌, refl, ◌∙◌, sym, ap, Option, none, some, ◌==◌, nat_eq, string_eq, arith,
  if◌then◌else◌, Error, Result, ok, err, skip_manifest_update, Bool-cases, inl, inr,
}
use file_pubsub.Base.Dict
use file_pubsub.Store.Manifest.{Manifest}
use file_pubsub.Store.World.{World, Env, IsAlone, continue, fails, now, next, pure, ◌>>=◌}
use file_pubsub.Store.ManifestStore.{
  Mutate, manifest_cas_retries, get_manifest, acquire_lock, release, write_staging, confirm_held,
  rename_over,
}
use file_pubsub.Store.ManifestStore.Frame.{
  but_locks, but_locks-acquire_lock, but_locks-release, but_locks-confirm_held,
}
use file_pubsub.Store.Update.{bump, commit, proceed, attempt, again, cas_loop, locked, update}

-- The world after manifest `m` has been stored under `id`.
abbrev pub stored : String → Manifest → World → World
stored id m w = record w { manifests = Dict.put w.manifests id m }

-- What an update of `id` from world `w` may return and leave behind.
pub data Outcome (id : String) (mutate : Mutate) (w : World) (r : Result Manifest) (w' : World)
    : Type 0 where
  failed : (e : Error) → r ≡ err e → but_locks w' ≡ but_locks w → Outcome id mutate w r w'
  skipped :
      (t : ℕ) (base : Manifest)
      → Dict.get w.manifests id ≡ some base
      → mutate t base ≡ err skip_manifest_update
      → r ≡ ok base
      → but_locks w' ≡ but_locks w
      → Outcome id mutate w r w'
  committed :
      (t : ℕ) (base m : Manifest)
      → Dict.get w.manifests id ≡ some base
      → mutate t base ≡ ok m
      → r ≡ ok (bump base m)
      → but_locks w' ≡ but_locks (stored id (bump base m) w)
      → Outcome id mutate w r w'

module _ (env : Env) where
  get_manifest_lem :
      (id : String) (w : World) (m : Manifest)
      → (get_manifest env id w).0 ≡ ok m
      → Dict.get w.manifests id ≡ some m
  unfolding get_manifest
  get_manifest_lem id w m h = ground arith

  but_locks-get_manifest :
      (id : String) (w : World) → but_locks (get_manifest env id w).1 ≡ but_locks w
  unfolding get_manifest
  but_locks-get_manifest id w = ground arith

  -- What one commit of `m` from `w` may return and leave behind, with no other process running.
  abbrev CommitSpec : String → Manifest → World → Result (Option Manifest) → World → Type 0
  CommitSpec id m w (err e) w' = but_locks w' ≡ but_locks w
  CommitSpec id m w (ok none) w' = ⊥
  CommitSpec id m w (ok (some m')) w' = (m' ≡ m) × (but_locks w' ≡ but_locks (stored id m w))

  finish : String → Manifest → ℕ → World → Result (Option Manifest) × World
  finish id m observed = do
    current ← get_manifest env id
    if current.revision == observed then rename_over env id m else pure none

  CommitSpec-finish :
      (id : String) (m base : Manifest) (w v : World)
      → Dict.get w.manifests id ≡ some base
      → but_locks v ≡ but_locks w
      → let (r, w') = finish id m base.revision v in CommitSpec id m w r w'
  unfolding finish get_manifest rename_over
  CommitSpec-finish id m base w v h e =
      let found : Dict.get v.manifests id ≡ some base =
        ap (λ (u : World). Dict.get u.manifests id) e ∙ h in
      let same : but_locks (stored id m v) ≡ but_locks (stored id m w) =
        ap (λ (u : World). stored id m u) e in
      ground (arith, found, same)

  CommitSpec-held :
      (id token : String) (m base : Manifest) (w : World)
      → Dict.get w.manifests id ≡ some base
      → (p : Result (Unit {0}) × World) → but_locks p.1 ≡ but_locks w
      → let (r, w') = ((λ v. p) >>= λ _. finish id m base.revision) w in CommitSpec id m w r w'
  CommitSpec-held id token m base w h (ok _, v) e = CommitSpec-finish id m base w v h e
  CommitSpec-held id token m base w h (err x, v) e = e

  module _ (alone : IsAlone env) where
    commit_cases :
        (id token : String) (m base : Manifest) (w : World)
        → Dict.get w.manifests id ≡ some base
        → let (r, w') = commit env id token base.revision m w in CommitSpec id m w r w'
    unfolding commit write_staging finish
    commit_cases id token m base w h = elim (Bool-cases (fails env w)) [
      | inl bad ↦ rw bad refl
      | inr fine ↦ rw fine (
          CommitSpec-held id token m base w h (confirm_held env id token (next w))
            (but_locks-confirm_held env alone id token (next w)))
    ]

    module _ (id token : String) (mutate : Mutate) (w : World)
        (retry : World → Result Manifest × World) where
      abbrev Ends : Result (Option Manifest) × World → Type 0
      Ends p = Outcome id mutate w (again env p retry).0 (again env p retry).1

      commit-Ends :
          (t : ℕ) (base m : Manifest) (v : World)
          → Dict.get w.manifests id ≡ some base
          → mutate t base ≡ ok m
          → but_locks v ≡ but_locks w
          → (p : Result (Option Manifest) × World) → CommitSpec id (bump base m) v p.0 p.1
          → Ends p
      commit-Ends t base m v h f e (ok (some m'), v') (same, files) =
          Outcome.committed t base m h f (ap ok same)
            (files ∙ ap (λ (u : World). stored id (bump base m) u) e)
      commit-Ends t base m v h f e (ok none, v') c = absurd c
      commit-Ends t base m v h f e (err x, v') files = Outcome.failed x refl (files ∙ e)

      proceed-Ends :
          (t : ℕ) (base : Manifest) (v : World)
          → Dict.get w.manifests id ≡ some base
          → but_locks v ≡ but_locks w
          → (r : Result Manifest) → mutate t base ≡ r
          → Ends (proceed env id token base r v)
      unfolding proceed
      proceed-Ends t base v h e (ok m) f =
          commit-Ends t base m v h f e (commit env id token base.revision (bump base m) v) (
            commit_cases id token (bump base m) base v
              (ap (λ (u : World). Dict.get u.manifests id) e ∙ h))
      proceed-Ends t base v h e (err skip_manifest_update) f = Outcome.skipped t base h f refl e
      proceed-Ends t base v h e (err x) f = Outcome.failed x refl e

      attempt-Ends : (v : World) → but_locks v ≡ but_locks w → Ends (attempt env id token mutate v)
      unfolding attempt
      attempt-Ends v e =
          read (get_manifest env id v) (get_manifest_lem id v) (but_locks-get_manifest id v)
        where
          read :
              (p : Result Manifest × World)
              → ((m : Manifest) → p.0 ≡ ok m → Dict.get v.manifests id ≡ some m)
              → but_locks p.1 ≡ but_locks v
              → Ends (
                  continue p.0
                    (λ base u. proceed env id token base (mutate (now env u) base) u)
                    p.1)
          read (ok base, u) found f =
              proceed-Ends (now env u) base u
                (sym (ap (λ (x : World). Dict.get x.manifests id) e) ∙ found base refl) (f ∙ e)
                (mutate (now env u) base) refl
          read (err x, u) found f = Outcome.failed x refl (f ∙ e)

    cas_loop-Outcome :
        (n : ℕ) (id token : String) (mutate : Mutate) (w v : World)
        → but_locks v ≡ but_locks w
        → let (r, w') = cas_loop env n id token mutate v in Outcome id mutate w r w'
    unfolding cas_loop
    cas_loop-Outcome zero id token mutate w v e = Outcome.failed _ refl e
    cas_loop-Outcome (suc n) id token mutate w v e =
        attempt-Ends id token mutate w (cas_loop env n id token mutate) v e

    release-Outcome :
        (id token : String) (mutate : Mutate) (w v : World) (r : Result Manifest)
        → Outcome id mutate w r v
        → Outcome id mutate w r (release env id token v)
    release-Outcome id token mutate w v r (failed x f e) =
        Outcome.failed x f (but_locks-release env id token v ∙ e)
    release-Outcome id token mutate w v r (skipped t base h f g e) =
        Outcome.skipped t base h f g (but_locks-release env id token v ∙ e)
    release-Outcome id token mutate w v r (committed t base m h f g e) =
        Outcome.committed t base m h f g (but_locks-release env id token v ∙ e)

    locked-Outcome :
        (id : String) (mutate : Mutate) (w : World) (p : Result String × World)
        → but_locks p.1 ≡ but_locks w
        → let (r, w') = locked env id mutate p in Outcome id mutate w r w'
    locked-Outcome id mutate w (err x, v) e = Outcome.failed x refl e
    locked-Outcome id mutate w (ok token, v) e =
        let (r, v') = cas_loop env manifest_cas_retries id token mutate v in
        release-Outcome id token mutate w v' r
          (cas_loop-Outcome manifest_cas_retries id token mutate w v e)

    -- While no other process runs, and whatever operations fail, Update returns an error and has
    -- changed no file but locks; or it returns the manifest that is stored because the callback
    -- skipped; or it returns and stores the callback's result with the next revision.
    pub update_lem :
        (id : String) (mutate : Mutate) (w : World)
        → let (r, w') = update env id mutate w in Outcome id mutate w r w'
    unfolding update
    update_lem id mutate w = elim (Bool-cases (id == "")) [
      | inl empty ↦ rw empty (Outcome.failed _ refl refl)
      | inr named ↦ rw named (
          locked-Outcome id mutate w (acquire_lock env id w)
            (but_locks-acquire_lock env alone id w))
    ]
