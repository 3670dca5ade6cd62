-- ===== src/Store/Update/Progress.antt =====
-- internal/gateway/store/manifest.go: Update when nothing fails.
use file_pubsub.Base.{
  ℕ, suc, ◌+◌, String, ◌≡◌, ◌≢◌, refl, false, none, some, ◌==◌, nat_eq, nat_beq_iff, eq_iff,
  string_eq, arith, ok,
}
use file_pubsub.Base.Dict
use file_pubsub.Base.Dict.{get-put_self, get-remove_self}
use file_pubsub.Store.Manifest.{Manifest}
use file_pubsub.Store.World.{World, Env, IsAlone, IsHealthy, UpdateLock, next}
use file_pubsub.Store.ManifestStore.{
  Mutate, get_manifest, acquire_lock, release, write_staging, confirm_held, rename_over,
}
use file_pubsub.Store.Update.{bump, commit, proceed, attempt, cas_loop, update}

module _ (env : Env) (h : IsHealthy env) (alone : IsAlone env) (id : String) where
  abbrev token_at : World → String
  token_at w = env.random_token (suc w.ops)

  abbrev locked_world : World → World
  locked_world w = record w {
    locks =
        Dict.put w.locks id (record { token = token_at w; mod_time = env.clock (suc (suc w.ops)) });
    ops = suc (suc (suc w.ops));
  }

  acquire_lock-free :
      (w : World)
      → Dict.get w.locks id ≡ none
      → acquire_lock env id w ≡ (ok (token_at w), locked_world w)
  unfolding acquire_lock
  acquire_lock-free w free =
      rw (h.works w.ops, h.works (suc w.ops), h.works (suc (suc w.ops)), free) refl

  abbrev HoldsLock : String → World → Type 0
  HoldsLock token w = (l : UpdateLock) × (Dict.get w.locks id ≡ some l) × (l.token ≡ token)

  commit_ok :
      (token : String) (base m : Manifest) (w : World)
      → Dict.get w.manifests id ≡ some base
      → HoldsLock token w
      → commit env id token base.revision m w
        ≡ (ok (some m), record w { manifests = Dict.put w.manifests id m; ops = w.ops + 4 })
  unfolding commit write_staging confirm_held get_manifest rename_over
  commit_ok token base m w found (l, held, same) = ground (
    arith,
    alone.quiet (suc w.ops) (next w),
    h.works w.ops,
    h.works (suc w.ops),
    h.works (suc (suc w.ops)),
    h.works (suc (suc (suc w.ops))),
    eq_iff l.token token,
    nat_beq_iff base.revision base.revision,
  )

  release-held :
      (token : String) (w : World)
      → HoldsLock token w
      → release env id token w ≡ record w { locks = Dict.remove w.locks id; ops = w.ops + 2 }
  unfolding release
  release-held token w (l, held, same) =
      ground (arith, h.works w.ops, h.works (suc w.ops), eq_iff l.token token)

  -- Where the round of Update that succeeds leaves the world, from a world that holds the lock.
  abbrev committed_world : Manifest → World → World
  committed_world m w = record w { manifests = Dict.put w.manifests id m; ops = suc w.ops + 4 }

  attempt_ok :
      (token : String) (mutate : Mutate) (base m : Manifest) (w : World)
      → Dict.get w.manifests id ≡ some base
      → mutate (env.clock (suc w.ops)) base ≡ ok m
      → HoldsLock token w
      → attempt env id token mutate w ≡ (ok (some (bump base m)), committed_world (bump base m) w)
  unfolding attempt proceed get_manifest
  attempt_ok token mutate base m w found result held =
      rw (h.works w.ops, found, result) (commit_ok token base (bump base m) (next w) found held)

  abbrev mutated_at : World → ℕ
  mutated_at w = env.clock (suc (suc (suc (suc w.ops))))

  -- When nothing fails, no other process runs, the message has a manifest whose update lock is free,
  -- and the callback has a result at the time of the call, then Update returns that result with the
  -- next revision, stores it under the message, and leaves the lock free.
  pub update-IsHealthy :
      (mutate : Mutate) (base m : Manifest) (w : World)
      → id ≢ ""
      → Dict.get w.manifests id ≡ some base
      → Dict.get w.locks id ≡ none
      → mutate (mutated_at w) base ≡ ok m
      → let (r, w') = update env id mutate w in
        (r ≡ ok (bump base m))
        × (Dict.get w'.manifests id ≡ some (bump base m))
        × (Dict.get w'.locks id ≡ none)
  unfolding update cas_loop
  update-IsHealthy mutate base m w named found free result =
      let v = locked_world w in
      let token = token_at w in
      let rec : UpdateLock = record { token = token; mod_time = env.clock (suc (suc w.ops)) } in
      let held : HoldsLock token v = (rec, get-put_self w.locks id rec, refl) in
      let b = bump base m in
      let unnamed : (id == "") ≡ false = ground (arith, eq_iff id "") in
      rw
        (
          unnamed,
          acquire_lock-free w free,
          attempt_ok token mutate base m v found result held,
          release-held token (committed_world b v) held,
        )
        (refl, get-put_self w.manifests id b, get-remove_self (v.locks) id)
