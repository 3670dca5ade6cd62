-- ===== src/Store/Files/Laws.antt =====
-- internal/gateway/store/archive.go, dlq.go and processed.go: promotion, isolation, processed list.
use file_pubsub.Base.{
  ℕ, String, ◌≡◌, ◌≢◌, refl, true, false, Option, none, some, List, [], ◌∷◌, ◌++◌, any, nat_eq,
  string_eq, pair_eq, arith, pair_beq_iff, Result, ok, err, any-append, Option-cases, inl, inr, ap,
  Bool-cases, beq_refl,
}
use file_pubsub.Base.Dict
use file_pubsub.Base.Dict.{get-put, get-put_self, get-remove_self}
use file_pubsub.Store.World.{World, Env, Bytes, DlqMeta, ProcessedEntry, fails, next}
use file_pubsub.Store.Files.{
  promote, isolate, is_processed, mark_processed, matches, entries, add_entry,
}

module _ (env : Env) where
  abbrev pub PromoteSpec : String × String → World → Result (Unit {0}) → World → Type 0
  PromoteSpec key w (ok _) w' =
      (content : Bytes) × (Dict.get w.work key ≡ some content)
      × (Dict.get w'.archive key ≡ some content)
      × (Dict.get w'.work key ≡ none)
  PromoteSpec key w (err e) w' =
      (w'.work ≡ w.work)
      × ((other : String × String)
          → other ≢ key
          → Dict.get w'.archive other ≡ Dict.get w.archive other)

  -- When Promote returns no error, the archive holds the work file's content and the work file is
  -- gone; when it returns one, the work files are as they were and no other archive file has changed.
  pub promote_lem :
      (topic id : String) (w : World)
      → let (r, w') = promote env topic id w in PromoteSpec (topic, id) w r w'
  unfolding promote
  promote_lem topic id w = elim (Option-cases (Dict.get w.work (topic, id))) [
    | inl none_there ↦ ground (arith, none_there)
    | inr (content, there) ↦ ground (
      arith,
      there,
      get-put_self w.archive (topic, id) content,
      get-remove_self w.work (topic, id),
      λ (other : String × String). get-put w.archive (topic, id) other content,
      λ (other : String × String). pair_beq_iff (topic, id) other,
    )
  ]

  -- When Isolate returns no error, the DLQ holds the archive file's content and the metadata.
  pub isolate_lem :
      (content : Option Bytes) (meta : DlqMeta) (w : World)
      → (isolate env content meta w).0 ≡ ok tt
      → let w' = (isolate env content meta w).1 in
        (Dict.get w'.dlq (meta.topic, meta.message_id) ≡ content)
        × (Dict.get w'.dlq_meta (meta.topic, meta.message_id) ≡ some meta)
  unfolding isolate
  isolate_lem content meta w h = elim (Option-cases content) [
    | inl missing ↦ absurd (ground (arith, missing))
    | inr (bytes, given) ↦ ground (
      arith,
      given,
      get-put_self w.dlq (meta.topic, meta.message_id) bytes,
      get-put_self w.dlq_meta (meta.topic, meta.message_id) meta,
    )
  ]

  abbrev entry : String → ℕ → ℕ → ℕ → ProcessedEntry
  entry name mod_time size at = record {
    source_file_identifier = name;
    mod_time_unix_nano = mod_time;
    size = size;
    processed_at = at;
  }

  entries-add_entry :
      (topic : String) (e : ProcessedEntry) (w : World)
      → entries env (add_entry env topic e w) topic ≡ entries env w topic ++ e ∷ []
  entries-add_entry topic e w =
      ap (λ (o : Option (List ProcessedEntry)). elim o [ none ↦ [] | some es ↦ es ])
        (get-put_self w.processed topic (entries env w topic ++ e ∷ []))

  matches_self :
      (name : String) (mod_time size at : ℕ)
      → matches env name mod_time size (entry name mod_time size at) ≡ true
  matches_self name mod_time size at = rw (beq_refl name, beq_refl mod_time, beq_refl size) refl

  -- What MarkProcessed leaves in the list.
  abbrev MarkSpec :
      String → ℕ → ℕ → List ProcessedEntry → Result (Unit {0}) → List ProcessedEntry → Type 0
  MarkSpec name mod_time size before r after =
      (r ≡ ok tt → any (matches env name mod_time size) after ≡ true)
      × ((other : String) (t s : ℕ)
          → any (matches env other t s) before ≡ true
          → any (matches env other t s) after ≡ true)

  MarkSpec-add :
      (name : String) (mod_time size at : ℕ) (before : List ProcessedEntry) (r : Result (Unit {0}))
      → MarkSpec name mod_time size before r (before ++ entry name mod_time size at ∷ [])
  MarkSpec-add name mod_time size at before r =
      let e = entry name mod_time size at in
      (
        λ h. ground (
          arith,
          any-append (matches env name mod_time size) before (e ∷ []),
          matches_self name mod_time size at,
        ),
        λ other t s h. ground (arith, any-append (matches env other t s) before (e ∷ [])),
      )

  mark_processed_lem :
      (topic name : String) (mod_time size at : ℕ) (w : World)
      → let (r, w') = mark_processed env topic name mod_time size at w in
        MarkSpec name mod_time size (entries env w topic) r (entries env w' topic)
  unfolding mark_processed
  mark_processed_lem topic name mod_time size at w = elim (Bool-cases (fails env w)) [
    | inl bad ↦ rw bad (λ h. cc, λ other t s h. h)
    | inr fine ↦ elim (Bool-cases (any (matches env name mod_time size) (entries env w topic))) [
      | inl known ↦ rw (fine, known) (λ h. known, λ other t s h. h)
      | inr new ↦ elim (Bool-cases (fails env (next w))) [
        | inl bad ↦ rw (fine, new, bad) (λ h. cc, λ other t s h. h)
        | inr good ↦
            rw (fine, new, good, entries-add_entry topic (entry name mod_time size at) (next w))
              (MarkSpec-add name mod_time size at (entries env w topic) (ok tt))
      ]
    ]
  ]

  -- A file that MarkProcessed recorded without an error is processed, when the record can be read,
  -- and a file that was processed before stays so, whatever MarkProcessed returns.
  pub is_processed-mark_processed :
      (topic name : String) (mod_time size at : ℕ) (w : World)
      → let (r, w') = mark_processed env topic name mod_time size at w in
        env.fault w'.ops ≡ false
        → (r ≡ ok tt → (is_processed env topic name mod_time size w').0 ≡ ok true)
          × ((other : String) (t s : ℕ)
              → env.fault w.ops ≡ false
              → (is_processed env topic other t s w).0 ≡ ok true
              → (is_processed env topic other t s w').0 ≡ ok true)
  unfolding is_processed
  is_processed-mark_processed topic name mod_time size at w fine =
      let (r, w') = mark_processed env topic name mod_time size at w in
      let (own, others) = mark_processed_lem topic name mod_time size at w in
      (
        λ h. rw (fine, own h) refl,
        λ other t s good h. rw (fine, others other t s (ground arith)) refl,
      )
