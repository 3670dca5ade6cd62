-- ===== src/Source/Fetched.antt =====
-- internal/gateway/source/local.go: what a successful Fetch and Remove guarantee.
use file_pubsub.Base.{
  String, ◌≡◌, inl, inr, true, some, nat_eq, arith, length, ok, pair_eq, string_eq, Option-cases,
}
use file_pubsub.Base.Dict
use file_pubsub.Store.World.{World, Env, Bytes, SourceFile}
use file_pubsub.Source.{local_fetch, validate_name}

-- When Fetch returns a content, that is the whole content of a file with this name in the source
-- directory, as long as the directory said, and the name is one that validateName accepts.
pub local_fetch_lem :
    (env : Env) (dir name : String) (w : World) (content : Bytes)
    → (local_fetch env dir name w).0 ≡ ok content
    → (f : SourceFile) × (Dict.get w.originals (dir, name) ≡ some f)
      × (content ≡ f.content)
      × (length content ≡ f.size)
      × (validate_name name ≡ true)
unfolding local_fetch
local_fetch_lem env dir name w content h = elim (Option-cases (Dict.get w.originals (dir, name))) [
  | inl missing ↦ absurd (ground (arith, missing))
  | inr (f, here) ↦ (f, here, ground (arith, here), ground (arith, here), ground (arith, here))
]
