-- ===== src/Tests/Disk.antt =====
-- An atomic write in a directory, and a file name that a shell reads.
use file_pubsub.Base.{String, ◌≡◌, ◌≢◌, refl, some, false, [], ◌∷◌, ◌⊎◌, ok, string_eq}
use file_pubsub.Base.Dict
use file_pubsub.Base.Text.{has_suffix}
use file_pubsub.Store.World.{Bytes}
use file_pubsub.Store.Atomic.{Dir, file, temp_of, Moment, Call, Run, returned, cleanup_temp_files}
use file_pubsub.Store.Atomic.Moments.{moments}
use file_pubsub.Store.Atomic.Cleanup.{cleanup-moments}
use file_pubsub.Source.Shell.{shell_quote, shell_word, outside, shell_word-shell_quote}

-- The old manifest, and another file.
abbrev before : Dir
before = ("m1.json", file (1 ∷ [])) ∷ ("m2.json", file (2 ∷ [])) ∷ []

abbrev content : Bytes
content = 7 ∷ 8 ∷ []

abbrev Here : Type 0
Here = (m : Moment) × Run "m1.json" content before m

-- The process is killed after the first of two bytes.
abbrev killed : Here
killed = (
  _,
  Run.next (Run.next (Run.next Run.begin Call.mkdir) Call.create)
      (Call.write (7 ∷ []) (8 ∷ []) refl),
)

moments_example :
    let d = killed.0.dir in
    ((Dict.get d "m1.json" ≡ some (file (1 ∷ [])))
      ⊎ ((killed.0.phase ≡ returned (ok tt)) × (Dict.get d "m1.json" ≡ some (file content))))
    × ((name : String)
        → name ≢ "m1.json"
        → name ≢ temp_of "m1.json"
        → Dict.get d name ≡ Dict.get before name)
unfolding Dict.get
moments_example = moments "m1.json" content before killed.1

cleanup-moments_example :
    let d = (cleanup_temp_files (λ name. false) killed.0.dir).1 in
    (Dict.get d "m1.json" ≡ Dict.get before "m1.json")
    ⊎ (Dict.get d "m1.json" ≡ some (file content))
unfolding has_suffix
cleanup-moments_example = cleanup-moments (λ name. false) "m1.json" content before refl killed.1

shell_word-shell_quote_example : shell_word outside (shell_quote "it's") ≡ some "it's"
shell_word-shell_quote_example = shell_word-shell_quote "it's"
