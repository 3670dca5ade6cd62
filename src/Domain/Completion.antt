-- ===== src/Domain/Completion.antt =====
-- internal/domain/completion.go: completion by a temporary name or by a marker file.
use Prim.Native.String.{◌++◌ as append}
use file_pubsub.Base.{
  String, ◌≡◌, refl, Bool, ◌&&◌, not, List, [], ◌∷◌, arith, contains, string_eq, eq_iff,
  if◌then◌else◌,
}
use file_pubsub.Base.Text.{has_suffix}

unfoldable pub has_completion_suffix : String → String → Bool
has_completion_suffix name suffix = has_suffix name suffix

unfoldable pub marker_of : String → String → String
marker_of base suffix = append base suffix

-- The second loop, over the set `present`; the set `ready` is the list of its keys.
ready_among : (String → Bool) → String → List String → List String
ready_among present suffix [] = []
ready_among present suffix (n ∷ names) =
    let ready = ready_among present suffix names in
    if has_completion_suffix n suffix
    then ready
    else if present (marker_of n suffix)
    then n ∷ ready
    else ready

unfoldable pub ready_by_marker : List String → String → List String
unfolding ready_among
ready_by_marker names suffix = ready_among (λ n. contains n names) suffix names

contains-ready_among :
    (present : String → Bool) (suffix : String) (names : List String) (n : String)
    → contains n (ready_among present suffix names)
      ≡ (contains n names && (not (has_completion_suffix n suffix) && present (marker_of n suffix)))
unfolding ready_among
contains-ready_among present suffix [] n = refl
contains-ready_among present suffix (x ∷ names) n =
    ground (arith, eq_iff x n, contains-ready_among present suffix names n)

-- A file is ready exactly when it is listed, is no marker itself, and its marker is listed too.
pub contains-ready_by_marker :
    (names : List String) (suffix : String) (n : String)
    → contains n (ready_by_marker names suffix) ≡ (
        contains n names
        && (not (has_completion_suffix n suffix) && contains (marker_of n suffix) names))
unfolding ready_by_marker
contains-ready_by_marker names suffix n =
    contains-ready_among (λ m. contains m names) suffix names n
