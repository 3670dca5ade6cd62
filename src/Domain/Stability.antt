-- ===== src/Domain/Stability.antt =====
-- internal/domain/stability.go: when a source file counts as completely written.
-- Times and durations are nanoseconds; an observation is never older than the one before it.
use file_pubsub.Base.{
  ℕ, String, ◌-◌, Bool, true, false, ◌&&◌, not, List, [], ◌∷◌, Option, none, some, leb, ◌==◌,
  nat_eq, if◌then◌else◌,
}
use file_pubsub.Base.Text.{has_suffix}
use file_pubsub.Base.Pattern.{path_match}

pub record Observation : Type 0 where
  pub name : String
  pub size : ℕ
  pub mod_time : ℕ
  pub observed_at : ℕ

abbrev pub is_unchanged : Observation → Observation → Bool
is_unchanged prev curr = prev.size == curr.size && prev.mod_time == curr.mod_time

unfoldable pub is_stable : Observation → Observation → ℕ → Bool
is_stable prev curr stability_interval =
    if not (is_unchanged prev curr)
    then false
    else leb stability_interval (curr.observed_at - prev.observed_at)

abbrev pub matched : Option Bool → Bool
matched (some ok) = ok
matched none = false

matches_any : String → List String → Bool
matches_any name [] = false
matches_any name (p ∷ patterns) =
    let later = matches_any name patterns in if matched (path_match p name) then true else later

unfoldable pub is_excluded : String → List String → Bool
unfolding matches_any
is_excluded name patterns = if has_suffix name ".tmp" then true else matches_any name patterns
