-- ===== src/Config/Defaults.antt =====
-- internal/config/config.go: what applyDefaults leaves.
use file_pubsub.Base.{
  String, ◌≡◌, refl, List, [], ◌∷◌, ◌==◌, string_eq, eq_iff, arith, Option-cases, Bool-cases, inl,
  inr,
}
use file_pubsub.Base.Int.{ℤ}
use file_pubsub.Config.{
  Config, Topic, Source, HighAvailability, Completion, apply_defaults, ha_defaults, topic_defaults,
  source_defaults, completion_defaults,
}

ha_defaults-twice : (ha : HighAvailability) → ha_defaults (ha_defaults ha) ≡ ha_defaults ha
unfolding ha_defaults
ha_defaults-twice ha = ground arith

completion_defaults-twice :
    (c : Completion) → completion_defaults (completion_defaults c) ≡ completion_defaults c
unfolding completion_defaults
completion_defaults-twice c = ground (arith, eq_iff c.mode "", eq_iff c.suffix "")

source_defaults-twice :
    (n : ℤ) (s : Source) → source_defaults n (source_defaults n s) ≡ source_defaults n s
unfolding source_defaults
source_defaults-twice n s = elim (Bool-cases (s.kind == "inbox")) [
  | inl inbox ↦ rw inbox (
      ground
        (arith, inbox, eq_iff s.original_file_handling "", completion_defaults-twice s.completion))
  | inr pull ↦ rw pull (ground (arith, pull, eq_iff s.original_file_handling ""))
]

topic_defaults-twice :
    (n : ℤ) (ts : List Topic) → topic_defaults n (topic_defaults n ts) ≡ topic_defaults n ts
unfolding topic_defaults
topic_defaults-twice n [] = refl
topic_defaults-twice n (t ∷ ts) =
    ground (arith, source_defaults-twice n t.source, topic_defaults-twice n ts)

-- Defaults are filled in once: a second applyDefaults changes nothing.
pub apply_defaults-twice :
    (dir : String) (c : Config) → apply_defaults dir (apply_defaults dir c) ≡ apply_defaults dir c
unfolding apply_defaults
apply_defaults-twice dir c = elim (Option-cases c.high_availability) [
  | inl single ↦ rw single (ground (arith, topic_defaults-twice c.polling_interval c.topics))
  | inr (ha, cluster) ↦
      rw cluster
        (ground (arith, ha_defaults-twice ha, topic_defaults-twice c.polling_interval c.topics))
]
