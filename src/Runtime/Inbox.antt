-- ===== src/Runtime/Inbox.antt =====
-- internal/runtime/daemon.go: inboxDirs and minFallbackInterval.
pub mod Bounds
use file_pubsub.Base.{String, Bool, not, ◌||◌, List, [], ◌∷◌, ◌==◌, string_eq, if◌then◌else◌}
use file_pubsub.Base.Int.{ℤ, pos, leb_ℤ}
use file_pubsub.Config.{Config, Topic, not_positive, is_zero}

abbrev pub is_inbox : Topic → Bool
is_inbox t = t.source.kind == "inbox"

unfoldable pub inbox_dirs : List Topic → List String
inbox_dirs [] = []
inbox_dirs (t ∷ ts) =
    let rest = inbox_dirs ts in if is_inbox t then t.source.directory ∷ rest else rest

-- The interval of one inbox, where zero or less stands for the polling interval.
abbrev pub interval_of : ℤ → Topic → ℤ
interval_of polling t =
    if not_positive t.source.fallback_poll_interval
    then polling
    else t.source.fallback_poll_interval

abbrev smaller : ℤ → ℤ → ℤ
smaller least fi = if is_zero least || not (leb_ℤ least fi) then fi else least

-- The loop over the topics, where zero stands for no interval yet.
unfoldable pub fallback_loop : ℤ → List Topic → ℤ → ℤ
fallback_loop polling [] least = least
fallback_loop polling (t ∷ ts) least =
    fallback_loop polling ts (if is_inbox t then smaller least (interval_of polling t) else least)

unfoldable pub min_fallback_interval : Config → ℤ
unfolding fallback_loop
min_fallback_interval cfg =
    let least = fallback_loop cfg.polling_interval cfg.topics (pos 0) in
    if is_zero least then cfg.polling_interval else least
