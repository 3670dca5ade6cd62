-- ===== src/Domain/Limits.antt =====
-- internal/domain/retry.go, retention.go and message.go. Times are nanoseconds since Go's zero time.
use Prim.Native.String.{◌++◌ as append}
use file_pubsub.Base.{
  ℕ, suc, ◌+◌, ◌-◌, ◌*◌, String, Bool, false, ◌||◌, ◌==◌, nat_eq, ltb, leb, if◌then◌else◌,
}
use file_pubsub.Base.Int.{ℤ, pos, negsuc, leb_ℤ}

unfoldable pub should_isolate : ℕ → ℤ → Bool
should_isolate retry_count retry_max_count = leb_ℤ retry_max_count (pos retry_count)

abbrev pub second : ℕ
second = 1000000000

abbrev pub day : ℕ
day = 86400 * second

-- What a time zone says of an instant: the offset from UTC, and since and until when it holds.
pub record Span : Type 0 where
  pub offset : ℤ
  pub start : ℕ
  pub stop : ℕ

abbrev pub plus : ℕ → ℤ → ℕ
plus t (pos n) = t + n
plus t (negsuc n) = t - suc n

abbrev pub minus : ℕ → ℤ → ℕ
minus t (pos n) = t - n
minus t (negsuc n) = t + suc n

abbrev pub is_zero : ℤ → Bool
is_zero (pos n) = n == 0
is_zero (negsuc n) = false

-- time.Date: the instant of a wall clock. The offset is looked up with the wall clock as if it were
-- an instant, and again if that is not the right one.
abbrev pub from_wall : (ℕ → Span) → ℕ → ℕ
from_wall zone wall =
    let s = zone wall in
    let t = minus wall s.offset in
    if is_zero s.offset
    then wall
    else if ltb t s.start || leb s.stop t
    then minus wall (zone t).offset
    else t

abbrev pub days_of : ℤ → ℤ
days_of (pos n) = pos (n * day)
days_of (negsuc n) = negsuc (suc n * day - 1)

-- AddDate(0, 0, days) keeps the wall clock of the zone.
unfoldable pub add_days : (ℕ → Span) → ℕ → ℤ → ℕ
add_days zone t days = from_wall zone (plus (plus t (zone t).offset) (days_of days))

unfoldable pub retention_deadline : (ℕ → Span) → ℕ → ℤ → ℕ
unfolding add_days
retention_deadline zone saved_at retention_days = add_days zone saved_at retention_days

unfoldable pub is_expired : ℕ → ℕ → Bool
is_expired deadline now = ltb deadline now

pub record Message : Type 0 where
  pub message_id : String
  pub topic : String
  pub original_file_name : String
  pub collected_at : ℕ

-- The first argument is `Time.Format` with the layout 20060102T150405.
unfoldable pub new_message_id : (ℕ → String) → ℕ → String → String → String
new_message_id format collected_at topic original_file_name =
    append (format collected_at) (append "_" (append topic (append "_" original_file_name)))
