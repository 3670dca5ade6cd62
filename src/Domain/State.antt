-- ===== src/Domain/State.antt =====
-- internal/domain/state.go: the states of a message and of one subscription, and the transitions.
-- A state is a text in Go; `other` stands for a text that is none of the constants.
pub mod Edges
use file_pubsub.Base.{
  String, ◌≡◌, refl, ◌↔◌, Bool, true, false, Option, none, some, arith, Eq, ◌==◌, string_eq, eq_iff,
  Error, invalid_status, invalid_transition, if◌then◌else◌, not, ◌||◌, ◌⊎◌,
}

pub data MessageStatus : Type 0 where
  collected archived delivering delivered failed retrying dlq : MessageStatus
  other : String → MessageStatus

abbrev pub status_beq : MessageStatus → MessageStatus → Bool
status_beq collected collected = true
status_beq archived archived = true
status_beq delivering delivering = true
status_beq delivered delivered = true
status_beq failed failed = true
status_beq retrying retrying = true
status_beq dlq dlq = true
status_beq (other s) (other t) = s == t
status_beq _ _ = false

pub status_beq_iff : (s t : MessageStatus) → (status_beq s t ≡ true) ↔ (s ≡ t)
status_beq_iff (other s) (other t) = ground (arith, eq_iff s t)
status_beq_iff _ _ = ground arith

instance abbrev pub status_eq : Eq MessageStatus
status_eq = record { beq = status_beq; beq_iff = status_beq_iff }

pub is_valid : MessageStatus → Bool
is_valid (other s) = false
is_valid _ = true

-- The map `transitions`: an absent inner key reads as false.
transitions : MessageStatus → MessageStatus → Bool
transitions collected archived = true
transitions archived delivering = true
transitions delivering delivered = true
transitions delivering failed = true
transitions failed retrying = true
transitions retrying delivering = true
transitions retrying failed = true
transitions retrying dlq = true
transitions _ _ = false

-- `none` is Go's nil error.
unfoldable pub validate_transition : MessageStatus → MessageStatus → Option Error
unfolding is_valid transitions
validate_transition from to =
    if not (is_valid from)
    then some invalid_status
    else if not (is_valid to)
    then some invalid_status
    else if not (transitions from to)
    then some invalid_transition
    else none

pub data SubscriptionStatus : Type 0 where
  delivered failed dlq : SubscriptionStatus
  other : String → SubscriptionStatus

-- What a Go map of states answers for a missing key.
abbrev pub unset : SubscriptionStatus
unset = SubscriptionStatus.other ""
