-- ===== src/Domain/State/Edges.antt =====
-- internal/domain/state.go: the life of a message as a graph.
use file_pubsub.Base.{◌≡◌, refl, ◌↔◌, none, arith}
use file_pubsub.Domain.State.{
  MessageStatus, collected, archived, delivering, delivered, failed, retrying, dlq,
  validate_transition,
}

-- The arrows of the life cycle.
pub data Edge : MessageStatus → MessageStatus → Type 0 where
  archive : Edge collected archived
  fanout : Edge archived delivering
  deliver : Edge delivering delivered
  fail : Edge delivering failed
  retry : Edge failed retrying
  redeliver : Edge retrying delivering
  revert : Edge retrying failed
  isolate : Edge retrying dlq

validate-Edge : (from to : MessageStatus) → Edge from to → validate_transition from to ≡ none
unfolding validate_transition
validate-Edge _ _ archive = refl
validate-Edge _ _ fanout = refl
validate-Edge _ _ deliver = refl
validate-Edge _ _ fail = refl
validate-Edge _ _ retry = refl
validate-Edge _ _ redeliver = refl
validate-Edge _ _ revert = refl
validate-Edge _ _ isolate = refl

edge_of : (from to : MessageStatus) → validate_transition from to ≡ none → Edge from to
unfolding validate_transition
edge_of collected archived h = archive
edge_of archived delivering h = fanout
edge_of delivering delivered h = deliver
edge_of delivering failed h = fail
edge_of failed retrying h = retry
edge_of retrying delivering h = redeliver
edge_of retrying failed h = revert
edge_of retrying dlq h = isolate
edge_of from to h = absurd (ground arith)

-- ValidateTransition permits exactly the eight arrows of the life cycle.
pub validate_transition_lem :
    (from to : MessageStatus) → (validate_transition from to ≡ none) ↔ Edge from to
validate_transition_lem from to = (edge_of from to, validate-Edge from to)
