-- ===== src/Domain/Grant.antt =====
-- internal/domain/status.go: `GrantStatus`.
use mathlib.Core.Bool.{Bool, true, false}
use agent_key_vault_jit_acce.Domain.Execution.{ExecutionStatus}

pub data GrantStatus : Type 0 where
  approved revoked grant_expired executing succeeded failed cancelled timed_out : GrantStatus
  reclaiming reclaimed reclaim_failed : GrantStatus

abbrev pub is_approved : GrantStatus → Bool
is_approved approved = true
is_approved _ = false

abbrev pub is_executing : GrantStatus → Bool
is_executing executing = true
is_executing _ = false

-- Approved or executing: it may still be claimed, completed or revoked.
abbrev pub is_open : GrantStatus → Bool
is_open approved = true
is_open executing = true
is_open _ = false

abbrev pub is_reclaiming : GrantStatus → Bool
is_reclaiming reclaiming = true
is_reclaiming _ = false

abbrev pub is_reclaim_failed : GrantStatus → Bool
is_reclaim_failed reclaim_failed = true
is_reclaim_failed _ = false

-- `SUCCEEDED`, `FAILED`, `CANCELLED`, `TIMED_OUT`: executed, and not yet reclaimed.
abbrev pub is_finished : GrantStatus → Bool
is_finished succeeded = true
is_finished failed = true
is_finished cancelled = true
is_finished timed_out = true
is_finished _ = false

unfoldable pub can_transition_to : GrantStatus → GrantStatus → Bool
can_transition_to approved revoked = true
can_transition_to approved grant_expired = true
can_transition_to approved executing = true
can_transition_to executing succeeded = true
can_transition_to executing failed = true
can_transition_to executing cancelled = true
can_transition_to executing timed_out = true
can_transition_to succeeded reclaiming = true
can_transition_to failed reclaiming = true
can_transition_to cancelled reclaiming = true
can_transition_to timed_out reclaiming = true
can_transition_to reclaiming reclaimed = true
can_transition_to reclaiming reclaim_failed = true
can_transition_to _ _ = false

-- An execution status written into `operation_grants.status`: both are the same text.
abbrev pub of_execution : ExecutionStatus → GrantStatus
of_execution ExecutionStatus.executing = executing
of_execution ExecutionStatus.succeeded = succeeded
of_execution ExecutionStatus.failed = failed
of_execution ExecutionStatus.cancelled = cancelled
of_execution ExecutionStatus.timed_out = timed_out

-- `g.status = e.status`, for a finished execution.
abbrev pub same_outcome : GrantStatus → ExecutionStatus → Bool
same_outcome succeeded ExecutionStatus.succeeded = true
same_outcome failed ExecutionStatus.failed = true
same_outcome cancelled ExecutionStatus.cancelled = true
same_outcome timed_out ExecutionStatus.timed_out = true
same_outcome _ _ = false
