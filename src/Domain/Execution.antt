-- ===== src/Domain/Execution.antt =====
-- internal/domain/status.go: `ExecutionStatus`.
use mathlib.Core.Bool.{Bool, true, false, not}
use agent_key_vault_jit_acce.Prelude.Tests.{if◌then◌else◌}

pub data ExecutionStatus : Type 0 where
  executing succeeded failed cancelled timed_out : ExecutionStatus

abbrev pub is_executing : ExecutionStatus → Bool
is_executing executing = true
is_executing _ = false

abbrev pub is_timed_out : ExecutionStatus → Bool
is_timed_out timed_out = true
is_timed_out _ = false

-- The inner `switch`.
completes : ExecutionStatus → Bool
completes succeeded = true
completes failed = true
completes cancelled = true
completes timed_out = true
completes _ = false

unfoldable pub can_transition_to : ExecutionStatus → ExecutionStatus → Bool
unfolding completes
can_transition_to status next = if not (is_executing status) then false else completes next
