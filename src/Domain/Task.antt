-- ===== src/Domain/Task.antt =====
-- internal/domain/status.go: `TaskStatus`.
use mathlib.Core.Bool.{Bool, true, false, not}
use agent_key_vault_jit_acce.Prelude.Tests.{if◌then◌else◌}

-- `other` is any string that is none of the constants: an Agent may send it.
pub data TaskStatus : Type 0 where
  active completed failed cancelled timed_out agent_lost other : TaskStatus

abbrev pub is_active : TaskStatus → Bool
is_active active = true
is_active _ = false

-- The inner `switch`.
ends : TaskStatus → Bool
ends completed = true
ends failed = true
ends cancelled = true
ends timed_out = true
ends agent_lost = true
ends _ = false

unfoldable pub can_transition_to : TaskStatus → TaskStatus → Bool
unfolding ends
can_transition_to status next = if not (is_active status) then false else ends next
