-- ===== src/Domain/Request.antt =====
-- internal/domain/status.go: `RequestStatus`.
use mathlib.Core.Bool.{Bool, true, false, not}
use agent_key_vault_jit_acce.Prelude.Tests.{if◌then◌else◌}

pub data RequestStatus : Type 0 where
  pending_approval rejected approval_expired approved : RequestStatus

abbrev pub is_pending : RequestStatus → Bool
is_pending pending_approval = true
is_pending _ = false

-- The inner `switch`.
decides : RequestStatus → Bool
decides rejected = true
decides approval_expired = true
decides approved = true
decides _ = false

unfoldable pub can_transition_to : RequestStatus → RequestStatus → Bool
unfolding decides
can_transition_to status next = if not (is_pending status) then false else decides next
