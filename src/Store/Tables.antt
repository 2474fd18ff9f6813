-- ===== src/Store/Tables.antt =====
-- The rows that the repositories of internal/store read and write, and the database of them.
use mathlib.Core.Bool.{Bool}
use mathlib.Core.Option.{Option}
use mathlib.Core.List.{List}
use Prim.Native.Nat.{ℕ}
pub use agent_key_vault_jit_acce.Domain.Values.{Uuid, Time, Bytes, text, OperationKind, same_kind}
pub use agent_key_vault_jit_acce.Domain.Catalog.{
  Target, Credential, OperationSet, SafeOperation, OperationVersion, TargetOperationBinding,
  Catalog,
}
pub use agent_key_vault_jit_acce.Domain.Accounts.{
  Account, WebSession, AgentRow, AgentToken, Accounts,
}
use agent_key_vault_jit_acce.Domain.Task.{TaskStatus}
use agent_key_vault_jit_acce.Domain.Request.{RequestStatus}
use agent_key_vault_jit_acce.Domain.Grant.{GrantStatus}
use agent_key_vault_jit_acce.Domain.Execution.{ExecutionStatus}
use agent_key_vault_jit_acce.Domain.Reclaim.{ReclaimStatus}

-- `authorization.Decision`; `other` is any string that is neither constant.
pub data Decision : Type 0 where
  approve reject other : Decision

-- `audit_events.actor_type`; `other` is any string that is neither constant.
pub data ActorType : Type 0 where
  user agent other : ActorType

pub record Task : Type 0 where
  pub id : Uuid
  pub agent_id : Uuid
  pub status : TaskStatus
  pub created_at : Time
  pub last_heartbeat_at : Time
  pub ended_at : Option Time

-- `authorization.Request`, a row of `authorization_requests`.
pub record Request : Type 0 where
  pub id : Uuid
  pub agent_id : Uuid
  pub task_id : Uuid
  pub target_id : Uuid
  pub credential_id : Uuid
  pub request_format : ℕ
  pub operation_id : Uuid
  pub operation_version : ℕ
  pub arguments_snapshot : Bytes
  pub definition_hash : Bytes
  pub target_config_version : ℕ
  pub operation_kind : OperationKind
  pub operation_snapshot : Bytes
  pub operation_hash : Bytes
  pub reason : Bytes
  pub status : RequestStatus
  pub created_at : Time
  pub approval_deadline : Time

pub record Approval : Type 0 where
  pub id : Uuid
  pub request_id : Uuid
  pub approver_user_id : Uuid
  pub decision : Decision
  pub decided_at : Time
  pub grant_expires_at : Option Time

-- `authorization.Grant`, a row of `operation_grants`.
pub record Grant : Type 0 where
  pub id : Uuid
  pub request_id : Uuid
  pub agent_id : Uuid
  pub task_id : Uuid
  pub target_id : Uuid
  pub credential_id : Uuid
  pub operation_hash : Bytes
  pub approved_at : Time
  pub expires_at : Time
  pub status : GrantStatus
  pub claimed_at : Option Time
  pub completed_at : Option Time
  pub revoked_at : Option Time

pub record Execution : Type 0 where
  pub id : Uuid
  pub grant_id : Uuid
  pub status : ExecutionStatus
  pub started_at : Time
  pub completed_at : Option Time
  pub vault_lease_id : Option Bytes
  pub error_code : Option Bytes

pub record Reclaim : Type 0 where
  pub id : Uuid
  pub execution_id : Uuid
  pub status : ReclaimStatus
  pub started_at : Time
  pub completed_at : Option Time
  pub attempt : ℕ
  pub error_code : Option Bytes

pub record Incident : Type 0 where
  pub id : Uuid
  pub reclaim_id : Uuid
  pub open_incident : Bool
  pub error_code : Bytes
  pub created_at : Time
  pub resolved_at : Option Time

-- The columns of `audit_events` that the Go code writes; its id is `gen_random_uuid()`.
pub record AuditEvent : Type 0 where
  pub event_type : Bytes
  pub actor_type : ActorType
  pub actor_id : Uuid
  pub request_id : Uuid
  pub grant_id : Uuid
  pub execution_id : Option Uuid
  pub created_at : Time

pub record Db : Type 0 where
  pub accounts : Accounts
  pub catalog : Catalog
  pub tasks : List Task
  pub requests : List Request
  pub approvals : List Approval
  pub grants : List Grant
  pub executions : List Execution
  pub reclaims : List Reclaim
  pub incidents : List Incident
  pub audit : List AuditEvent
