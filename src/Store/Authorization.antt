-- ===== src/Store/Authorization.antt =====
-- internal/store/authorization_postgres.go and request_postgres.go: requests, approvals, grants.
use mathlib.Core.Bool.{Bool, true, false, not, ◌&&◌, ◌||◌}
use mathlib.Core.Option.{Option, none, some}
use mathlib.Core.List.{[], ◌∷◌}
use Prim.Native.Nat.{ℕ, zero, suc}
use agent_key_vault_jit_acce.Prelude.Tests.{◌==◌, if◌then◌else◌, ltb, leb, holds_value}
use agent_key_vault_jit_acce.Prelude.Rows.{length, any_row, find_row, bytes_eq}
use agent_key_vault_jit_acce.Domain.Task
use agent_key_vault_jit_acce.Domain.Request.{RequestStatus, is_pending}
use agent_key_vault_jit_acce.Domain.Grant.{GrantStatus}
use agent_key_vault_jit_acce.Store.Tables.{
  Db, Catalog, Uuid, Time, Bytes, Decision, Request, Approval, Grant,
}
use agent_key_vault_jit_acce.Store.Action.{
  Action, decision_conflict, internal, ◌>>=◌, ◌>>◌, pure, when_raise, or_raise, query, transaction,
}
use agent_key_vault_jit_acce.Store.Statements.{
  affected, update_requests, insert_approval, insert_grant,
}

abbrev pub hash_size : ℕ
hash_size = 32

-- `authorization.DecisionContext`
pub record DecisionContext : Type 0 where
  pub request : Request
  pub agent_owner_user_id : Uuid

-- `authorization.DecisionCommand`
pub record DecisionCommand : Type 0 where
  pub context : DecisionContext
  pub approval : Approval
  pub grant : Option Grant
  pub now : Time

-- `authorization.ClaimContext`
pub record ClaimContext : Type 0 where
  pub grant_id : Uuid
  pub agent_id : Uuid
  pub task_id : Uuid
  pub target_id : Uuid
  pub credential_id : Uuid
  pub operation_hash : Bytes

-- The binding of exactly this operation version to the target is in force.
unfoldable pub is_bound : Catalog → Uuid → Uuid → ℕ → Bytes → Bool
is_bound c target_id operation_id version definition_hash =
    any_row
      (λ b.
        b.target_id == target_id
        && b.operation_id == operation_id
        && b.version == version
        && b.active
        && any_row
            (λ o.
              o.id == b.operation_id
              && o.active
              && any_row (λ s. s.id == o.operation_set_id && s.active) c.operation_sets)
            c.operations
        && any_row
            (λ v.
              v.operation_id == b.operation_id
              && v.version == b.version
              && bytes_eq v.definition_hash definition_hash)
            c.operation_versions)
      c.bindings

-- The `EXISTS` that a decision and a claim share: the target, its default credential, its
-- configuration and the bound operation are still those of the request.
unfoldable pub is_current : Catalog → Request → Bool
is_current c r =
    any_row
      (λ t.
        t.id == r.target_id
        && t.active
        && any_row (λ k. k.id == r.credential_id && k.active) c.credentials
        && holds_value t.default_credential_id r.credential_id
        && r.request_format == 2
        && t.config_version == r.target_config_version
        && is_bound c t.id r.operation_id r.operation_version r.definition_hash)
      c.targets

-- A task of the agent that is active.
unfoldable pub has_active_task : Db → Uuid → Uuid → Bool
has_active_task d task_id agent_id =
    any_row (λ t. t.id == task_id && t.agent_id == agent_id && Task.is_active t.status) d.tasks

abbrev zero_bytes : ℕ → Bytes
zero_bytes zero = []
zero_bytes (suc n) = 0 ∷ zero_bytes n

-- A raw request has no definition hash, and keeps the zero value of the Go array.
unfoldable pub scanned : Request → Request
scanned r = if r.request_format == 2 then r else record r { definition_hash = zero_bytes hash_size }

unfoldable pub context_row : Db → Uuid → Option DecisionContext
unfolding scanned
context_row d request_id = elim (find_row (λ r. r.id == request_id) d.requests) [
  | none ↦ none
  | some r ↦ elim (find_row (λ a. a.id == r.agent_id) d.accounts.agents) [
    | none ↦ none
    | some a ↦ some (record { request = scanned r; agent_owner_user_id = a.owner_user_id })
  ]
]

unfoldable pub find_decision_context : Uuid → Action DecisionContext
unfolding context_row
find_decision_context request_id = do
  found ← query (λ d. context_row d request_id)
  context ← or_raise found internal
  when_raise (not (length context.request.operation_hash == hash_size)) internal
  when_raise (not (length context.request.definition_hash == hash_size)) internal
  pure context

abbrev pub is_approve : Decision → Bool
is_approve Decision.approve = true
is_approve _ = false

-- The `WHERE` of the conditional update of a decision.
unfoldable pub decidable : DecisionCommand → Db → Request → Bool
decidable c d r =
    r.id == c.context.request.id
    && is_pending r.status
    && ltb c.now r.approval_deadline
    && bytes_eq r.operation_hash c.context.request.operation_hash
    && (not (is_approve c.approval.decision)
        || is_current d.catalog r && has_active_task d r.task_id r.agent_id)

-- An approval first locks its active task; a rejection does not look at it.
unfoldable pub lock_active_task : Bool → Request → Action (Unit {0})
lock_active_task false r = pure tt
lock_active_task true r = do
  active ← query (λ d. has_active_task d r.task_id r.agent_id)
  when_raise (not active) decision_conflict

-- The columns that the statement does not name are null.
abbrev pub granted : Grant → Grant
granted g = record g {
  status = GrantStatus.approved;
  claimed_at = none;
  completed_at = none;
  revoked_at = none;
}

unfoldable pub insert_grant_if : Option Grant → Action (Unit {0})
insert_grant_if none = pure tt
insert_grant_if (some g) = insert_grant (granted g)

abbrev pub decided : Decision → RequestStatus
decided Decision.approve = RequestStatus.approved
decided _ = RequestStatus.rejected

unfoldable pub decide_pending : DecisionCommand → Action (Unit {0})
unfolding insert_grant_if lock_active_task
decide_pending c = transaction do
  lock_active_task (is_approve c.approval.decision) c.context.request
  rows ←
      update_requests (decidable c) (λ r. record r { status = decided c.approval.decision })
        affected
  when_raise (not (rows == 1)) decision_conflict
  insert_approval c.approval
  insert_grant_if c.grant

unfoldable pub expire_pending : Uuid → Time → Action (Unit {0})
expire_pending request_id now = do
  rows ←
      update_requests
        (λ d r. r.id == request_id && is_pending r.status && leb r.approval_deadline now)
        (λ r. record r { status = RequestStatus.approval_expired }) affected
  when_raise (not (rows == 1)) decision_conflict
