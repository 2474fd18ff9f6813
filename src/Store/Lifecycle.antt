-- ===== src/Store/Lifecycle.antt =====
-- internal/store/lifecycle_postgres.go: revocation, and the sweep of what has expired or is lost.
use mathlib.Core.Bool.{Bool, true, false, not, ◌&&◌, ◌||◌}
use mathlib.Core.Option
use mathlib.Core.Option.{none, some}
use mathlib.Core.List.{List, [], ◌∷◌, map}
use Prim.Native.Nat.{ℕ}
use agent_key_vault_jit_acce.Prelude.Tests.{◌==◌, leb, is_none}
use agent_key_vault_jit_acce.Prelude.Rows.{length, any_row, find_row, select_rows}
use agent_key_vault_jit_acce.Domain.Request.{RequestStatus, is_pending}
use agent_key_vault_jit_acce.Domain.Grant.{GrantStatus, is_approved, is_executing}
use agent_key_vault_jit_acce.Store.Tables.{Db, Uuid, Time, text, ActorType, Grant, AuditEvent}
use agent_key_vault_jit_acce.Store.Action.{
  Action, revoke_unavailable, ◌>>=◌, ◌>>◌, pure, when_raise, transaction,
}
use agent_key_vault_jit_acce.Store.Statements.{
  affected, update_tasks, update_requests, update_grants, insert_audit,
}
use agent_key_vault_jit_acce.Store.Tasks.{
  executions_of, revoke_grant, request_cancellation, silent_since, lose_task,
}

pub record RevokeActor : Type 0 where
  pub actor_type : ActorType
  pub id : Uuid

pub record RevokeResult : Type 0 where
  pub revoked_before_execution : Bool
  pub cancel_execution_ids : List Uuid

pub record SweepResult : Type 0 where
  pub expired_requests : ℕ
  pub expired_grants : ℕ
  pub lost_tasks : ℕ
  pub cancelled_executions : List Uuid

abbrev pub is_known : ActorType → Bool
is_known ActorType.user = true
is_known ActorType.agent = true
is_known ActorType.other = false

abbrev pub revocation_event : RevokeActor → Time → Db → Grant → AuditEvent
revocation_event actor at d g = record {
  event_type = text "authorization.revoked";
  actor_type = actor.actor_type;
  actor_id = actor.id;
  request_id = g.request_id;
  grant_id = g.id;
  execution_id = Option.map (λ e. e.id) (find_row (λ e. e.grant_id == g.id) d.executions);
  created_at = at;
}

unfoldable pub write_revocation_audit : Uuid → RevokeActor → Time → Action (Unit {0})
write_revocation_audit request_id actor at =
    insert_audit λ d.
      map (revocation_event actor at d) (select_rows (λ g. g.request_id == request_id) d.grants)

abbrev pub is_nil : List Uuid → Bool
is_nil [] = true
is_nil _ = false

-- The grant was not revoked before execution: an execution under way is cancelled.
unfoldable pub cancel_executing : Uuid → RevokeActor → Time → Action RevokeResult
unfolding write_revocation_audit
cancel_executing request_id actor at = do
  executions ←
      update_grants
        (λ d g. g.request_id == request_id && is_executing g.status && is_none g.revoked_at)
        (request_cancellation at) executions_of
  when_raise (is_nil executions) revoke_unavailable
  write_revocation_audit request_id actor at
  pure (record { revoked_before_execution = false; cancel_execution_ids = executions })

unfoldable pub revoke_or_cancel : Bool → Uuid → RevokeActor → Time → Action RevokeResult
unfolding write_revocation_audit cancel_executing
revoke_or_cancel true request_id actor at = do
  write_revocation_audit request_id actor at
  pure (record { revoked_before_execution = true; cancel_execution_ids = [] })
revoke_or_cancel false request_id actor at = cancel_executing request_id actor at

unfoldable pub revoke_request : Uuid → RevokeActor → Time → Action RevokeResult
unfolding revoke_or_cancel
revoke_request request_id actor at = do
  when_raise (not (is_known actor.actor_type) || actor.id == 0) revoke_unavailable
  transaction do
    rows ←
        update_grants
          (λ d g. g.request_id == request_id && is_approved g.status && is_none g.revoked_at)
          (revoke_grant at) affected
    revoke_or_cancel (rows == 1) request_id actor at

unfoldable pub is_one_of : List Uuid → Uuid → Bool
is_one_of ids id = any_row (λ x. x == id) ids

-- The grants of the lost tasks; nothing is run where no task is lost.
unfoldable pub revoke_lost : Time → List Uuid → Action (List Uuid)
revoke_lost now [] = pure []
revoke_lost now (id ∷ ids) = do
  update_grants (λ d g. is_approved g.status && is_one_of (id ∷ ids) g.task_id) (revoke_grant now)
      affected
  update_grants
      (λ d g. is_executing g.status && is_none g.revoked_at && is_one_of (id ∷ ids) g.task_id)
      (request_cancellation now) executions_of

unfoldable pub sweep_expired_and_lost : Time → Time → Action SweepResult
unfolding revoke_lost
sweep_expired_and_lost now lost_cutoff = transaction do
  requests ←
      update_requests (λ d r. is_pending r.status && leb r.approval_deadline now)
        (λ r. record r { status = RequestStatus.approval_expired }) affected
  grants ←
      update_grants (λ d g. is_approved g.status && leb g.expires_at now)
        (λ g. record g { status = GrantStatus.grant_expired }) affected
  lost ←
      update_tasks (λ d. silent_since lost_cutoff) (lose_task now) (λ d rows. map (λ t. t.id) rows)
  cancelled ← revoke_lost now lost
  pure (record {
    expired_requests = requests;
    expired_grants = grants;
    lost_tasks = length lost;
    cancelled_executions = cancelled;
  })
