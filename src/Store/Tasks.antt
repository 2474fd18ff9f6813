-- ===== src/Store/Tasks.antt =====
-- internal/store/task_postgres.go: `PostgreSQLTaskRepository`.
use mathlib.Core.Bool.{Bool, not, ◌&&◌}
use mathlib.Core.Option
use mathlib.Core.Option.{Option, none, some}
use mathlib.Core.List.{List}
use agent_key_vault_jit_acce.Prelude.Tests.{◌==◌, leb, is_none}
use agent_key_vault_jit_acce.Prelude.Rows.{find_row, collect}
use agent_key_vault_jit_acce.Domain.Task.{TaskStatus, is_active}
use agent_key_vault_jit_acce.Domain.Grant.{GrantStatus, is_approved, is_executing}
use agent_key_vault_jit_acce.Store.Tables.{Db, Uuid, Time, Task, Grant}
use agent_key_vault_jit_acce.Store.Action.{
  Action, task_unavailable, ◌>>=◌, ◌>>◌, when_raise, or_raise, query, transaction,
}
use agent_key_vault_jit_acce.Store.Statements.{affected, update_tasks, update_grants, insert_task}

unfoldable pub create_task : Task → Action (Unit {0})
create_task t = insert_task (record t { status = TaskStatus.active; ended_at = none })

-- `WHERE id=$1 AND agent_id=$2 AND status='ACTIVE'`
unfoldable pub active_task_of : Uuid → Uuid → Task → Bool
active_task_of task_id agent_id t = t.id == task_id && t.agent_id == agent_id && is_active t.status

unfoldable pub heartbeat_active_task : Uuid → Uuid → Time → Action (Unit {0})
heartbeat_active_task task_id agent_id at = do
  rows ←
      update_tasks (λ d. active_task_of task_id agent_id) (λ t. record t { last_heartbeat_at = at })
        affected
  when_raise (not (rows == 1)) task_unavailable

-- `RETURNING (SELECT e.id FROM executions e WHERE e.grant_id=g.id)`, the valid ones.
unfoldable pub executions_of : Db → List Grant → List Uuid
executions_of d =
    collect (λ g. Option.map (λ e. e.id) (find_row (λ e. e.grant_id == g.id) d.executions))

abbrev pub revoke_grant : Time → Grant → Grant
revoke_grant at g = record g { status = GrantStatus.revoked; revoked_at = some at }

abbrev pub request_cancellation : Time → Grant → Grant
request_cancellation at g = record g { revoked_at = some at }

unfoldable pub end_active_task : Uuid → Uuid → TaskStatus → Time → Action (List Uuid)
end_active_task task_id agent_id status at = transaction do
  rows ←
      update_tasks (λ d. active_task_of task_id agent_id)
        (λ t. record t { status = status; ended_at = some at }) affected
  when_raise (not (rows == 1)) task_unavailable
  update_grants (λ d g. g.task_id == task_id && is_approved g.status) (revoke_grant at) affected
  update_grants (λ d g. g.task_id == task_id && is_executing g.status && is_none g.revoked_at)
      (request_cancellation at) executions_of

unfoldable pub find_active_task : Uuid → Uuid → Action Task
find_active_task task_id agent_id = do
  found ← query (λ d. find_row (active_task_of task_id agent_id) d.tasks)
  or_raise found task_unavailable

-- `WHERE status='ACTIVE' AND last_heartbeat_at <= cutoff`
unfoldable pub silent_since : Time → Task → Bool
silent_since cutoff t = is_active t.status && leb t.last_heartbeat_at cutoff

abbrev pub lose_task : Time → Task → Task
lose_task at t = record t { status = TaskStatus.agent_lost; ended_at = some at }

unfoldable pub mark_agent_lost_before : Time → Time → Action (List Task)
mark_agent_lost_before cutoff ended_at =
    update_tasks (λ d. silent_since cutoff) (lose_task ended_at) (λ d rows. rows)
