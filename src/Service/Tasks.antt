-- ===== src/Service/Tasks.antt =====
-- internal/task/service.go.
pub mod Ends
use mathlib.Core.Bool.{Bool, true, false, not, ◌||◌}
use mathlib.Core.Option.{Option, none}
use mathlib.Core.List.{List, []}
use Prim.Native.Nat.{◌-◌}
use agent_key_vault_jit_acce.Prelude.Tests.{◌==◌}
use agent_key_vault_jit_acce.Domain.Task.{TaskStatus, is_active, can_transition_to}
use agent_key_vault_jit_acce.Domain.Execution.{ExecutionStatus}
use agent_key_vault_jit_acce.Store.Tables.{Uuid, Time, Bytes, text, Task}
use agent_key_vault_jit_acce.Store.Action.{
  Action, invalid_input, task_unavailable, execution_state_failed, reclaim_failed, internal, ◌>>=◌,
  ◌>>◌, pure, when_raise, or_raise, mask,
}
use agent_key_vault_jit_acce.Store.Tasks.{
  create_task, heartbeat_active_task, end_active_task, find_active_task, mark_agent_lost_before,
}
use agent_key_vault_jit_acce.Store.Execution.{finish, start_reclaim, finish_reclaim}
use agent_key_vault_jit_acce.Service.Lifecycle.{agent_lost_after}

unfoldable pub begin : Uuid → Time → Option Uuid → Action Task
begin agent_id now new_id = do
  when_raise (agent_id == 0) invalid_input
  id ← or_raise new_id internal
  let task : Task = record {
    id = id;
    agent_id = agent_id;
    status = TaskStatus.active;
    created_at = now;
    last_heartbeat_at = now;
    ended_at = none;
  }
  mask (λ e. internal) (create_task task)
  pure task

unfoldable pub heartbeat : Uuid → Uuid → Time → Action (Unit {0})
heartbeat agent_id task_id now = do
  when_raise (agent_id == 0 || task_id == 0) invalid_input
  mask (λ e. task_unavailable) (heartbeat_active_task task_id agent_id now)

unfoldable pub validate_active : Uuid → Uuid → Action Task
validate_active agent_id task_id = do
  when_raise (agent_id == 0 || task_id == 0) invalid_input
  task ← mask (λ e. task_unavailable) (find_active_task task_id agent_id)
  when_raise (not (is_active task.status) || not (task.agent_id == agent_id)) task_unavailable
  pure task

unfoldable pub end_task : Uuid → Uuid → TaskStatus → Time → Action (List Uuid)
end_task agent_id task_id outcome now = do
  when_raise (agent_id == 0 || task_id == 0 || not (can_transition_to TaskStatus.active outcome))
      invalid_input
  mask (λ e. task_unavailable) (end_active_task task_id agent_id outcome now)

unfoldable pub sweep_agent_lost : Time → Action (List Task)
sweep_agent_lost now = mask (λ e. internal) (mark_agent_lost_before (now - agent_lost_after) now)
