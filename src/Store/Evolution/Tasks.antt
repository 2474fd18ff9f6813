-- ===== src/Store/Evolution/Tasks.antt =====
-- The methods of the task repository keep the lifecycles.
use mathlib.Core.Path.{◌≡◌, refl}
use mathlib.Core.Bool.{true, false, not}
use mathlib.Core.Option.{some}
use native.Mathlib.Omega.{arith}
use agent_key_vault_jit_acce.Domain.Task.{TaskStatus, is_active}
use agent_key_vault_jit_acce.Domain.Task
use agent_key_vault_jit_acce.Domain.Grant.{GrantStatus, is_approved, is_executing}
use agent_key_vault_jit_acce.Domain.Grant
use agent_key_vault_jit_acce.Domain.Paths.{stay, Reaches-step, grant_step}
use agent_key_vault_jit_acce.Store.Tables.{Uuid, Time, Task, Grant}
use agent_key_vault_jit_acce.Store.Action.Keeps.{Keeps}
use agent_key_vault_jit_acce.Store.Statements.{task_check}
use agent_key_vault_jit_acce.Store.Evolution.{DbEvolves}
use agent_key_vault_jit_acce.Store.Evolution.Rows.{TaskEvolves, GrantEvolves}
use agent_key_vault_jit_acce.Store.Evolution.Statements.{
  Keeps-update_tasks, Keeps-update_grants, Keeps-insert_task,
}
use agent_key_vault_jit_acce.Store.Evolution.Rules.{keeping, by_bind, by_when_raise, by_transaction}
use agent_key_vault_jit_acce.Prelude.Tests.{and-eq-true, ◌==◌}
use agent_key_vault_jit_acce.Store.Tasks.{
  create_task, active_task_of, heartbeat_active_task, revoke_grant, request_cancellation,
  end_active_task, find_active_task, silent_since, lose_task, mark_agent_lost_before,
}

-- An approved grant may be revoked.
pub revoke_grant-evolves :
    (at : Time) (g : Grant) → is_approved g.status ≡ true → GrantEvolves g (revoke_grant at g)
unfolding grant_step Grant.can_transition_to
revoke_grant-evolves at g h = record {
  snapshot = refl;
  path = Reaches-step grant_step g.status GrantStatus.revoked (ground arith);
  claimed_once = λ k. refl;
  dated = λ k. ground arith;
}

pub request_cancellation-evolves :
    (at : Time) (g : Grant)
    → is_executing g.status ≡ true
    → GrantEvolves g (request_cancellation at g)
request_cancellation-evolves at g h = record {
  snapshot = refl;
  path = stay;
  claimed_once = λ k. refl;
  dated = λ k. ground arith;
}

-- An active task may be ended by any status that the `CHECK` lets through.
pub end_task-evolves :
    (status : TaskStatus) (at : Time) (t : Task)
    → is_active t.status ≡ true
    → not (task_check (record t { status = status; ended_at = some at })) ≡ false
    → TaskEvolves t (record t { status = status; ended_at = some at })
unfolding task_check Task.can_transition_to
end_task-evolves status at t h k = record {
  identity = (refl, refl, refl);
  path = Reaches-step Task.can_transition_to t.status status (ground arith);
  frozen = λ f. absurd (cc);
}

heartbeat-evolves :
    (at : Time) (t : Task)
    → is_active t.status ≡ true
    → TaskEvolves t (record t { last_heartbeat_at = at })
heartbeat-evolves at t h = record {
  identity = (refl, refl, refl);
  path = stay;
  frozen = λ f. absurd (cc);
}

active_of-active :
    (task_id agent_id : Uuid) (t : Task)
    → active_task_of task_id agent_id t ≡ true
    → is_active t.status ≡ true
unfolding active_task_of
active_of-active task_id agent_id t h = ground arith

pub heartbeat_active_task-Keeps :
    (task_id agent_id : Uuid) (at : Time)
    → Keeps DbEvolves (heartbeat_active_task task_id agent_id at)
unfolding heartbeat_active_task
heartbeat_active_task-Keeps task_id agent_id at =
    by_bind _ _
      (Keeps-update_tasks _ _ _
        λ d t h k. heartbeat-evolves at t (active_of-active task_id agent_id t h))
      (λ n. by_when_raise _ _)

pub create_task-Keeps : (t : Task) → Keeps DbEvolves (create_task t)
unfolding create_task
create_task-Keeps t = Keeps-insert_task _

pub find_active_task-Keeps : (t a : Uuid) → Keeps DbEvolves (find_active_task t a)
unfolding find_active_task
find_active_task-Keeps t a = search keeping

pub end_active_task-Keeps :
    (task_id agent_id : Uuid) (status : TaskStatus) (at : Time)
    → Keeps DbEvolves (end_active_task task_id agent_id status at)
unfolding end_active_task
end_active_task-Keeps task_id agent_id status at = by_transaction _ (
    by_bind _ _
      (Keeps-update_tasks _ _ _
        λ d t h k. end_task-evolves status at t (active_of-active task_id agent_id t h) k)
      λ n. by_bind _ _ (by_when_raise _ _) λ u.
        by_bind _ _
          (Keeps-update_grants _ _ _
            λ d g h. revoke_grant-evolves at g (and-eq-true (g.task_id == task_id) _ h).1)
          (λ v.
            Keeps-update_grants _ _ _ λ d g h. request_cancellation-evolves at g (ground arith)))

silent-active :
    (cutoff : Time) (t : Task) → silent_since cutoff t ≡ true → is_active t.status ≡ true
unfolding silent_since
silent-active cutoff t h = ground arith

-- A silent task is lost.
pub lose_task-evolves :
    (cutoff at : Time) (t : Task)
    → silent_since cutoff t ≡ true
    → not (task_check (lose_task at t)) ≡ false
    → TaskEvolves t (lose_task at t)
lose_task-evolves cutoff at t h =
    end_task-evolves TaskStatus.agent_lost at t (silent-active cutoff t h)

pub mark_agent_lost_before-Keeps :
    (cutoff at : Time) → Keeps DbEvolves (mark_agent_lost_before cutoff at)
unfolding mark_agent_lost_before
mark_agent_lost_before-Keeps cutoff at =
    Keeps-update_tasks _ _ _ λ d t h k. lose_task-evolves cutoff at t h k
