-- ===== src/Examples/Services.antt =====
-- Runs of the theorems of the services on the small database.
use mathlib.Core.Path.{◌≡◌, refl}
use mathlib.Core.Bool.{true, false}
use mathlib.Core.Option.{none, some}
use mathlib.Core.List.{[], ◌∷◌}
use Prim.Native.Nat.{◌+◌, ◌-◌, ◌*◌, ◌≤◌}
use agent_key_vault_jit_acce.Prelude.Rows.{any_row, select_rows, update_rows, collect, bytes_eq}
use agent_key_vault_jit_acce.Prelude.Evolves.{All}
use agent_key_vault_jit_acce.Domain.Task.{TaskStatus}
use agent_key_vault_jit_acce.Domain.Task
use agent_key_vault_jit_acce.Domain.Request.{RequestStatus}
use agent_key_vault_jit_acce.Domain.Grant.{GrantStatus}
use agent_key_vault_jit_acce.Store.Action.{
  World, ok, next_fails, rest_faults, spend, pure, go_on, ◌>>=◌, when_raise, with_error, mask, land,
  statement, settle, transaction,
}
use agent_key_vault_jit_acce.Store.Statements.{
  task_check, update_tasks, update_requests, update_grants,
}
use agent_key_vault_jit_acce.Store.Authorization.{has_active_task, is_bound, is_current}
use agent_key_vault_jit_acce.Store.Tasks.{
  active_task_of, executions_of, end_active_task, silent_since,
}
use agent_key_vault_jit_acce.Store.Lifecycle.{
  SweepResult, is_one_of, revoke_lost, sweep_expired_and_lost,
}
use agent_key_vault_jit_acce.Service.Tasks.{end_task}
use agent_key_vault_jit_acce.Service.Tasks.Ends.{TaskOver, GrantStopped, end_task-stops}
use agent_key_vault_jit_acce.Service.Lifecycle.{agent_lost_after, sweep}
use agent_key_vault_jit_acce.Service.Lifecycle.Sweeps.{
  RequestTimely, GrantTimely, TaskAlive, sweep-leaves,
}
use agent_key_vault_jit_acce.Prelude.Rows.{find_row, insert_ordered, order_rows}
use agent_key_vault_jit_acce.Prelude.Int.{pos}
use agent_key_vault_jit_acce.Domain.Execution.{ExecutionStatus}
use agent_key_vault_jit_acce.Store.Tables.{Decision, Approval, Execution}
use agent_key_vault_jit_acce.Store.Action.{query, or_raise}
use agent_key_vault_jit_acce.Store.Statements.{
  insert_grant, insert_approval, decision_check, update_executions,
}
use agent_key_vault_jit_acce.Store.Authorization.{
  context_row, scanned, find_decision_context, decide_pending, lock_active_task, decidable,
  insert_grant_if,
}
use agent_key_vault_jit_acce.Store.Recovery.{
  RecoveryItem, is_stuck, is_recoverable, recovery_items, mark_stuck_and_list_recovery,
}
use agent_key_vault_jit_acce.Service.Identity.{User, can_approve}
use agent_key_vault_jit_acce.Service.Approvals.{decide, make_grant, refuse_expired}
use agent_key_vault_jit_acce.Service.Approvals.Decides.{DecisionOutcome, decide-ok}
use agent_key_vault_jit_acce.Service.Lifecycle.{Turn, RecoveryResult, recovery_batch, recover}
use agent_key_vault_jit_acce.Service.Lifecycle.Recovers.{recover-counts}
use agent_key_vault_jit_acce.Examples.{minute, request_with, grant, approved_db, approved_world}

task_ends : (end_task 11 71 TaskStatus.completed (2 * minute) approved_world).0 ≡ ok []
unfolding end_task end_active_task active_task_of update_tasks update_grants task_check
    Task.can_transition_to any_row select_rows update_rows collect executions_of statement land
    spend next_fails rest_faults ◌>>=◌ go_on when_raise mask with_error transaction settle pure
task_ends = refl

end_task-stops_example :
    All
      (TaskOver 71 11)
      (end_task 11 71 TaskStatus.completed (2 * minute) approved_world).1.db.tasks
    × All
        (GrantStopped 71)
        (end_task 11 71 TaskStatus.completed (2 * minute) approved_world).1.db.grants
end_task-stops_example =
    end_task-stops 11 71 TaskStatus.completed (2 * minute) approved_world [] task_ends

abbrev swept : SweepResult
swept = record {
  expired_requests = 0;
  expired_grants = 1;
  lost_tasks = 1;
  cancelled_executions = [];
}

sweeps_all : (sweep (4 * minute) approved_world).0 ≡ ok swept
unfolding sweep sweep_expired_and_lost revoke_lost is_one_of silent_since update_tasks update_grants
    update_requests task_check Task.can_transition_to any_row select_rows update_rows collect
    executions_of statement land spend next_fails rest_faults ◌>>=◌ go_on when_raise mask with_error
    transaction settle pure
sweeps_all = refl

sweep-leaves_example :
    All
      (RequestTimely (4 * minute) (4 * minute - agent_lost_after))
      (sweep (4 * minute) approved_world).1.db.requests
    × All
        (GrantTimely (4 * minute) (4 * minute - agent_lost_after))
        (sweep (4 * minute) approved_world).1.db.grants
    × All
        (TaskAlive (4 * minute) (4 * minute - agent_lost_after))
        (sweep (4 * minute) approved_world).1.db.tasks
sweep-leaves_example = sweep-leaves (4 * minute) approved_world swept sweeps_all

abbrev owner : User
owner = record {
  id = 21;
  username = 1 ∷ [];
  is_admin = false;
  approve_all = false;
  owner_active = true;
}

abbrev pending_world : World
pending_world = record {
  db = record approved_db {
    requests = request_with RequestStatus.pending_approval ∷ [];
    grants = [];
  };
  faults = [];
}

abbrev approval : Approval
approval = record {
  id = 101;
  request_id = 81;
  approver_user_id = 21;
  decision = Decision.approve;
  decided_at = minute;
  grant_expires_at = some (3 * minute);
}

decides_now :
    (decide owner 81 Decision.approve
      (some (pos (2 * minute)))
      minute
      (some 101)
      (some 91)
      pending_world).0
    ≡ ok (approval, some grant)
unfolding decide find_decision_context context_row scanned can_approve refuse_expired make_grant
    decide_pending lock_active_task decidable insert_grant_if insert_grant insert_approval
    decision_check update_requests query or_raise has_active_task is_current is_bound any_row
    find_row select_rows update_rows bytes_eq statement land spend next_fails rest_faults ◌>>=◌
    go_on when_raise mask with_error transaction settle pure
decides_now = refl

decide-ok_example :
    DecisionOutcome owner 81 Decision.approve
      (some (pos (2 * minute)))
      minute
      (some 101)
      (some 91)
      pending_world.db
      (approval, some grant)
      (decide owner 81 Decision.approve
        (some (pos (2 * minute)))
        minute
        (some 101)
        (some 91)
        pending_world).1.db
decide-ok_example =
    decide-ok owner 81 Decision.approve (some (pos (2 * minute))) minute (some 101) (some 91)
      pending_world (approval, some grant) decides_now

abbrev execution : Execution
execution = record {
  id = 111;
  grant_id = 91;
  status = ExecutionStatus.failed;
  started_at = minute;
  completed_at = some (2 * minute);
  vault_lease_id = some (7 ∷ []);
  error_code = none;
}

-- The proxy has stopped between the end of the execution and its reclaim.
abbrev stopped_world : World
stopped_world = record {
  db = record approved_db {
    grants = record grant { status = GrantStatus.failed; claimed_at = some minute } ∷ [];
    executions = execution ∷ [];
  };
  faults = [];
}

abbrev item : RecoveryItem
item = record { execution_id = 111; lease_id = 7 ∷ [] }

listed : (mark_stuck_and_list_recovery (3 * minute) recovery_batch stopped_world).0 ≡ ok (item ∷ [])
unfolding mark_stuck_and_list_recovery is_stuck is_recoverable recovery_items order_rows
    insert_ordered update_executions update_grants query any_row select_rows update_rows statement
    land spend next_fails rest_faults ◌>>=◌ go_on transaction settle pure
listed = refl

abbrev turn : Turn
turn = record {
  reclaim_id = some 121;
  incident_id = some 131;
  started_at = 3 * minute;
  ended_at = 3 * minute;
  revoked = true;
}

recover-counts_example :
    (r : RecoveryResult) × ((recover (λ e. turn) (3 * minute) stopped_world).0 ≡ ok r)
    × (r.candidates ≡ 1)
    × (r.recovered + r.failed ≡ 1)
    × (1 ≤ 100)
recover-counts_example = recover-counts (λ e. turn) (3 * minute) stopped_world (item ∷ []) listed
