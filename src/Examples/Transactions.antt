-- ===== src/Examples/Transactions.antt =====
-- A run of two statements in a transaction, and of a redactor.
use mathlib.Core.Path.{◌≡◌, refl}
use mathlib.Core.Bool.{Bool, true}
use mathlib.Core.Option.{none, some}
use mathlib.Core.List.{List, [], ◌∷◌}
use agent_key_vault_jit_acce.Prelude.Rows.{any_row, find_row, select_rows, count_rows, update_rows}
use agent_key_vault_jit_acce.Domain.Grant.{GrantStatus}
use agent_key_vault_jit_acce.Domain.Execution.{ExecutionStatus}
use agent_key_vault_jit_acce.Domain.Execution
use agent_key_vault_jit_acce.Store.Tables.{Bytes, text}
use agent_key_vault_jit_acce.Store.Action.{
  ok, next_fails, rest_faults, spend, when_raise, or_raise, land, statement, settle, transaction,
}
use agent_key_vault_jit_acce.Store.Action
use agent_key_vault_jit_acce.Store.Statements.{
  update_grants, update_executions, update_reclaims, insert_reclaim, update_incidents,
}
use agent_key_vault_jit_acce.Store.Execution.{
  null_if_empty, runs, finish, reclaimable, last_attempt, start_reclaim, reclaims_grant,
  close_reclaim, finish_reclaim,
}
use agent_key_vault_jit_acce.Proxy.Plan.{SqlStatement}
use agent_key_vault_jit_acce.Proxy.Machine.{
  Machine, Proxy, done, pure, go_on, ◌>>=◌, when_fail, stored, store, perform,
}
use agent_key_vault_jit_acce.Proxy.Vault.{Handle, close_lease, close}
use agent_key_vault_jit_acce.Proxy.Prepare.{finalize_execution}
use agent_key_vault_jit_acce.Proxy.Postgres.{
  SqlConnection, Executed, counted_in, committed, run_statements, begun_batch, execute_batch,
  disconnect_and_close,
}
use agent_key_vault_jit_acce.Proxy.Batches.{begun_at, IsCommitted, execute_batch-IsCommitted}
use agent_key_vault_jit_acce.Proxy.Redactor.{new_redactor}
use agent_key_vault_jit_acce.Proxy.Patterns.{AllLong, LongestFirst, new_redactor-patterns}
use agent_key_vault_jit_acce.Examples.{approved_db, grant, minute}
use agent_key_vault_jit_acce.Examples.Proxies.{draws, unchanged, vault}

-- Every statement changes two rows.
abbrev answering : SqlConnection
answering = record {
  connect = λ config values seen. true;
  begin = λ seen. true;
  execute = λ s arguments seen. Executed.affected 2;
  commit = λ seen. true;
  rollback = λ seen. true;
  disconnect = λ seen. true;
}

abbrev executing : Machine
executing = record {
  world = record {
    db = record approved_db {
      grants = record grant { status = GrantStatus.executing; claimed_at = some minute } ∷ [];
      executions =
          record {
            id = 201;
            grant_id = 91;
            status = ExecutionStatus.executing;
            started_at = minute;
            completed_at = none;
            vault_lease_id = none;
            error_code = none;
          }
          ∷ [];
    };
    faults = [];
  };
  trace = [];
}

abbrev two_statements : List SqlStatement
two_statements =
    record { sql = text "UPDATE a SET b = 1"; arguments = [] }
    ∷ record { sql = text "UPDATE c SET d = 2"; arguments = [] }
    ∷ []

abbrev unleased : Handle
unleased = record { values = []; lease_id = [] }

abbrev cleanup : Proxy Bool
cleanup = disconnect_and_close answering draws vault unleased

batch_done :
    (execute_batch answering draws 201 two_statements cleanup executing).0 ≡ done (2 ∷ 2 ∷ [])
unfolding execute_batch begun_batch run_statements counted_in committed finalize_execution close
    close_lease perform store stored when_fail ◌>>=◌ go_on pure finish runs start_reclaim
    reclaimable last_attempt finish_reclaim close_reclaim reclaims_grant null_if_empty update_grants
    update_executions update_reclaims insert_reclaim update_incidents any_row find_row select_rows
    count_rows update_rows transaction settle statement land or_raise when_raise spend rest_faults
    next_fails Action.◌>>=◌ Action.go_on Action.pure Execution.can_transition_to
batch_done = refl

execute_batch-IsCommitted_example :
    (answering.begin [] ≡ true)
    × IsCommitted answering draws 201 cleanup two_statements []
        (2 ∷ 2 ∷ [])
        (begun_at executing)
        (execute_batch answering draws 201 two_statements cleanup executing)
execute_batch-IsCommitted_example =
    execute_batch-IsCommitted answering draws 201 cleanup two_statements executing (2 ∷ 2 ∷ [])
      batch_done

abbrev login_values : List (Bytes × Bytes)
login_values = (text "username", text "bob") ∷ (text "password", text "secret") ∷ []

new_redactor-patterns_example :
    AllLong (new_redactor unchanged login_values)
    × LongestFirst (new_redactor unchanged login_values)
new_redactor-patterns_example = new_redactor-patterns unchanged login_values
