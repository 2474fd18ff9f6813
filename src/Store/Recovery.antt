-- ===== src/Store/Recovery.antt =====
-- internal/store/execution_postgres.go: cancellations, and recovery after a crash of the proxy.
use mathlib.Core.Bool.{Bool, not, ◌&&◌, ◌||◌}
use mathlib.Core.Option.{none, some}
use mathlib.Core.List.{List, [], map}
use Prim.Native.Nat.{ℕ, ◌+◌, ◌*◌}
use agent_key_vault_jit_acce.Prelude.Tests.{◌==◌, leb, is_some}
use agent_key_vault_jit_acce.Prelude.Rows.{any_row, select_rows, order_rows, take}
use agent_key_vault_jit_acce.Domain.Execution
use agent_key_vault_jit_acce.Domain.Execution.{ExecutionStatus}
use agent_key_vault_jit_acce.Domain.Reclaim
use agent_key_vault_jit_acce.Domain.Grant
use agent_key_vault_jit_acce.Domain.Grant.{GrantStatus}
use agent_key_vault_jit_acce.Store.Tables.{Db, Uuid, Time, Bytes, text, Execution, OperationKind}
use agent_key_vault_jit_acce.Store.Action.{Action, ◌>>◌, query, transaction}
use agent_key_vault_jit_acce.Store.Statements.{affected, update_grants, update_executions}

abbrev pub second : ℕ
second = 1000000000

unfoldable pub list_cancellation_requested : Action (List Uuid)
list_cancellation_requested = query λ d.
    map (λ e. e.id)
      (select_rows
        (λ e.
          Execution.is_executing e.status
          && any_row
              (λ g. g.id == e.grant_id && Grant.is_executing g.status && is_some g.revoked_at)
              d.grants)
        d.executions)

-- How long an execution of each kind may take.
abbrev pub execution_limit : OperationKind → ℕ
execution_limit OperationKind.http = 30 * second
execution_limit OperationKind.postgresql_statement = 60 * second
execution_limit OperationKind.postgresql_transaction = 300 * second
execution_limit OperationKind.sign = 30 * second

-- The `stuck` executions.
unfoldable pub is_stuck : Time → Db → Execution → Bool
is_stuck now d e =
    Execution.is_executing e.status
    && any_row
        (λ g.
          g.id == e.grant_id
          && Grant.is_executing g.status
          && any_row
              (λ r.
                r.id == g.request_id && leb (e.started_at + execution_limit r.operation_kind) now)
              d.requests)
        d.grants

abbrev pub time_out : Time → Execution → Execution
time_out now e = record e {
  status = ExecutionStatus.timed_out;
  completed_at = some now;
  error_code = some (text "PROXY_RECOVERY_TIMEOUT");
}

-- `lifecycle.RecoveryItem`; no lease is the empty text, the zero value of the Go string.
pub record RecoveryItem : Type 0 where
  pub execution_id : Uuid
  pub lease_id : Bytes

-- Executions that ended, and that no reclaim is running for or has cleaned up.
unfoldable pub is_recoverable : Db → Execution → Bool
is_recoverable d e =
    any_row
      (λ g. g.id == e.grant_id && (Grant.is_finished g.status || Grant.is_reclaim_failed g.status))
      d.grants
    && not (
        any_row
          (λ r.
            r.execution_id == e.id
            && (Reclaim.is_reclaiming r.status || Reclaim.is_reclaimed r.status))
          d.reclaims)

abbrev completed_or_started : Execution → Time
completed_or_started e = elim e.completed_at [ none ↦ e.started_at | some t ↦ t ]

abbrev lease_or_empty : Execution → Bytes
lease_or_empty e = elim e.vault_lease_id [ none ↦ [] | some l ↦ l ]

unfoldable pub recovery_items : ℕ → Db → List RecoveryItem
recovery_items limit d =
    map (λ e. record { execution_id = e.id; lease_id = lease_or_empty e })
      (take limit (order_rows completed_or_started (select_rows (is_recoverable d) d.executions)))

unfoldable pub mark_stuck_and_list_recovery : Time → ℕ → Action (List RecoveryItem)
mark_stuck_and_list_recovery now limit = transaction do
  update_executions (is_stuck now) (time_out now) affected
  update_grants
      (λ d g.
        Grant.is_executing g.status
        && any_row (λ e. e.grant_id == g.id && Execution.is_timed_out e.status) d.executions)
      (λ g. record g { status = GrantStatus.timed_out; completed_at = some now }) affected
  query (recovery_items limit)
