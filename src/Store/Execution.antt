-- ===== src/Store/Execution.antt =====
-- internal/store/execution_postgres.go: `PostgreSQLExecutionRepository`.
use mathlib.Core.Bool.{Bool, true, false, not, ◌&&◌, ◌||◌}
use mathlib.Core.Option.{Option, none, some}
use mathlib.Core.List.{List, [], ◌∷◌}
use Prim.Native.Nat.{ℕ, ◌+◌, max}
use agent_key_vault_jit_acce.Prelude.Tests.{is_empty, ◌==◌, is_some}
use agent_key_vault_jit_acce.Prelude.Rows.{any_row}
use agent_key_vault_jit_acce.Domain.Execution
use agent_key_vault_jit_acce.Domain.Execution.{ExecutionStatus}
use agent_key_vault_jit_acce.Domain.Reclaim
use agent_key_vault_jit_acce.Domain.Reclaim.{ReclaimStatus}
use agent_key_vault_jit_acce.Domain.Grant
use agent_key_vault_jit_acce.Domain.Grant.{GrantStatus}
use agent_key_vault_jit_acce.Store.Tables.{Db, Uuid, Time, Bytes, Grant, Reclaim}
use agent_key_vault_jit_acce.Store.Action.{
  Action, internal, ◌>>=◌, ◌>>◌, pure, when_raise, or_raise, transaction,
}
use agent_key_vault_jit_acce.Store.Statements.{
  affected, update_grants, update_executions, update_reclaims, update_incidents, insert_execution,
  insert_reclaim, insert_incident,
}

-- `NULLIF(text, '')`
unfoldable pub null_if_empty : Bytes → Option Bytes
null_if_empty [] = none
null_if_empty (c ∷ cs) = some (c ∷ cs)

-- The grant is executing and was claimed.
unfoldable pub is_claimed : Uuid → Db → Bool
is_claimed grant_id d =
    any_row (λ g. g.id == grant_id && Grant.is_executing g.status && is_some g.claimed_at) d.grants

-- `new_id` is what the generator of identifiers returns, `none` if it fails.
unfoldable pub start : Option Uuid → Uuid → Time → Action Uuid
start new_id grant_id started_at = do
  id ← or_raise new_id internal
  rows ← insert_execution (is_claimed grant_id) (record {
    id = id;
    grant_id = grant_id;
    status = ExecutionStatus.executing;
    started_at = started_at;
    completed_at = none;
    vault_lease_id = none;
    error_code = none;
  })
  when_raise (not (rows == 1)) internal
  pure id

unfoldable pub record_lease : Uuid → Bytes → Action (Unit {0})
record_lease execution_id lease_id = do
  when_raise (is_empty lease_id) internal
  rows ←
      update_executions
        (λ d e.
          e.id == execution_id && Execution.is_executing e.status && not (is_some e.vault_lease_id))
        (λ e. record e { vault_lease_id = some lease_id }) affected
  when_raise (not (rows == 1)) internal

-- The executions of a grant, by their identifier.
unfoldable pub runs : Uuid → Grant → Db → Bool
runs execution_id g d = any_row (λ e. e.id == execution_id && g.id == e.grant_id) d.executions

unfoldable pub finish : Uuid → ExecutionStatus → Time → Bytes → Action (Unit {0})
finish execution_id status completed_at error_code = do
  when_raise (not (Execution.can_transition_to ExecutionStatus.executing status)) internal
  transaction do
    rows ←
        update_executions (λ d e. e.id == execution_id && Execution.is_executing e.status)
          (λ e. record e {
            status = status;
            completed_at = some completed_at;
            error_code = null_if_empty error_code;
          })
          affected
    when_raise (not (rows == 1)) internal
    granted ←
        update_grants (λ d g. runs execution_id g d && Grant.is_executing g.status)
          (λ g. record g { status = Grant.of_execution status; completed_at = some completed_at })
          affected
    when_raise (not (granted == 1)) internal

-- `e.status IN (…) AND (g.status=e.status OR g.status='RECLAIM_FAILED')`
unfoldable pub reclaimable : Uuid → Db → Grant → Bool
reclaimable execution_id d g =
    any_row
      (λ e.
        e.id == execution_id
        && g.id == e.grant_id
        && not (Execution.is_executing e.status)
        && (Grant.same_outcome g.status e.status || Grant.is_reclaim_failed g.status))
      d.executions

-- `MAX(attempt)` over the reclaims of one execution, 0 if there is none.
unfoldable pub last_attempt : Uuid → List Reclaim → ℕ
last_attempt execution_id [] = 0
last_attempt execution_id (r ∷ rs) =
    max (elim (r.execution_id == execution_id) [ true ↦ r.attempt | false ↦ 0 ])
      (last_attempt execution_id rs)

abbrev pub next_reclaim : Uuid → Uuid → Time → Db → Reclaim
next_reclaim id execution_id started_at d = record {
  id = id;
  execution_id = execution_id;
  status = ReclaimStatus.reclaiming;
  started_at = started_at;
  completed_at = none;
  attempt = last_attempt execution_id d.reclaims + 1;
  error_code = none;
}

unfoldable pub start_reclaim : Option Uuid → Uuid → Time → Action Uuid
start_reclaim new_id execution_id started_at = do
  id ← or_raise new_id internal
  transaction do
    rows ←
        update_grants (reclaimable execution_id) (λ g. record g { status = GrantStatus.reclaiming })
          affected
    when_raise (not (rows == 1)) internal
    insert_reclaim (next_reclaim id execution_id started_at)
    pure id

-- The grant whose execution the reclaim belongs to.
unfoldable pub reclaims_grant : Uuid → Grant → Db → Bool
reclaims_grant reclaim_id g d =
    any_row (λ r. r.id == reclaim_id && runs r.execution_id g d) d.reclaims

abbrev pub reclaim_outcome : Bool → ReclaimStatus
reclaim_outcome true = ReclaimStatus.reclaimed
reclaim_outcome false = ReclaimStatus.reclaim_failed

abbrev pub grant_outcome : Bool → GrantStatus
grant_outcome true = GrantStatus.reclaimed
grant_outcome false = GrantStatus.reclaim_failed

-- A failure opens an incident; a success resolves those of every attempt.
unfoldable pub close_reclaim : Bool → Option Uuid → Uuid → Time → Bytes → Action (Unit {0})
close_reclaim false incident_id reclaim_id at code = do
  id ← or_raise incident_id internal
  insert_incident (record {
    id = id;
    reclaim_id = reclaim_id;
    open_incident = true;
    error_code = code;
    created_at = at;
    resolved_at = none;
  })
close_reclaim true incident_id reclaim_id at code =
    update_incidents
      (λ d i.
        i.open_incident
        && any_row
            (λ current.
              current.id == reclaim_id
              && any_row
                  (λ previous.
                    previous.execution_id == current.execution_id && previous.id == i.reclaim_id)
                  d.reclaims)
            d.reclaims)
      (λ i. record i { open_incident = false; resolved_at = some at })

unfoldable pub finish_reclaim : Option Uuid → Uuid → Bool → Time → Bytes → Action (Unit {0})
unfolding close_reclaim
finish_reclaim incident_id reclaim_id success completed_at error_code = transaction do
  rows ←
      update_reclaims (λ d r. r.id == reclaim_id && Reclaim.is_reclaiming r.status)
        (λ r. record r {
          status = reclaim_outcome success;
          completed_at = some completed_at;
          error_code = null_if_empty error_code;
        })
        affected
  when_raise (not (rows == 1)) internal
  granted ←
      update_grants (λ d g. reclaims_grant reclaim_id g d && Grant.is_reclaiming g.status)
        (λ g. record g { status = grant_outcome success }) affected
  when_raise (not (granted == 1)) internal
  close_reclaim success incident_id reclaim_id completed_at error_code
