-- ===== src/Store/Evolution/Executions.antt =====
-- The methods of the execution repository keep the lifecycles.
use mathlib.Core.Path.{◌≡◌, refl}
use mathlib.Core.Bool.{true, ◌||◌, false}
use mathlib.Core.Option.{Option, some}
use native.Mathlib.Omega.{arith}
use agent_key_vault_jit_acce.Prelude.Tests.{and-eq-true}
use agent_key_vault_jit_acce.Prelude.Evolves.{any_row-witness}
use agent_key_vault_jit_acce.Domain.Execution.{ExecutionStatus}
use agent_key_vault_jit_acce.Domain.Execution
use agent_key_vault_jit_acce.Domain.Grant.{GrantStatus}
use agent_key_vault_jit_acce.Domain.Grant
use agent_key_vault_jit_acce.Domain.Paths.{stay, Reaches-step, grant_step}
use agent_key_vault_jit_acce.Store.Tables.{Db, Uuid, Time, Bytes, Grant, Execution}
use agent_key_vault_jit_acce.Store.Action.Keeps.{Keeps}
use agent_key_vault_jit_acce.Store.Evolution.{DbEvolves}
use agent_key_vault_jit_acce.Store.Evolution.Rows.{GrantEvolves, ExecutionEvolves}
use agent_key_vault_jit_acce.Store.Evolution.Statements.{
  Keeps-update_grants, Keeps-update_executions, Keeps-insert_execution, Keeps-insert_reclaim,
}
use agent_key_vault_jit_acce.Store.Evolution.Rules.{
  keeping, by_pure, by_bind, by_guard, by_or_raise, by_when_raise, by_transaction,
}
use agent_key_vault_jit_acce.Store.Execution.{
  start, record_lease, finish, reclaimable, start_reclaim,
}

pub executing_open : (s : GrantStatus) → Grant.is_executing s ≡ true → ¬ (Grant.is_open s ≡ false)
executing_open s h = ground arith

-- A grant whose claim is left alone changes its status as its lifecycle allows.
pub status-evolves :
    (g : Grant) (s : GrantStatus) (at : Option Time)
    → grant_step g.status s ≡ true
    → (Grant.is_open g.status ≡ false → at ≡ g.completed_at)
    → GrantEvolves g (record g { status = s; completed_at = at })
status-evolves g s at k kept = record {
  snapshot = refl;
  path = Reaches-step grant_step g.status s k;
  claimed_once = λ f. refl;
  dated = λ f. (kept f, refl);
}

pub start-Keeps :
    (new_id : Option Uuid) (g : Uuid) (at : Time) → Keeps DbEvolves (start new_id g at)
unfolding start
start-Keeps new_id g at =
    by_bind _ _ (by_or_raise _ _) λ id. by_bind _ _ (Keeps-insert_execution _ _) λ n. search keeping

pub record_lease-Keeps : (e : Uuid) (lease : Bytes) → Keeps DbEvolves (record_lease e lease)
unfolding record_lease
record_lease-Keeps e lease = by_bind _ _ (by_when_raise _ _) λ u.
    by_bind _ _
      (Keeps-update_executions _ _ _
        λ d x h. record { identity = (refl, refl, refl); path = stay; frozen = λ f. ground arith })
      λ n. by_when_raise _ _

-- An executing execution completes.
pub finish-evolves :
    (x : Execution) (status : ExecutionStatus) (at : Time) (code : Option Bytes)
    → Execution.is_executing x.status ≡ true
    → Execution.can_transition_to ExecutionStatus.executing status ≡ true
    → ExecutionEvolves x (record x { status = status; completed_at = some at; error_code = code })
unfolding Execution.can_transition_to
finish-evolves x status at code h k = record {
  identity = (refl, refl, refl);
  path = Reaches-step Execution.can_transition_to x.status status (ground arith);
  frozen = λ f. absurd (cc);
}

-- The grant follows its execution.
outcome-step :
    (s : GrantStatus) (t : ExecutionStatus)
    → Grant.is_executing s ≡ true
    → Execution.can_transition_to ExecutionStatus.executing t ≡ true
    → grant_step s (Grant.of_execution t) ≡ true
unfolding grant_step Grant.can_transition_to Execution.can_transition_to
outcome-step s t h k = ground arith

pub finish-Keeps :
    (e : Uuid) (status : ExecutionStatus) (at : Time) (code : Bytes)
    → Keeps DbEvolves (finish e status at code)
unfolding finish
finish-Keeps e status at code = by_guard _ _ _ λ guarded.
    let terminal : Execution.can_transition_to ExecutionStatus.executing status ≡ true =
      ground arith in
    by_transaction _ (
      by_bind _ _
        (Keeps-update_executions _ _ _
          λ d x h. finish-evolves x status at _ (ground arith) terminal)
        λ n. by_bind _ _ (by_when_raise _ _) λ u.
          by_bind _ _
            (Keeps-update_grants _ _ _ λ d g h.
              status-evolves g _ _ (outcome-step g.status status (and-eq-true _ _ h).1 terminal)
                (λ f. absurd (executing_open g.status (and-eq-true _ _ h).1 f)))
            λ m. by_when_raise _ _)

-- A finished grant, or one whose reclaim failed, may be reclaimed.
reclaim-step :
    (s : GrantStatus) (t : ExecutionStatus)
    → (Grant.same_outcome s t || Grant.is_reclaim_failed s) ≡ true
    → grant_step s GrantStatus.reclaiming ≡ true
unfolding grant_step Grant.can_transition_to
reclaim-step s t h = ground arith

reclaimable-step :
    (e : Uuid) (d : Db) (g : Grant)
    → reclaimable e d g ≡ true
    → grant_step g.status GrantStatus.reclaiming ≡ true
unfolding reclaimable
reclaimable-step e d g h =
    let (x, t) = any_row-witness _ d.executions h in reclaim-step g.status x.status (ground arith)

pub start_reclaim-Keeps :
    (new_id : Option Uuid) (e : Uuid) (at : Time) → Keeps DbEvolves (start_reclaim new_id e at)
unfolding start_reclaim
start_reclaim-Keeps new_id e at = by_bind _ _ (by_or_raise _ _) λ id. by_transaction _ (
    by_bind _ _
      (Keeps-update_grants _ _ _ λ d g h.
        status-evolves g GrantStatus.reclaiming g.completed_at (reclaimable-step e d g h)
          (λ f. refl))
      λ n. by_bind _ _ (by_when_raise _ _) λ u. by_bind _ _ (Keeps-insert_reclaim _) λ v. by_pure _)
