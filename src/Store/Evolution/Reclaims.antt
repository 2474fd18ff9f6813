-- ===== src/Store/Evolution/Reclaims.antt =====
-- The end of a reclaim, and recovery, keep the lifecycles.
use mathlib.Core.Path.{◌≡◌, refl}
use mathlib.Core.Bool.{true, false, Bool}
use mathlib.Core.Option.{Option, some}
use Prim.Native.Nat.{ℕ}
use native.Mathlib.Omega.{arith}
use agent_key_vault_jit_acce.Prelude.Tests.{and-eq-true}
use agent_key_vault_jit_acce.Domain.Execution.{ExecutionStatus}
use agent_key_vault_jit_acce.Domain.Execution
use agent_key_vault_jit_acce.Domain.Reclaim.{ReclaimStatus}
use agent_key_vault_jit_acce.Domain.Reclaim
use agent_key_vault_jit_acce.Domain.Grant.{GrantStatus}
use agent_key_vault_jit_acce.Domain.Grant
use agent_key_vault_jit_acce.Domain.Paths.{Reaches-step, grant_step}
use agent_key_vault_jit_acce.Store.Tables.{Incident, Db, Uuid, Time, Bytes, Execution, Reclaim}
use agent_key_vault_jit_acce.Store.Action.Keeps.{Keeps}
use agent_key_vault_jit_acce.Store.Evolution.{DbEvolves}
use agent_key_vault_jit_acce.Store.Evolution.Rows.{IncidentEvolves, ReclaimEvolves}
use agent_key_vault_jit_acce.Store.Evolution.Statements.{
  Keeps-update_grants, Keeps-update_executions, Keeps-update_reclaims, Keeps-update_incidents,
  Keeps-insert_incident,
}
use agent_key_vault_jit_acce.Store.Evolution.Rules.{
  by_bind, by_or_raise, by_when_raise, by_transaction, by_query,
}
use agent_key_vault_jit_acce.Store.Evolution.Executions.{
  executing_open, status-evolves, finish-evolves,
}
use agent_key_vault_jit_acce.Store.Execution.{
  reclaim_outcome, grant_outcome, close_reclaim, finish_reclaim,
}
use agent_key_vault_jit_acce.Store.Recovery.{
  is_stuck, list_cancellation_requested, mark_stuck_and_list_recovery,
}

close_reclaim-evolves :
    (x : Reclaim) (success : Bool) (at : Option Time) (code : Option Bytes)
    → Reclaim.is_reclaiming x.status ≡ true
    → ReclaimEvolves x
        (record x { status = reclaim_outcome success; completed_at = at; error_code = code })
unfolding Reclaim.can_transition_to
close_reclaim-evolves x success at code h = record {
  identity = (refl, refl, refl);
  path = Reaches-step Reclaim.can_transition_to x.status (reclaim_outcome success) (ground arith);
  frozen = λ f. absurd (cc);
}

reclaimed-step :
    (s : GrantStatus) (success : Bool)
    → Grant.is_reclaiming s ≡ true
    → grant_step s (grant_outcome success) ≡ true
unfolding grant_step Grant.can_transition_to
reclaimed-step s success h = ground arith

resolve-evolves :
    (i : Incident) (at : Time)
    → i.open_incident ≡ true
    → IncidentEvolves i (record i { open_incident = false; resolved_at = some at })
resolve-evolves i at h = record { snapshot = refl; frozen = λ f. absurd (cc) }

close_reclaim-Keeps :
    (success : Bool) (new_id : Option Uuid) (r : Uuid) (at : Time) (code : Bytes)
    → Keeps DbEvolves (close_reclaim success new_id r at code)
unfolding close_reclaim
close_reclaim-Keeps true new_id r at code =
    Keeps-update_incidents _ _ λ d i h. resolve-evolves i at (ground arith)
close_reclaim-Keeps false new_id r at code =
    by_bind _ _ (by_or_raise _ _) λ id. Keeps-insert_incident _

pub finish_reclaim-Keeps :
    (new_id : Option Uuid) (r : Uuid) (success : Bool) (at : Time) (code : Bytes)
    → Keeps DbEvolves (finish_reclaim new_id r success at code)
unfolding finish_reclaim
finish_reclaim-Keeps new_id r success at code = by_transaction _ (
    by_bind _ _
      (Keeps-update_reclaims _ _ _
        λ d x h. close_reclaim-evolves x success _ _ (and-eq-true _ _ h).1)
      λ n. by_bind _ _ (by_when_raise _ _) λ u.
        by_bind _ _
          (Keeps-update_grants _ _ _ λ d g h.
            status-evolves g (grant_outcome success) g.completed_at
              (reclaimed-step g.status success (and-eq-true _ _ h).1) (λ f. refl))
          λ m. by_bind _ _ (by_when_raise _ _) λ v. close_reclaim-Keeps success new_id r at code)

timed_out-step :
    (s : GrantStatus) → Grant.is_executing s ≡ true → grant_step s GrantStatus.timed_out ≡ true
unfolding grant_step Grant.can_transition_to
timed_out-step s h = ground arith

stuck-executing :
    (now : Time) (d : Db) (e : Execution)
    → is_stuck now d e ≡ true
    → Execution.is_executing e.status ≡ true
unfolding is_stuck
stuck-executing now d e h = (and-eq-true _ _ h).0

terminal-timed_out :
    Execution.can_transition_to ExecutionStatus.executing ExecutionStatus.timed_out ≡ true
unfolding Execution.can_transition_to
terminal-timed_out = refl

pub mark_stuck-Keeps :
    (now : Time) (limit : ℕ) → Keeps DbEvolves (mark_stuck_and_list_recovery now limit)
unfolding mark_stuck_and_list_recovery
mark_stuck-Keeps now limit = by_transaction _ (
    by_bind _ _
      (Keeps-update_executions _ _ _ λ d e h.
        finish-evolves e ExecutionStatus.timed_out now _ (stuck-executing now d e h)
          terminal-timed_out)
      λ n.
        by_bind _ _
          (Keeps-update_grants _ _ _ λ d g h.
            status-evolves g GrantStatus.timed_out _ (timed_out-step g.status (and-eq-true _ _ h).0)
              (λ f. let e = (and-eq-true _ _ h).0 in absurd (executing_open g.status e f)))
          λ m. by_query _)

pub list_cancellation_requested-Keeps : Keeps DbEvolves list_cancellation_requested
unfolding list_cancellation_requested
list_cancellation_requested-Keeps = by_query _
