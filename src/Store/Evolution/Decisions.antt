-- ===== src/Store/Evolution/Decisions.antt =====
-- The methods of the authorization repository keep the lifecycles.
use mathlib.Core.Path.{◌≡◌, refl}
use mathlib.Core.Bool.{Bool, true, false}
use mathlib.Core.Option.{Option, none, some}
use mathlib.Core.List.{List, [], ◌∷◌}
use native.Mathlib.Omega.{arith}
use agent_key_vault_jit_acce.Domain.Request.{RequestStatus, is_pending}
use agent_key_vault_jit_acce.Domain.Request
use agent_key_vault_jit_acce.Domain.Grant.{GrantStatus, is_approved}
use agent_key_vault_jit_acce.Domain.Grant
use agent_key_vault_jit_acce.Domain.Paths.{Reaches-step, grant_step}
use agent_key_vault_jit_acce.Store.Tables.{Db, Uuid, Time, Request, Grant}
use agent_key_vault_jit_acce.Store.Action.Keeps.{Keeps}
use agent_key_vault_jit_acce.Store.Evolution.{DbEvolves}
use agent_key_vault_jit_acce.Store.Evolution.Rows.{RequestEvolves, GrantEvolves}
use agent_key_vault_jit_acce.Store.Evolution.Statements.{
  Keeps-update_requests, Keeps-update_grants, Keeps-insert_request, Keeps-insert_approval,
  Keeps-insert_grant, Keeps-insert_audit,
}
use agent_key_vault_jit_acce.Store.Evolution.Rules.{
  keeping, by_pure, by_raise, by_bind, by_when_raise, by_transaction,
}
use agent_key_vault_jit_acce.Store.Authorization.{
  ClaimContext, DecisionCommand, decidable, decided, lock_active_task, insert_grant_if,
  find_decision_context, decide_pending, expire_pending,
}
use agent_key_vault_jit_acce.Store.Claims.{
  claimable, claim_grant, claim_result, claim_approved, create_request,
}

decide-evolves :
    (c : DecisionCommand) (d : Db) (r : Request)
    → decidable c d r ≡ true
    → RequestEvolves r (record r { status = decided c.approval.decision })
unfolding decidable Request.can_transition_to
decide-evolves c d r h = record {
  snapshot = refl;
  path =
      Reaches-step Request.can_transition_to r.status (decided c.approval.decision) (ground arith);
}

lock_active_task-Keeps : (b : Bool) (r : Request) → Keeps DbEvolves (lock_active_task b r)
unfolding lock_active_task
lock_active_task-Keeps true r = search keeping
lock_active_task-Keeps false r = search keeping

insert_grant_if-Keeps : (g : Option Grant) → Keeps DbEvolves (insert_grant_if g)
unfolding insert_grant_if
insert_grant_if-Keeps none = by_pure tt
insert_grant_if-Keeps (some g) = Keeps-insert_grant _

pub decide_pending-Keeps : (c : DecisionCommand) → Keeps DbEvolves (decide_pending c)
unfolding decide_pending
decide_pending-Keeps c = by_transaction _ (
    by_bind _ _ (lock_active_task-Keeps _ _) λ u.
      by_bind _ _ (Keeps-update_requests _ _ _ (decide-evolves c)) λ n.
        by_bind _ _ (by_when_raise _ _)
          λ v. by_bind _ _ (Keeps-insert_approval _) λ w. insert_grant_if-Keeps c.grant)

pub expire-evolves :
    (r : Request)
    → is_pending r.status ≡ true
    → RequestEvolves r (record r { status = RequestStatus.approval_expired })
unfolding Request.can_transition_to
expire-evolves r h = record {
  snapshot = refl;
  path =
      Reaches-step Request.can_transition_to r.status RequestStatus.approval_expired (ground arith);
}

pub expire_pending-Keeps : (id : Uuid) (now : Time) → Keeps DbEvolves (expire_pending id now)
unfolding expire_pending
expire_pending-Keeps id now =
    by_bind _ _ (Keeps-update_requests _ _ _ λ d r h. expire-evolves r (ground arith))
      λ n. by_when_raise _ _

pub find_decision_context-Keeps : (id : Uuid) → Keeps DbEvolves (find_decision_context id)
unfolding find_decision_context
find_decision_context-Keeps id = search keeping depth 9

-- Only an approved grant is claimed, and then it is executing.
claim-evolves :
    (c : ClaimContext) (now : Time) (d : Db) (g : Grant)
    → claimable c now d g ≡ true
    → GrantEvolves g (claim_grant now g)
unfolding claimable grant_step Grant.can_transition_to
claim-evolves c now d g h = record {
  snapshot = refl;
  path = Reaches-step grant_step g.status GrantStatus.executing (ground arith);
  claimed_once = λ k. ground arith;
  dated = λ k. (refl, refl);
}

claim_result-Keeps :
    (c : ClaimContext) (now : Time) (gs : List Grant) → Keeps DbEvolves (claim_result c now gs)
unfolding claim_result
claim_result-Keeps c now [] = by_bind _ _ (Keeps-insert_audit _) (λ u. by_raise _)
claim_result-Keeps c now (g ∷ gs) = search keeping

pub claim_approved-Keeps : (c : ClaimContext) (now : Time) → Keeps DbEvolves (claim_approved c now)
unfolding claim_approved
claim_approved-Keeps c now =
    by_bind _ _ (Keeps-update_grants _ _ _ (claim-evolves c now)) (claim_result-Keeps c now)

pub create_request-Keeps : (r : Request) → Keeps DbEvolves (create_request r)
unfolding create_request
create_request-Keeps r = by_bind _ _ (Keeps-insert_request _ _) λ n. by_when_raise _ _
