-- ===== src/Store/Evolution/Revocations.antt =====
-- Revocation and the sweep keep the lifecycles.
use mathlib.Core.Path.{◌≡◌, refl}
use mathlib.Core.Bool.{Bool, true, false}
use mathlib.Core.List.{List, [], ◌∷◌}
use native.Mathlib.Omega.{arith}
use agent_key_vault_jit_acce.Prelude.Tests.{and-eq-true}
use agent_key_vault_jit_acce.Domain.Grant.{GrantStatus, is_approved}
use agent_key_vault_jit_acce.Domain.Grant
use agent_key_vault_jit_acce.Domain.Paths.{Reaches-step, grant_step}
use agent_key_vault_jit_acce.Store.Tables.{Uuid, Time, Grant}
use agent_key_vault_jit_acce.Store.Action.Keeps.{Keeps}
use agent_key_vault_jit_acce.Store.Evolution.{DbEvolves}
use agent_key_vault_jit_acce.Store.Evolution.Rows.{GrantEvolves}
use agent_key_vault_jit_acce.Store.Evolution.Statements.{
  Keeps-update_tasks, Keeps-update_requests, Keeps-update_grants, Keeps-insert_audit,
}
use agent_key_vault_jit_acce.Store.Evolution.Rules.{by_pure, by_bind, by_when_raise, by_transaction}
use agent_key_vault_jit_acce.Store.Evolution.Tasks.{
  revoke_grant-evolves, request_cancellation-evolves, lose_task-evolves,
}
use agent_key_vault_jit_acce.Store.Evolution.Decisions.{expire-evolves}
use agent_key_vault_jit_acce.Store.Lifecycle.{
  RevokeActor, write_revocation_audit, cancel_executing, revoke_or_cancel, revoke_request,
  revoke_lost, sweep_expired_and_lost,
}

write_audit-Keeps :
    (r : Uuid) (a : RevokeActor) (at : Time) → Keeps DbEvolves (write_revocation_audit r a at)
unfolding write_revocation_audit
write_audit-Keeps r a at = Keeps-insert_audit _

cancel_executing-Keeps :
    (r : Uuid) (a : RevokeActor) (at : Time) → Keeps DbEvolves (cancel_executing r a at)
unfolding cancel_executing
cancel_executing-Keeps r a at =
    by_bind _ _
      (Keeps-update_grants _ _ _ λ d g h. request_cancellation-evolves at g (ground arith))
      λ ids.
        by_bind _ _ (by_when_raise _ _) λ u. by_bind _ _ (write_audit-Keeps r a at) λ v. by_pure _

revoke_or_cancel-Keeps :
    (b : Bool) (r : Uuid) (a : RevokeActor) (at : Time)
    → Keeps DbEvolves (revoke_or_cancel b r a at)
unfolding revoke_or_cancel
revoke_or_cancel-Keeps true r a at = by_bind _ _ (write_audit-Keeps r a at) λ u. by_pure _
revoke_or_cancel-Keeps false r a at = cancel_executing-Keeps r a at

pub revoke_request-Keeps :
    (r : Uuid) (a : RevokeActor) (at : Time) → Keeps DbEvolves (revoke_request r a at)
unfolding revoke_request
revoke_request-Keeps r a at = by_bind _ _ (by_when_raise _ _) λ u. by_transaction _ (
    by_bind _ _ (Keeps-update_grants _ _ _ λ d g h. revoke_grant-evolves at g (ground arith))
      λ n. revoke_or_cancel-Keeps _ r a at)

expire_grant-evolves :
    (g : Grant)
    → is_approved g.status ≡ true
    → GrantEvolves g (record g { status = GrantStatus.grant_expired })
unfolding grant_step Grant.can_transition_to
expire_grant-evolves g h = record {
  snapshot = refl;
  path = Reaches-step grant_step g.status GrantStatus.grant_expired (ground arith);
  claimed_once = λ k. refl;
  dated = λ k. (refl, refl);
}

revoke_lost-Keeps : (now : Time) (ids : List Uuid) → Keeps DbEvolves (revoke_lost now ids)
unfolding revoke_lost
revoke_lost-Keeps now [] = by_pure _
revoke_lost-Keeps now (id ∷ ids) =
    by_bind _ _
      (Keeps-update_grants _ _ _ λ d g h. revoke_grant-evolves now g (and-eq-true _ _ h).0)
      λ n. Keeps-update_grants _ _ _ λ d g h. request_cancellation-evolves now g (ground arith)

pub sweep-Keeps : (now cutoff : Time) → Keeps DbEvolves (sweep_expired_and_lost now cutoff)
unfolding sweep_expired_and_lost
sweep-Keeps now cutoff = by_transaction _ (
    by_bind _ _ (Keeps-update_requests _ _ _ λ d r h. expire-evolves r (and-eq-true _ _ h).0) λ n.
      by_bind _ _ (Keeps-update_grants _ _ _ λ d g h. expire_grant-evolves g (and-eq-true _ _ h).0)
        λ m.
          by_bind _ _ (Keeps-update_tasks _ _ _ λ d t h k. lose_task-evolves cutoff now t h k)
            λ lost. by_bind _ _ (revoke_lost-Keeps now lost) λ c. by_pure _)
