-- ===== src/Store/History/Evolves.antt =====
-- Over any history every row lives its lifecycle, and nothing that was approved is rewritten.
use mathlib.Core.List.{List, [], ◌∷◌}
use agent_key_vault_jit_acce.Store.Action.{World, Action}
use agent_key_vault_jit_acce.Store.Action.Keeps.{Keeps}
use agent_key_vault_jit_acce.Store.Evolution.{DbEvolves, DbEvolves-preorder}
use agent_key_vault_jit_acce.Store.Evolution.Rules.{by_bind, by_pure}
use agent_key_vault_jit_acce.Store.Evolution.Tasks.{
  create_task-Keeps, heartbeat_active_task-Keeps, end_active_task-Keeps, find_active_task-Keeps,
  mark_agent_lost_before-Keeps,
}
use agent_key_vault_jit_acce.Store.Evolution.Decisions.{
  create_request-Keeps, find_decision_context-Keeps, decide_pending-Keeps, expire_pending-Keeps,
  claim_approved-Keeps,
}
use agent_key_vault_jit_acce.Store.Evolution.Executions.{
  start-Keeps, record_lease-Keeps, finish-Keeps, start_reclaim-Keeps,
}
use agent_key_vault_jit_acce.Store.Evolution.Reclaims.{
  finish_reclaim-Keeps, mark_stuck-Keeps, list_cancellation_requested-Keeps,
}
use agent_key_vault_jit_acce.Store.Evolution.Revocations.{revoke_request-Keeps, sweep-Keeps}
use agent_key_vault_jit_acce.Store.Evolution.CatalogStatements.{create_operation_set-Keeps}
use agent_key_vault_jit_acce.Store.Evolution.CatalogMethods.{
  update_target-Keeps, set_target_active-Keeps, set_credential_active-Keeps, create_target-Keeps,
  create_operation_with_version-Keeps, publish_operation_version-Keeps,
  set_operation_set_active-Keeps, set_operation_active-Keeps, upsert_target_operation_binding-Keeps,
}
use agent_key_vault_jit_acce.Store.Evolution.AccountMethods.{
  create_initial_admin-Keeps, create_account_and_session-Keeps, create_session-Keeps,
  revoke_session-Keeps, update_non_admin_user-Keeps, create_agent_with_token-Keeps,
  replace_agent_token-Keeps, revoke_agent_token-Keeps, set_agent_active-Keeps,
}
use agent_key_vault_jit_acce.Store.History.{
  Call, creates_task, beats, ends_task, finds_task, loses_tasks, creates_request, finds_context,
  decides, expires, claims, starts, records_lease, finishes, starts_reclaim, finishes_reclaim,
  lists_cancelled, recovers, revokes, sweeps, updates_target, sets_target, sets_credential,
  creates_target, creates_set, creates_operation, publishes, sets_set, sets_operation, binds,
  creates_admin, registers_user, creates_session, revokes_session, updates_user, registers_agent,
  replaces_token, revokes_token, sets_agent, unseen, perform, run,
}

unseen-Keeps : {A : Type 0} (m : Action A) → Keeps DbEvolves m → Keeps DbEvolves (unseen m)
unseen-Keeps m h = by_bind m _ h λ a. by_pure _

pub perform-Keeps : (c : Call) → Keeps DbEvolves (perform c)
unfolding perform
perform-Keeps (creates_task t) = unseen-Keeps _ (create_task-Keeps t)
perform-Keeps (beats t a at) = unseen-Keeps _ (heartbeat_active_task-Keeps t a at)
perform-Keeps (ends_task t a s at) = unseen-Keeps _ (end_active_task-Keeps t a s at)
perform-Keeps (finds_task t a) = unseen-Keeps _ (find_active_task-Keeps t a)
perform-Keeps (loses_tasks cutoff at) = unseen-Keeps _ (mark_agent_lost_before-Keeps cutoff at)
perform-Keeps (creates_request r) = unseen-Keeps _ (create_request-Keeps r)
perform-Keeps (finds_context r) = unseen-Keeps _ (find_decision_context-Keeps r)
perform-Keeps (decides c) = unseen-Keeps _ (decide_pending-Keeps c)
perform-Keeps (expires r now) = unseen-Keeps _ (expire_pending-Keeps r now)
perform-Keeps (claims c now) = by_bind _ _ (claim_approved-Keeps c now) λ g. by_pure _
perform-Keeps (starts new_id g at) = unseen-Keeps _ (start-Keeps new_id g at)
perform-Keeps (records_lease e lease) = unseen-Keeps _ (record_lease-Keeps e lease)
perform-Keeps (finishes e s at code) = unseen-Keeps _ (finish-Keeps e s at code)
perform-Keeps (starts_reclaim new_id e at) = unseen-Keeps _ (start_reclaim-Keeps new_id e at)
perform-Keeps (finishes_reclaim new_id r success at code) =
    unseen-Keeps _ (finish_reclaim-Keeps new_id r success at code)
perform-Keeps lists_cancelled = unseen-Keeps _ list_cancellation_requested-Keeps
perform-Keeps (recovers now limit) = unseen-Keeps _ (mark_stuck-Keeps now limit)
perform-Keeps (revokes r actor at) = unseen-Keeps _ (revoke_request-Keeps r actor at)
perform-Keeps (sweeps now cutoff) = unseen-Keeps _ (sweep-Keeps now cutoff)
perform-Keeps (updates_target t at) = unseen-Keeps _ (update_target-Keeps t at)
perform-Keeps (sets_target i b at) = unseen-Keeps _ (set_target_active-Keeps i b at)
perform-Keeps (sets_credential i b at) = unseen-Keeps _ (set_credential_active-Keeps i b at)
perform-Keeps (creates_target t k) = unseen-Keeps _ (create_target-Keeps t k)
perform-Keeps (creates_set s) = unseen-Keeps _ (create_operation_set-Keeps s)
perform-Keeps (creates_operation o v) = unseen-Keeps _ (create_operation_with_version-Keeps o v)
perform-Keeps (publishes v n u at) = unseen-Keeps _ (publish_operation_version-Keeps v n u at)
perform-Keeps (sets_set i b u at) = unseen-Keeps _ (set_operation_set_active-Keeps i b u at)
perform-Keeps (sets_operation i b u at) = unseen-Keeps _ (set_operation_active-Keeps i b u at)
perform-Keeps (binds k) = unseen-Keeps _ (upsert_target_operation_binding-Keeps k)
perform-Keeps (creates_admin u) = unseen-Keeps _ (create_initial_admin-Keeps u)
perform-Keeps (registers_user u s) = unseen-Keeps _ (create_account_and_session-Keeps u s)
perform-Keeps (creates_session s) = unseen-Keeps _ (create_session-Keeps s)
perform-Keeps (revokes_session h at) = unseen-Keeps _ (revoke_session-Keeps h at)
perform-Keeps (updates_user i b all) = unseen-Keeps _ (update_non_admin_user-Keeps i b all)
perform-Keeps (registers_agent a t) = unseen-Keeps _ (create_agent_with_token-Keeps a t)
perform-Keeps (replaces_token o a t at) = unseen-Keeps _ (replace_agent_token-Keeps o a t at)
perform-Keeps (revokes_token o a at) = unseen-Keeps _ (revoke_agent_token-Keeps o a at)
perform-Keeps (sets_agent o a b) = unseen-Keeps _ (set_agent_active-Keeps o a b)

pub run-DbEvolves : (cs : List Call) (w : World) → DbEvolves w.db (run cs w).db
unfolding run
run-DbEvolves [] w = DbEvolves-preorder.reflexive w.db
run-DbEvolves (c ∷ cs) w =
    DbEvolves-preorder.transitive ((perform-Keeps c).apply w) (run-DbEvolves cs (perform c w).1)
