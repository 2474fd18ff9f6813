-- ===== src/Store/History.antt =====
-- What the processes do to the database: any sequence of the repositories' methods, each one an
-- atomic transaction or statement, with any arguments, any times and any failures.
pub mod Evolves
pub mod Claims
pub mod Withdraws
use mathlib.Core.Bool.{Bool, true, false}
use mathlib.Core.Option.{Option, none, some}
use mathlib.Core.List.{List, [], ◌∷◌}
use Prim.Native.Nat.{ℕ}
use agent_key_vault_jit_acce.Domain.Task.{TaskStatus}
use agent_key_vault_jit_acce.Domain.Execution.{ExecutionStatus}
use agent_key_vault_jit_acce.Store.Tables.{
  Uuid, Time, Bytes, Task, Request, Grant, Target, Credential, OperationSet, SafeOperation,
  OperationVersion, TargetOperationBinding, Account, WebSession, AgentRow, AgentToken,
}
use agent_key_vault_jit_acce.Store.Action.{World, Result, Action, pure, ◌>>=◌}
use agent_key_vault_jit_acce.Store.Tasks.{
  create_task, heartbeat_active_task, end_active_task, find_active_task, mark_agent_lost_before,
}
use agent_key_vault_jit_acce.Store.Authorization.{
  ClaimContext, DecisionCommand, find_decision_context, decide_pending, expire_pending,
}
use agent_key_vault_jit_acce.Store.Claims.{claim_approved, create_request}
use agent_key_vault_jit_acce.Store.Execution.{
  start, record_lease, finish, start_reclaim, finish_reclaim,
}
use agent_key_vault_jit_acce.Store.Recovery.{
  list_cancellation_requested, mark_stuck_and_list_recovery,
}
use agent_key_vault_jit_acce.Store.Lifecycle.{RevokeActor, revoke_request, sweep_expired_and_lost}
use agent_key_vault_jit_acce.Store.Catalog.{
  update_target, set_target_active, set_credential_active, create_target_with_default_credential,
}
use agent_key_vault_jit_acce.Store.Catalog.Operations.{
  create_operation_set, create_operation_with_version, publish_operation_version,
  set_operation_set_active, set_operation_active, upsert_target_operation_binding,
}
use agent_key_vault_jit_acce.Store.Accounts.{
  create_initial_admin, create_account_and_session, create_session, revoke_session,
  update_non_admin_user,
}
use agent_key_vault_jit_acce.Store.Accounts.Agents.{
  create_agent_with_token, replace_agent_token, revoke_agent_token, set_agent_active,
}

-- One method call, with its arguments.
pub data Call : Type 0 where
  creates_task : Task → Call
  beats : Uuid → Uuid → Time → Call
  ends_task : Uuid → Uuid → TaskStatus → Time → Call
  finds_task : Uuid → Uuid → Call
  loses_tasks : Time → Time → Call
  creates_request : Request → Call
  finds_context : Uuid → Call
  decides : DecisionCommand → Call
  expires : Uuid → Time → Call
  claims : ClaimContext → Time → Call
  starts : Option Uuid → Uuid → Time → Call
  records_lease : Uuid → Bytes → Call
  finishes : Uuid → ExecutionStatus → Time → Bytes → Call
  starts_reclaim : Option Uuid → Uuid → Time → Call
  finishes_reclaim : Option Uuid → Uuid → Bool → Time → Bytes → Call
  lists_cancelled : Call
  recovers : Time → ℕ → Call
  revokes : Uuid → RevokeActor → Time → Call
  sweeps : Time → Time → Call
  updates_target : Target → Time → Call
  sets_target : Uuid → Bool → Time → Call
  sets_credential : Uuid → Bool → Time → Call
  creates_target : Target → Credential → Call
  creates_set : OperationSet → Call
  creates_operation : SafeOperation → OperationVersion → Call
  publishes : OperationVersion → ℕ → Uuid → Time → Call
  sets_set : Uuid → Bool → Uuid → Time → Call
  sets_operation : Uuid → Bool → Uuid → Time → Call
  binds : TargetOperationBinding → Call
  creates_admin : Account → Call
  registers_user : Account → WebSession → Call
  creates_session : WebSession → Call
  revokes_session : Bytes → Time → Call
  updates_user : Uuid → Bool → Bool → Call
  registers_agent : AgentRow → AgentToken → Call
  replaces_token : Uuid → Uuid → AgentToken → Time → Call
  revokes_token : Uuid → Uuid → Time → Call
  sets_agent : Uuid → Uuid → Bool → Call

abbrev pub unseen : {A : Type 0} → Action A → Action (Option Grant)
unseen m = m >>= λ a. pure none

-- The call's effect; its result is kept for a claim, as the claimed grant.
unfoldable pub perform : Call → Action (Option Grant)
perform (creates_task t) = unseen (create_task t)
perform (beats t a at) = unseen (heartbeat_active_task t a at)
perform (ends_task t a s at) = unseen (end_active_task t a s at)
perform (finds_task t a) = unseen (find_active_task t a)
perform (loses_tasks cutoff at) = unseen (mark_agent_lost_before cutoff at)
perform (creates_request r) = unseen (create_request r)
perform (finds_context r) = unseen (find_decision_context r)
perform (decides c) = unseen (decide_pending c)
perform (expires r now) = unseen (expire_pending r now)
perform (claims c now) = claim_approved c now >>= λ g. pure (some g)
perform (starts new_id g at) = unseen (start new_id g at)
perform (records_lease e lease) = unseen (record_lease e lease)
perform (finishes e s at code) = unseen (finish e s at code)
perform (starts_reclaim new_id e at) = unseen (start_reclaim new_id e at)
perform (finishes_reclaim new_id r success at code) =
    unseen (finish_reclaim new_id r success at code)
perform lists_cancelled = unseen list_cancellation_requested
perform (recovers now limit) = unseen (mark_stuck_and_list_recovery now limit)
perform (revokes r actor at) = unseen (revoke_request r actor at)
perform (sweeps now cutoff) = unseen (sweep_expired_and_lost now cutoff)
perform (updates_target t at) = unseen (update_target t at)
perform (sets_target i b at) = unseen (set_target_active i b at)
perform (sets_credential i b at) = unseen (set_credential_active i b at)
perform (creates_target t k) = unseen (create_target_with_default_credential t k)
perform (creates_set s) = unseen (create_operation_set s)
perform (creates_operation o v) = unseen (create_operation_with_version o v)
perform (publishes v n u at) = unseen (publish_operation_version v n u at)
perform (sets_set i b u at) = unseen (set_operation_set_active i b u at)
perform (sets_operation i b u at) = unseen (set_operation_active i b u at)
perform (binds k) = unseen (upsert_target_operation_binding k)
perform (creates_admin u) = unseen (create_initial_admin u)
perform (registers_user u s) = unseen (create_account_and_session u s)
perform (creates_session s) = unseen (create_session s)
perform (revokes_session h at) = unseen (revoke_session h at)
perform (updates_user i b all) = unseen (update_non_admin_user i b all)
perform (registers_agent a t) = unseen (create_agent_with_token a t)
perform (replaces_token o a t at) = unseen (replace_agent_token o a t at)
perform (revokes_token o a at) = unseen (revoke_agent_token o a at)
perform (sets_agent o a b) = unseen (set_agent_active o a b)

-- A history, from a world.
unfoldable pub run : List Call → World → World
run [] w = w
run (c ∷ cs) w = run cs (perform c w).1
