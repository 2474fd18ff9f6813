-- ===== src/Proxy/Prepare.antt =====
-- What the proxies share: internal/proxy/reclaim.go, and the way from a request to its execution in
-- http.go, postgres.go and sign.go. The clock and the generators of identifiers are arguments.
use mathlib.Core.Bool.{Bool, true, false, not, ◌||◌}
use mathlib.Core.Option.{Option}
use mathlib.Core.List.{[]}
use agent_key_vault_jit_acce.Prelude.Tests.{◌==◌}
use agent_key_vault_jit_acce.Domain.Execution.{ExecutionStatus}
use agent_key_vault_jit_acce.Domain.Values.{Uuid, Time, Bytes, text}
use agent_key_vault_jit_acce.Store.Authorization.{ClaimContext}
use agent_key_vault_jit_acce.Store.Execution.{start, finish, start_reclaim, finish_reclaim}
use agent_key_vault_jit_acce.Service.Approvals.{claim}
use agent_key_vault_jit_acce.Proxy.Plan.{Plan, Operation, load_plan}
use agent_key_vault_jit_acce.Proxy.Machine.{
  Proxy, execution_denied, public_error, ContextState, live, deadline_exceeded, cancelled, pure,
  fail, when_fail, store, ◌>>=◌, ◌>>◌,
}

-- What `now` and the generators return in one execution.
pub record Draws : Type 0 where
  pub claimed_at : Time
  pub started_at : Time
  pub finished_at : Time
  pub reclaiming_at : Time
  pub released_at : Time
  pub execution_id : Option Uuid
  pub reclaim_id : Option Uuid
  pub incident_id : Option Uuid

-- An execution that has begun.
pub record Begun : Type 0 where
  pub plan : Plan
  pub operation : Operation
  pub execution_id : Uuid

abbrev pub claim_context : Plan → Uuid → Uuid → ClaimContext
claim_context plan agent_id task_id = record {
  grant_id = plan.grant_id;
  agent_id = agent_id;
  task_id = task_id;
  target_id = plan.target.id;
  credential_id = plan.credential.id;
  operation_hash = plan.operation_hash;
}

-- The plan is the agent's, for the task, and of the proxy's kind.
unfoldable pub refuses_plan : (Plan → Operation → Bool) → Uuid → Uuid → Plan → Operation → Bool
refuses_plan accepts agent_id task_id plan operation =
    not (plan.agent_id == agent_id)
    || not (plan.task_id == task_id)
    || not plan.target.active
    || not plan.credential.active
    || not (accepts plan operation)

-- A plan that is not refused is claimed, and its execution started.
unfoldable pub begin_with :
    (Plan → Operation → Bool) → Uuid → Uuid → Draws → Plan × Operation → Proxy Begun
begin_with accepts agent_id task_id draws loaded = do
  when_fail (refuses_plan accepts agent_id task_id loaded.0 loaded.1) execution_denied
  grant ← store execution_denied (claim (claim_context loaded.0 agent_id task_id) draws.claimed_at)
  execution_id ←
      store (public_error (text "EXECUTION_STATE_FAILED"))
        (start draws.execution_id grant.id draws.started_at)
  pure (record { plan = loaded.0; operation = loaded.1; execution_id = execution_id })

unfoldable pub prepare :
    (Bytes → Option Operation)
    → (Plan → Operation → Bool)
    → Uuid
    → Uuid
    → Uuid
    → Draws
    → Proxy Begun
prepare decode accepts request_id agent_id task_id draws =
    store execution_denied (load_plan decode request_id)
    >>= begin_with accepts agent_id task_id draws

-- `RESOURCE_CLEANUP_FAILED`, or no error code.
abbrev pub cleanup_code : Bool → Bytes
cleanup_code true = []
cleanup_code false = text "RESOURCE_CLEANUP_FAILED"

-- `cleanup` says whether it went well; `pure true` where there is nothing to clean up.
unfoldable pub finalize_execution :
    Draws → Uuid → ExecutionStatus → Bytes → Proxy Bool → Proxy (Unit {0})
finalize_execution draws execution_id outcome code cleanup = do
  store (public_error (text "EXECUTION_STATE_FAILED"))
      (finish execution_id outcome draws.finished_at code)
  reclaim ←
      store (public_error (text "RECLAIM_FAILED"))
        (start_reclaim draws.reclaim_id execution_id draws.reclaiming_at)
  cleaned ← cleanup
  store (public_error (text "RECLAIM_FAILED"))
      (finish_reclaim draws.incident_id reclaim cleaned draws.released_at (cleanup_code cleaned))
  when_fail (not cleaned) (public_error (text "RECLAIM_FAILED"))

-- The execution has failed: it is finalized, and the agent is told a code.
unfoldable pub give_up :
    {A : Type 0} → Draws → Uuid → ExecutionStatus → Bytes → Bytes → Proxy Bool → Proxy A
give_up draws execution_id outcome code told cleanup = do
  finalize_execution draws execution_id outcome code cleanup
  fail (public_error told)

-- The agent is told the code of the execution.
abbrev pub give_up_as : {A : Type 0} → Draws → Uuid → ExecutionStatus × Bytes → Proxy Bool → Proxy A
give_up_as draws execution_id (outcome, code) cleanup =
    give_up draws execution_id outcome code code cleanup

-- The status and the code of a target that did not answer.
unfoldable pub target_failure : ContextState → Bytes → ExecutionStatus × Bytes
target_failure live code = (ExecutionStatus.failed, code)
target_failure deadline_exceeded code = (ExecutionStatus.timed_out, text "TARGET_TIMEOUT")
target_failure cancelled code = (ExecutionStatus.cancelled, text "TARGET_CANCELLED")
