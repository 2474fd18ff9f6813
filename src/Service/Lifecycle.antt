-- ===== src/Service/Lifecycle.antt =====
-- internal/lifecycle: revocation, the sweep and recovery, as the services call the store.
pub mod Sweeps
pub mod Recovers
use mathlib.Core.Bool.{Bool, true, false, not, ◌&&◌, ◌||◌}
use mathlib.Core.Option.{Option, none, some}
use mathlib.Core.List.{List, [], ◌∷◌}
use Prim.Native.Nat.{ℕ, suc, ◌-◌, ◌*◌}
use agent_key_vault_jit_acce.Prelude.Tests.{is_empty, ◌==◌, is_some}
use agent_key_vault_jit_acce.Prelude.Rows.{length}
use agent_key_vault_jit_acce.Store.Tables.{Uuid, Time, Bytes, text, ActorType}
use agent_key_vault_jit_acce.Store.Action.{
  Action, revoke_forbidden, revoke_unavailable, internal, ◌>>=◌, ◌>>◌, pure, when_raise, mask,
  attempt,
}
use agent_key_vault_jit_acce.Store.Authorization.{find_decision_context}
use agent_key_vault_jit_acce.Store.Execution.{start_reclaim, finish_reclaim}
use agent_key_vault_jit_acce.Store.Recovery.{second, RecoveryItem, mark_stuck_and_list_recovery}
use agent_key_vault_jit_acce.Store.Lifecycle.{
  RevokeResult, SweepResult, revoke_request, sweep_expired_and_lost,
}
use agent_key_vault_jit_acce.Service.Identity.{User, can_approve}

-- `task.AgentLostAfter`; times are more than this after their epoch.
abbrev pub agent_lost_after : ℕ
agent_lost_after = 45 * second

unfoldable pub revoke : User → Uuid → Time → Action RevokeResult
revoke actor request_id now = do
  context ← mask (λ e. revoke_unavailable) (find_decision_context request_id)
  when_raise (not (can_approve actor context.agent_owner_user_id)) revoke_forbidden
  mask (λ e. revoke_unavailable)
      (revoke_request request_id (record { actor_type = ActorType.user; id = actor.id }) now)

unfoldable pub revoke_agent : Uuid → Uuid → Time → Action RevokeResult
revoke_agent agent_id request_id now = do
  context ← mask (λ e. revoke_forbidden) (find_decision_context request_id)
  when_raise (agent_id == 0 || not (context.request.agent_id == agent_id)) revoke_forbidden
  mask (λ e. revoke_unavailable)
      (revoke_request request_id (record { actor_type = ActorType.agent; id = agent_id }) now)

unfoldable pub sweep : Time → Action SweepResult
sweep now = mask (λ e. internal) (sweep_expired_and_lost now (now - agent_lost_after))

abbrev pub recovery_batch : ℕ
recovery_batch = 100

-- What the environment does while one item is recovered: the identifiers that are generated, the
-- clock, and whether OpenBao revokes the lease.
pub record Turn : Type 0 where
  pub reclaim_id : Option Uuid
  pub incident_id : Option Uuid
  pub started_at : Time
  pub ended_at : Time
  pub revoked : Bool

pub record RecoveryResult : Type 0 where
  pub candidates : ℕ
  pub recovered : ℕ
  pub failed : ℕ

-- `LEASE_REVOKE_FAILED`, or no error code.
abbrev pub lease_code : Bool → Bytes
lease_code true = []
lease_code false = text "LEASE_REVOKE_FAILED"

-- What follows a started reclaim.
unfoldable pub recover_started : Turn → RecoveryItem → Option Uuid → Action Bool
recover_started turn item none = pure false
recover_started turn item (some reclaim_id) = do
  let success : Bool = is_empty item.lease_id || turn.revoked
  finished ←
      attempt
        (finish_reclaim turn.incident_id reclaim_id success turn.ended_at (lease_code success))
  pure (is_some finished && success)

-- One round of the loop: has the item been recovered?
unfoldable pub recover_item : Turn → RecoveryItem → Action Bool
recover_item turn item = do
  reclaim ← attempt (start_reclaim turn.reclaim_id item.execution_id turn.started_at)
  recover_started turn item reclaim

abbrev pub count_item : Bool → RecoveryResult → RecoveryResult
count_item true r = record r { recovered = suc r.recovered }
count_item false r = record r { failed = suc r.failed }

unfoldable pub recover_items :
    (Uuid → Turn) → List RecoveryItem → RecoveryResult → Action RecoveryResult
recover_items turns [] result = pure result
recover_items turns (item ∷ items) result = do
  done ← recover_item (turns item.execution_id) item
  recover_items turns items (count_item done result)

unfoldable pub recover : (Uuid → Turn) → Time → Action RecoveryResult
recover turns now = do
  items ← mark_stuck_and_list_recovery now recovery_batch
  recover_items turns items (record { candidates = length items; recovered = 0; failed = 0 })
