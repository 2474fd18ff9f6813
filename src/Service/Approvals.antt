-- ===== src/Service/Approvals.antt =====
-- internal/authorization/approval.go `ApprovalService.Decide` and claim.go `ExecutionGuard.Claim`.
-- The clock and the generator of identifiers are arguments.
pub mod Claims
pub mod Decides
use mathlib.Core.Bool.{Bool, true, false, not, ◌||◌}
use mathlib.Core.Option.{Option, none, some}
use Prim.Native.Nat.{ℕ, ◌+◌, ◌*◌}
use agent_key_vault_jit_acce.Prelude.Tests.{◌==◌, leb}
use agent_key_vault_jit_acce.Prelude.Int.{ℤ, pos, pos_part, leb_ℤ, ltb_ℤ}
use agent_key_vault_jit_acce.Domain.Grant.{GrantStatus}
use agent_key_vault_jit_acce.Store.Tables.{Uuid, Time, Decision, Request, Approval, Grant}
use agent_key_vault_jit_acce.Store.Action.{
  Action, Error, invalid_request, decision_conflict, approval_forbidden, approval_expired,
  claim_denied, internal, ◌>>=◌, ◌>>◌, pure, raise, when_raise, or_raise, mask, attempt,
}
use agent_key_vault_jit_acce.Store.Authorization.{
  ClaimContext, find_decision_context, decide_pending, expire_pending,
}
use agent_key_vault_jit_acce.Store.Claims.{claim_approved}
use agent_key_vault_jit_acce.Service.Identity.{User, can_approve}

-- Ten minutes, in nanoseconds.
abbrev pub maximum_grant_ttl : ℕ
maximum_grant_ttl = 600 * 1000000000

abbrev pub is_decision : Decision → Bool
is_decision Decision.approve = true
is_decision Decision.reject = true
is_decision Decision.other = false

-- The requested lifetime, or the longest.
abbrev pub ttl_of : Option ℤ → ℤ
ttl_of none = pos maximum_grant_ttl
ttl_of (some ttl) = ttl

abbrev pub ttl_refused : ℤ → Bool
ttl_refused ttl = leb_ℤ ttl (pos 0) || ltb_ℤ (pos maximum_grant_ttl) ttl

abbrev pub grant_of : Request → Uuid → Time → Time → Grant
grant_of r id now expires_at = record {
  id = id;
  request_id = r.id;
  agent_id = r.agent_id;
  task_id = r.task_id;
  target_id = r.target_id;
  credential_id = r.credential_id;
  operation_hash = r.operation_hash;
  approved_at = now;
  expires_at = expires_at;
  status = GrantStatus.approved;
  claimed_at = none;
  completed_at = none;
  revoked_at = none;
}

-- The `if decision == DecisionApproved` block.
unfoldable pub make_grant :
    Decision → Option ℤ → Request → Option Uuid → Time → Action (Option Grant)
make_grant Decision.approve ttl r grant_id now = do
  when_raise (ttl_refused (ttl_of ttl)) invalid_request
  id ← or_raise grant_id internal
  pure (some (grant_of r id now (now + pos_part (ttl_of ttl))))
make_grant _ ttl r grant_id now = pure none

abbrev pub expiry_of : Option Grant → Option Time
expiry_of none = none
expiry_of (some g) = some g.expires_at

-- `errors.Is(err, ErrApprovalExpired)`, else a conflict.
abbrev pub decide_error : Error → Error
decide_error approval_expired = approval_expired
decide_error _ = decision_conflict

-- A request that is past its deadline is marked expired, whether that works or not.
unfoldable pub refuse_expired : Bool → Uuid → Time → Action (Unit {0})
refuse_expired false request_id now = pure tt
refuse_expired true request_id now = do
  attempt (expire_pending request_id now)
  raise approval_expired

unfoldable pub decide :
    User
    → Uuid
    → Decision
    → Option ℤ
    → Time
    → Option Uuid
    → Option Uuid
    → Action (Approval × Option Grant)
decide actor request_id decision ttl now approval_id grant_id = do
  when_raise (request_id == 0 || not (is_decision decision)) invalid_request
  context ← mask (λ e. decision_conflict) (find_decision_context request_id)
  when_raise (not (can_approve actor context.agent_owner_user_id)) approval_forbidden
  refuse_expired (leb context.request.approval_deadline now) request_id now
  id ← or_raise approval_id internal
  grant ← make_grant decision ttl context.request grant_id now
  let approval : Approval = record {
    id = id;
    request_id = request_id;
    approver_user_id = actor.id;
    decision = decision;
    decided_at = now;
    grant_expires_at = expiry_of grant;
  }
  mask decide_error
      (decide_pending (record { context = context; approval = approval; grant = grant; now = now }))
  pure (approval, grant)

unfoldable pub claim : ClaimContext → Time → Action Grant
claim c now = do
  when_raise
      (c.grant_id == 0
        || c.agent_id == 0
        || c.task_id == 0
        || c.target_id == 0
        || c.credential_id == 0)
      claim_denied
  mask (λ e. claim_denied) (claim_approved c now)
