-- ===== src/Service/Approvals/Claims.antt =====
-- What a successful claim of the execution guard shows.
use mathlib.Core.Path.{◌≡◌}
use agent_key_vault_jit_acce.Prelude.Evolves.{Any, Any-map}
use agent_key_vault_jit_acce.Store.Tables.{Time, Grant}
use agent_key_vault_jit_acce.Store.Action.{World, ok, mask, claim_denied}
use agent_key_vault_jit_acce.Store.Action.Inversion.{bind-ok, when_raise-ok, mask-ok}
use agent_key_vault_jit_acce.Store.Authorization.{ClaimContext}
use agent_key_vault_jit_acce.Store.Claims.{claim_grant, claim_approved}
use agent_key_vault_jit_acce.Store.Claims.Outcomes.{claim_approved-ok}
use agent_key_vault_jit_acce.Store.Claims.Authorized.{Authorizes, claimable-Authorizes}
use agent_key_vault_jit_acce.Service.Approvals.{claim}

-- A claim that succeeds returns a grant of the table as claimed at this time, and that grant
-- authorizes it: it is approved, unexpired, for exactly this agent, task, target, credential and
-- operation, its task is active, and the target of its request holds what the request was made for,
-- with the operation that it is bound to.
pub claim-Authorizes :
    (c : ClaimContext) (now : Time) (w : World) (g : Grant)
    → (claim c now w).0 ≡ ok g
    → Any (λ x. Authorizes c now w.db x × (g ≡ claim_grant now x)) w.db.grants
unfolding claim
claim-Authorizes c now w g h =
    let (u, guard, runs) = bind-ok _ (λ v. mask (λ e. claim_denied) (claim_approved c now)) w g h in
    let (b, same) = when_raise-ok _ claim_denied w u guard in
    let (claimed, after) =
      mask-ok (λ e. claim_denied) (claim_approved c now) w g (rw (runs, same) at h) in
    let (rows, done) = claim_approved-ok c now w g claimed in
    Any-map _ _ (λ x p. (claimable-Authorizes w.db c now x p.0, p.1)) w.db.grants rows
