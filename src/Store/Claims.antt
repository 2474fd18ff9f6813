-- ===== src/Store/Claims.antt =====
-- internal/store/authorization_postgres.go `ClaimApproved`, and request_postgres.go.
pub mod Outcomes
pub mod Bound
pub mod Authorized
use mathlib.Core.Bool.{Bool, not, ◌&&◌}
use mathlib.Core.Option.{none, some}
use mathlib.Core.List.{List, [], ◌∷◌, map}
use agent_key_vault_jit_acce.Prelude.Tests.{◌==◌, ltb, holds_value}
use agent_key_vault_jit_acce.Prelude.Rows.{length, any_row, select_rows, bytes_eq}
use agent_key_vault_jit_acce.Domain.Request.{RequestStatus}
use agent_key_vault_jit_acce.Domain.Grant.{GrantStatus, is_approved}
use agent_key_vault_jit_acce.Store.Tables.{
  Db, Time, text, ActorType, Request, Grant, AuditEvent, same_kind,
}
use agent_key_vault_jit_acce.Store.Action.{
  Action, claim_denied, context_denied, ◌>>=◌, ◌>>◌, pure, raise, when_raise,
}
use agent_key_vault_jit_acce.Store.Statements.{update_grants, insert_request, insert_audit}
use agent_key_vault_jit_acce.Store.Authorization.{
  ClaimContext, is_current, has_active_task, hash_size,
}

-- The `WHERE` of the conditional update that claims a grant.
unfoldable pub claimable : ClaimContext → Time → Db → Grant → Bool
claimable c now d g =
    (g.id == c.grant_id
      && g.agent_id == c.agent_id
      && g.task_id == c.task_id
      && g.target_id == c.target_id
      && g.credential_id == c.credential_id
      && bytes_eq g.operation_hash c.operation_hash)
    && is_approved g.status
    && ltb now g.expires_at
    && has_active_task d g.task_id g.agent_id
    && any_row
        (λ r.
          r.id == g.request_id
          && bytes_eq r.operation_hash g.operation_hash
          && is_current d.catalog r)
        d.requests

abbrev pub claim_grant : Time → Grant → Grant
claim_grant now g = record g { status = GrantStatus.executing; claimed_at = some now }

abbrev pub denied_event : ClaimContext → Time → Grant → AuditEvent
denied_event c now g = record {
  event_type = text "operation_grants.claim_denied";
  actor_type = ActorType.agent;
  actor_id = c.agent_id;
  request_id = g.request_id;
  grant_id = g.id;
  execution_id = none;
  created_at = now;
}

-- What follows the update: no row is a denial, which is audited; else the claimed grant.
unfoldable pub claim_result : ClaimContext → Time → List Grant → Action Grant
claim_result c now [] = do
  insert_audit (λ d. map (denied_event c now) (select_rows (λ g. g.id == c.grant_id) d.grants))
  raise claim_denied
claim_result c now (g ∷ gs) = do
  when_raise (not (length g.operation_hash == hash_size)) claim_denied
  pure g

unfoldable pub claim_approved : ClaimContext → Time → Action Grant
unfolding claim_result
claim_approved c now = do
  rows ← update_grants (claimable c now) (claim_grant now) (λ d rows. rows)
  claim_result c now rows

-- The joins of the insert of a request: its context is in force when it is made.
unfoldable pub requestable : Request → Db → Bool
requestable r d =
    has_active_task d r.task_id r.agent_id
    && any_row
        (λ t.
          t.id == r.target_id
          && t.active
          && t.config_version == r.target_config_version
          && any_row
              (λ k.
                k.id == r.credential_id
                && k.target_id == t.id
                && k.active
                && holds_value t.default_credential_id k.id)
              d.catalog.credentials
          && any_row
              (λ b.
                b.target_id == t.id
                && b.operation_id == r.operation_id
                && b.version == r.operation_version
                && b.active
                && any_row
                    (λ o.
                      o.id == b.operation_id
                      && o.active
                      && any_row (λ s. s.id == o.operation_set_id && s.active)
                          d.catalog.operation_sets)
                    d.catalog.operations
                && any_row
                    (λ v.
                      v.operation_id == b.operation_id
                      && v.version == b.version
                      && bytes_eq v.definition_hash r.definition_hash
                      && same_kind v.operation_kind r.operation_kind)
                    d.catalog.operation_versions)
              d.catalog.bindings)
        d.catalog.targets

unfoldable pub create_request : Request → Action (Unit {0})
create_request r = do
  rows ←
      insert_request (requestable r)
        (record r { status = RequestStatus.pending_approval; request_format = 2 })
  when_raise (not (rows == 1)) context_denied
