-- ===== src/Service/Agents.antt =====
-- internal/agent/service.go: agents and their tokens. `sha256` hashes a token; identifiers, tokens
-- and times are arguments.
pub mod Revoked
pub mod Register
use mathlib.Core.Bool.{Bool, true, false, not, ◌||◌}
use mathlib.Core.Option.{Option, none, some}
use mathlib.Core.List.{List, [], ◌∷◌}
use Prim.Native.Nat.{ℕ, ◌+◌, ◌*◌}
use agent_key_vault_jit_acce.Prelude.Tests.{is_empty, ◌==◌, leb, is_some, is_none}
use agent_key_vault_jit_acce.Domain.Values.{Uuid, Time, Bytes}
use agent_key_vault_jit_acce.Domain.Accounts.{AgentRow, AgentToken}
use agent_key_vault_jit_acce.Operation.Text.Runes.{trim_space}
use agent_key_vault_jit_acce.Store.Action.{
  Action, invalid_input, unauthorized, internal, ◌>>=◌, ◌>>◌, pure, when_raise, or_raise, mask,
}
use agent_key_vault_jit_acce.Store.Accounts.Agents.{
  View, create_agent_with_token, replace_agent_token, find_agent_by_token_hash, revoke_agent_token,
  set_agent_active, list_owned_agents,
}

-- `other` is any string that is no constant.
pub data TokenLifetime : Type 0 where
  hours_24 days_30 permanent other : TokenLifetime

abbrev pub hour : ℕ
hour = 3600000000000

-- `expiration`: no expiry, and none at all for a lifetime that is not known.
unfoldable pub expiration : TokenLifetime → Time → Option (Option Time)
expiration TokenLifetime.hours_24 now = some (some (now + 24 * hour))
expiration TokenLifetime.days_30 now = some (some (now + 30 * 24 * hour))
expiration TokenLifetime.permanent now = some none
expiration TokenLifetime.other now = none

-- `agent.Principal`
pub record Principal : Type 0 where
  pub agent_id : Uuid
  pub owner_user_id : Uuid

-- `agent.Credential`
pub record AgentCredential : Type 0 where
  pub agent_id : Uuid
  pub token : Bytes
  pub expires_at : Option Time
  pub permanent_warning : Bool

-- What the two calls of `newID` and `newToken` return.
pub record TokenSecrets : Type 0 where
  pub agent_or_token_id : Option Uuid
  pub token_id : Option Uuid
  pub token : Option Bytes

-- `token.ExpiresAt != nil && !token.ExpiresAt.After(now)`
abbrev pub has_expired : Option Time → Time → Bool
has_expired none now = false
has_expired (some t) now = leb t now

abbrev pub credential_of : Uuid → Bytes → Option Time → AgentCredential
credential_of agent_id token expires_at = record {
  agent_id = agent_id;
  token = token;
  expires_at = expires_at;
  permanent_warning = is_none expires_at;
}

unfoldable pub revoke_token : Uuid → Uuid → Time → Action ℕ
revoke_token owner_user_id agent_id now = do
  when_raise (owner_user_id == 0 || agent_id == 0) invalid_input
  revoke_agent_token owner_user_id agent_id now

unfoldable pub set_active : Uuid → Uuid → Bool → Action (Unit {0})
set_active owner_user_id agent_id active = do
  when_raise (owner_user_id == 0 || agent_id == 0) invalid_input
  set_agent_active owner_user_id agent_id active

unfoldable pub list : Uuid → Action (List View)
list owner_user_id = do
  when_raise (owner_user_id == 0) invalid_input
  mask (λ e. internal) (list_owned_agents owner_user_id)

module _ (sha256 : Bytes → Bytes) where
  -- The first identifier, the token's row with no agent yet, and the token itself.
  unfoldable pub new_token_record :
      TokenSecrets → Time → Option Time → Action (Uuid × AgentToken × Bytes)
  new_token_record secrets now expires_at = do
    agent_or_token_id ← or_raise secrets.agent_or_token_id internal
    token_id ← or_raise secrets.token_id internal
    token ← or_raise secrets.token internal
    pure (
      agent_or_token_id,
      record {
        id = token_id;
        agent_id = 0;
        token_hash = sha256 token;
        created_at = now;
        expires_at = expires_at;
        revoked_at = none;
      },
      token,
    )

  unfoldable pub register :
      Uuid → Bytes → TokenLifetime → Time → TokenSecrets → Action AgentCredential
  register owner_user_id name lifetime now secrets = do
    let trimmed : Bytes = trim_space name
    when_raise (owner_user_id == 0 || is_empty trimmed) invalid_input
    expires_at ← or_raise (expiration lifetime now) invalid_input
    (agent_id, token, raw_token) ← new_token_record secrets now expires_at
    create_agent_with_token
        (record {
          id = agent_id;
          owner_user_id = owner_user_id;
          name = trimmed;
          active = true;
          created_at = now;
        })
        (record token { agent_id = agent_id })
    pure (credential_of agent_id raw_token expires_at)

  unfoldable pub rotate_token :
      Uuid → Uuid → TokenLifetime → Time → TokenSecrets → Action AgentCredential
  rotate_token owner_user_id agent_id lifetime now secrets = do
    when_raise (owner_user_id == 0 || agent_id == 0) invalid_input
    expires_at ← or_raise (expiration lifetime now) invalid_input
    (unused_id, token, raw_token) ← new_token_record secrets now expires_at
    replace_agent_token owner_user_id agent_id (record token { agent_id = agent_id }) now
    pure (credential_of agent_id raw_token expires_at)

  -- The agent is disabled, or its token is revoked or expired.
  unfoldable pub refuses : AgentRow → AgentToken → Time → Bool
  refuses agent token now =
      not agent.active || is_some token.revoked_at || has_expired token.expires_at now

  unfoldable pub authenticate : Bytes → Time → Action Principal
  authenticate raw_token now = do
    when_raise (is_empty raw_token) unauthorized
    row ← mask (λ e. unauthorized) (find_agent_by_token_hash (sha256 raw_token))
    when_raise (refuses row.0 row.1 now) unauthorized
    pure (record { agent_id = row.0.id; owner_user_id = row.0.owner_user_id })
