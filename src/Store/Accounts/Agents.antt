-- ===== src/Store/Accounts/Agents.antt =====
-- internal/store/agent_postgres.go: agents and their tokens.
use mathlib.Core.Bool.{Bool, true, not, ◌&&◌}
use mathlib.Core.Option.{Option, none, some, bind}
use mathlib.Core.Option
use mathlib.Core.List.{List, map}
use Prim.Native.Nat.{ℕ}
use agent_key_vault_jit_acce.Prelude.Tests.{◌==◌, is_none, is_some}
use agent_key_vault_jit_acce.Prelude.Rows.{length, find_row, select_rows, order_rows, bytes_eq}
use agent_key_vault_jit_acce.Store.Tables.{Uuid, Time, Bytes, AgentRow, AgentToken, Accounts}
use agent_key_vault_jit_acce.Store.Action.{
  Action, unauthorized, agent_forbidden, ◌>>=◌, ◌>>◌, pure, when_raise, or_raise, query,
  transaction,
}
use agent_key_vault_jit_acce.Store.Accounts.Statements.{
  insert_agent, update_agents, insert_token, update_tokens,
}

abbrev pub hash_size : ℕ
hash_size = 32

abbrev pub token_row : Uuid → AgentToken → AgentToken
token_row agent_id t = record t { agent_id = agent_id; revoked_at = none }

unfoldable pub create_agent_with_token : AgentRow → AgentToken → Action (Unit {0})
create_agent_with_token agent token =
    transaction
      do insert_agent (record agent { active = true }); insert_token (token_row agent.id token)

-- `SELECT id FROM agents WHERE id=$1 AND owner_user_id=$2 FOR UPDATE`
unfoldable pub lock_owned_agent : Uuid → Uuid → Action AgentRow
lock_owned_agent owner_id agent_id = do
  found ←
      query (λ d. find_row (λ a. a.id == agent_id && a.owner_user_id == owner_id) d.accounts.agents)
  or_raise found agent_forbidden

unfoldable pub revoke_tokens : Uuid → Time → Action ℕ
revoke_tokens agent_id at =
    update_tokens (λ t. t.agent_id == agent_id && is_none t.revoked_at)
      (λ t. record t { revoked_at = some at })

unfoldable pub replace_agent_token : Uuid → Uuid → AgentToken → Time → Action (Unit {0})
replace_agent_token owner_id agent_id token at = transaction do
  owned ← lock_owned_agent owner_id agent_id
  revoked ← revoke_tokens agent_id at
  insert_token (token_row agent_id token)

-- `agent_tokens t JOIN agents a ON a.id=t.agent_id WHERE t.token_hash=$1`
unfoldable pub token_agent : Bytes → Accounts → Option (AgentRow × AgentToken)
token_agent hash s =
    bind (find_row (λ t. bytes_eq t.token_hash hash) s.agent_tokens)
      (λ t. Option.map (λ a. (a, t)) (find_row (λ a. a.id == t.agent_id) s.agents))

unfoldable pub find_agent_by_token_hash : Bytes → Action (AgentRow × AgentToken)
find_agent_by_token_hash hash = do
  found ← query (λ d. token_agent hash d.accounts)
  row ← or_raise found unauthorized
  when_raise (not (length row.1.token_hash == hash_size)) unauthorized
  pure row

unfoldable pub revoke_agent_token : Uuid → Uuid → Time → Action ℕ
revoke_agent_token owner_id agent_id at =
    transaction do owned ← lock_owned_agent owner_id agent_id; revoke_tokens owned.id at

unfoldable pub set_agent_active : Uuid → Uuid → Bool → Action (Unit {0})
set_agent_active owner_id agent_id active = do
  rows ←
      update_agents (λ a. a.id == agent_id && a.owner_user_id == owner_id)
        (λ a. record a { active = active })
  when_raise (not (rows == 1)) agent_forbidden

-- `agent.View`
pub record View : Type 0 where
  pub id : Uuid
  pub name : Bytes
  pub active : Bool
  pub created_at : Time
  pub has_active_token : Bool
  pub token_expires_at : Option Time

-- The agent, joined with its unrevoked token if it has one.
unfoldable pub view_of : Accounts → AgentRow → View
view_of s a =
    let token = find_row (λ t. t.agent_id == a.id && is_none t.revoked_at) s.agent_tokens in
    record {
      id = a.id;
      name = a.name;
      active = a.active;
      created_at = a.created_at;
      has_active_token = is_some token;
      token_expires_at = bind token (λ t. t.expires_at);
    }

-- `ORDER BY a.created_at,a.id`
unfoldable pub list_owned_agents : Uuid → Action (List View)
list_owned_agents owner_id = query (λ d. map (view_of d.accounts) (
    order_rows (λ a. a.created_at)
      (order_rows (λ a. a.id) (select_rows (λ a. a.owner_user_id == owner_id) d.accounts.agents))))
