-- ===== src/Store/Evolution/AccountMethods.antt =====
-- The methods of the identity and agent repositories keep the lifecycles, and revocations.
use mathlib.Core.Path.{refl}
use mathlib.Core.Bool.{Bool}
use agent_key_vault_jit_acce.Prelude.Tests.{and-eq-true}
use agent_key_vault_jit_acce.Store.Tables.{
  Uuid, Time, Bytes, Account, WebSession, AgentRow, AgentToken,
}
use agent_key_vault_jit_acce.Store.Action.Keeps.{Keeps}
use agent_key_vault_jit_acce.Store.Evolution.{DbEvolves}
use agent_key_vault_jit_acce.Store.Evolution.Rules.{
  keeping, by_pure, by_raise, by_bind, by_when_raise, by_transaction,
}
use agent_key_vault_jit_acce.Store.Evolution.Logins.{
  insert_user-Keeps, update_users-Keeps, insert_agent-Keeps, update_agents-Keeps,
  insert_session-Keeps, update_sessions-Keeps, insert_token-Keeps, update_tokens-Keeps,
}
use agent_key_vault_jit_acce.Store.Accounts.Statements.{
  Insertion, inserted, username_taken, key_taken,
}
use agent_key_vault_jit_acce.Store.Accounts.{
  initial_result, create_initial_admin, registration_result, create_account_and_session,
  find_active_account_by_username, create_session, find_active_session_by_token_hash,
  revoke_session, update_non_admin_user,
}
use agent_key_vault_jit_acce.Store.Accounts.Agents.{
  create_agent_with_token, lock_owned_agent, revoke_tokens, replace_agent_token,
  find_agent_by_token_hash, revoke_agent_token, set_agent_active,
}

initial_result-Keeps : (i : Insertion) → Keeps DbEvolves (initial_result i)
unfolding initial_result
initial_result-Keeps (inserted n) = by_pure tt
initial_result-Keeps username_taken = by_raise _
initial_result-Keeps key_taken = by_raise _

registration_result-Keeps : (i : Insertion) → Keeps DbEvolves (registration_result i)
unfolding registration_result
registration_result-Keeps (inserted n) = by_when_raise _ _
registration_result-Keeps username_taken = by_raise _
registration_result-Keeps key_taken = by_raise _

pub create_initial_admin-Keeps : (a : Account) → Keeps DbEvolves (create_initial_admin a)
unfolding create_initial_admin
create_initial_admin-Keeps a = by_bind _ _ (insert_user-Keeps _ _) initial_result-Keeps

pub create_account_and_session-Keeps :
    (a : Account) (r : WebSession) → Keeps DbEvolves (create_account_and_session a r)
unfolding create_account_and_session
create_account_and_session-Keeps a r = by_transaction _ (
    by_bind _ _ (insert_user-Keeps _ _)
      λ i. by_bind _ _ (registration_result-Keeps i) λ u. insert_session-Keeps _)

pub find_active_account_by_username-Keeps :
    (name : Bytes) → Keeps DbEvolves (find_active_account_by_username name)
unfolding find_active_account_by_username
find_active_account_by_username-Keeps name = search keeping

pub create_session-Keeps : (r : WebSession) → Keeps DbEvolves (create_session r)
unfolding create_session
create_session-Keeps r = insert_session-Keeps _

pub find_active_session_by_token_hash-Keeps :
    (hash : Bytes) (now : Time) → Keeps DbEvolves (find_active_session_by_token_hash hash now)
unfolding find_active_session_by_token_hash
find_active_session_by_token_hash-Keeps hash now = search keeping

pub revoke_session-Keeps : (hash : Bytes) (now : Time) → Keeps DbEvolves (revoke_session hash now)
unfolding revoke_session
revoke_session-Keeps hash now =
    by_bind _ _ (update_sessions-Keeps _ now λ x h. (and-eq-true _ _ h).1) λ n. by_when_raise _ _

pub update_non_admin_user-Keeps :
    (i : Uuid) (active all : Bool) → Keeps DbEvolves (update_non_admin_user i active all)
unfolding update_non_admin_user
update_non_admin_user-Keeps i active all =
    by_bind _ _ (update_users-Keeps _ _ λ u. record { snapshot = refl }) λ n. by_when_raise _ _

pub create_agent_with_token-Keeps :
    (a : AgentRow) (t : AgentToken) → Keeps DbEvolves (create_agent_with_token a t)
unfolding create_agent_with_token
create_agent_with_token-Keeps a t =
    by_transaction _ (by_bind _ _ (insert_agent-Keeps _) λ u. insert_token-Keeps _)

lock_owned_agent-Keeps : (o a : Uuid) → Keeps DbEvolves (lock_owned_agent o a)
unfolding lock_owned_agent
lock_owned_agent-Keeps o a = search keeping

revoke_tokens-Keeps : (a : Uuid) (at : Time) → Keeps DbEvolves (revoke_tokens a at)
unfolding revoke_tokens
revoke_tokens-Keeps a at = update_tokens-Keeps _ at λ x h. (and-eq-true _ _ h).1

pub replace_agent_token-Keeps :
    (o a : Uuid) (t : AgentToken) (at : Time) → Keeps DbEvolves (replace_agent_token o a t at)
unfolding replace_agent_token
replace_agent_token-Keeps o a t at = by_transaction _ (
    by_bind _ _ (lock_owned_agent-Keeps o a)
      λ x. by_bind _ _ (revoke_tokens-Keeps a at) λ n. insert_token-Keeps _)

pub find_agent_by_token_hash-Keeps :
    (hash : Bytes) → Keeps DbEvolves (find_agent_by_token_hash hash)
unfolding find_agent_by_token_hash
find_agent_by_token_hash-Keeps hash = search keeping depth 9

pub revoke_agent_token-Keeps :
    (o a : Uuid) (at : Time) → Keeps DbEvolves (revoke_agent_token o a at)
unfolding revoke_agent_token
revoke_agent_token-Keeps o a at =
    by_transaction _ (by_bind _ _ (lock_owned_agent-Keeps o a) λ x. revoke_tokens-Keeps x.id at)

pub set_agent_active-Keeps :
    (o a : Uuid) (active : Bool) → Keeps DbEvolves (set_agent_active o a active)
unfolding set_agent_active
set_agent_active-Keeps o a active =
    by_bind _ _ (update_agents-Keeps _ _ λ x. record { snapshot = refl }) λ n. by_when_raise _ _
