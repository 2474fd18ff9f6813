-- ===== src/Examples/Logins.antt =====
-- Runs of the identity and agent services: users, sessions, agents and tokens.
use mathlib.Core.Path.{◌≡◌, refl}
use mathlib.Core.Logic.{inl}
use mathlib.Core.Bool.{true, false}
use mathlib.Core.Option.{none, some}
use mathlib.Core.List.{List, [], ◌∷◌}
use Prim.Native.Nat.{◌*◌}
use agent_key_vault_jit_acce.Prelude.Rows.{
  any_row, find_row, select_rows, count_rows, update_rows, bytes_eq,
}
use agent_key_vault_jit_acce.Prelude.Int.{pos}
use agent_key_vault_jit_acce.Domain.Accounts.{Accounts, User}
use agent_key_vault_jit_acce.Store.Tables.{Bytes, text}
use agent_key_vault_jit_acce.Store.Action.{
  World, ok, next_fails, rest_faults, spend, pure, go_on, ◌>>=◌, when_raise, or_raise, with_error,
  mask, land, statement, query, settle, transaction, unless_error, caught_if,
}
use agent_key_vault_jit_acce.Store.Accounts.Statements.{
  account_statement, insert_user, insert_session, update_sessions, insert_agent, insert_token,
  update_tokens,
}
use agent_key_vault_jit_acce.Store.Accounts.{
  initial_result, create_initial_admin, find_active_account_by_username, create_session,
  revoke_session,
}
use agent_key_vault_jit_acce.Store.Accounts.Agents.{
  create_agent_with_token, lock_owned_agent, revoke_tokens, replace_agent_token, revoke_agent_token,
}
use agent_key_vault_jit_acce.Operation.Text.Runes.{
  decode_rune, runes_behind, runes, leading_space, trim_space,
}
use agent_key_vault_jit_acce.Operation.Text.{is_space}
use agent_key_vault_jit_acce.Store.History.{Call, sets_agent, run}
use agent_key_vault_jit_acce.Service.Identity.{
  Session, SessionSecrets, public_user, prepare_session, bootstrap_admin, login, logout,
  authenticate_session,
}
use agent_key_vault_jit_acce.Service.Identity.Bootstrap.{bootstrap_admin-once}
use agent_key_vault_jit_acce.Service.Identity.Logout.{logout-authenticate}
use agent_key_vault_jit_acce.Service.Identity.Login.{login-authenticate}
use agent_key_vault_jit_acce.Service.Agents.{
  Principal, AgentCredential, TokenLifetime, TokenSecrets, expiration, new_token_record, register,
  rotate_token, revoke_token, authenticate,
}
use agent_key_vault_jit_acce.Service.Agents.Register.{register-authenticate}
use agent_key_vault_jit_acce.Service.Agents.Revoked.{
  rotate_token-authenticate, revoke_token-authenticate,
}
use agent_key_vault_jit_acce.Examples.{accounts, approved_db, approved_world, minute, hash}

-- A hash that keeps the token, and one of 32 bytes.
abbrev plain : Bytes → Bytes
plain b = b

abbrev constant : Bytes → Bytes
constant b = hash

abbrev secrets : SessionSecrets
secrets = record { id = some 101; token = some (text "token"); csrf_token = some (text "csrf") }

abbrev owner : User
owner = record {
  id = 21;
  username = text "owner";
  is_admin = true;
  approve_all = false;
  owner_active = true;
}

abbrev session : Session
session = record {
  token = text "token";
  csrf_token = text "csrf";
  expires_at = 2 * minute;
  user = owner;
}

logged_in :
    (login plain bytes_eq []
      (text " owner")
      (text "secret")
      (pos minute)
      secrets
      minute
      approved_world).0
    ≡ ok session
unfolding login find_active_account_by_username unless_error caught_if prepare_session public_user
    create_session insert_session account_statement trim_space runes runes_behind decode_rune
    leading_space is_space bytes_eq find_row any_row query statement land spend next_fails
    rest_faults ◌>>=◌ go_on when_raise or_raise mask with_error pure
logged_in = refl

login-authenticate_example :
    (authenticate_session plain (text "token") minute (record {
      db =
          (login plain bytes_eq []
            (text " owner")
            (text "secret")
            (pos minute)
            secrets
            minute
            approved_world).1.db;
      faults = [];
    })).0
    ≡ ok owner
login-authenticate_example =
    login-authenticate plain bytes_eq [] (text " owner") (text "secret") (pos minute) secrets minute
      minute approved_world session (tt, tt) logged_in refl refl

-- The owner is logged in, and the agent has a token.
abbrev busy_accounts : Accounts
busy_accounts = record accounts {
  web_sessions =
      record {
        id = 101;
        user_id = 21;
        token_hash = text "token";
        created_at = 0;
        expires_at = 9 * minute;
        revoked_at = none;
      }
      ∷ [];
  agent_tokens =
      record {
        id = 111;
        agent_id = 11;
        token_hash = text "old";
        created_at = 0;
        expires_at = none;
        revoked_at = none;
      }
      ∷ [];
}

abbrev busy_world : World
busy_world = record { db = record approved_db { accounts = busy_accounts }; faults = [] }

abbrev busy_calls : List Call
busy_calls = sets_agent 21 11 false ∷ sets_agent 21 11 true ∷ []

logged_out : (logout plain (text "token") minute busy_world).0 ≡ ok tt
unfolding logout revoke_session update_sessions account_statement bytes_eq select_rows count_rows
    update_rows statement land spend next_fails rest_faults ◌>>=◌ go_on when_raise mask with_error
logged_out = refl

logout-authenticate_example : ¬ (
    (authenticate_session plain
      (text "token")
      (2 * minute)
      (record (run busy_calls (logout plain (text "token") minute busy_world).1) { faults = [] })).0
    ≡ ok owner)
logout-authenticate_example =
    logout-authenticate plain (text "token") minute (2 * minute) busy_world busy_calls [] owner
      logged_out

abbrev token_secrets : TokenSecrets
token_secrets = record {
  agent_or_token_id = some 12;
  token_id = some 112;
  token = some (text "new");
}

abbrev new_credential : AgentCredential
new_credential = record {
  agent_id = 11;
  token = text "new";
  expires_at = none;
  permanent_warning = true;
}

abbrev principal : Principal
principal = record { agent_id = 11; owner_user_id = 21 }

rotated :
    (rotate_token plain 21 11 TokenLifetime.permanent minute token_secrets busy_world).0
    ≡ ok new_credential
unfolding rotate_token expiration new_token_record replace_agent_token lock_owned_agent
    revoke_tokens update_tokens insert_token account_statement bytes_eq find_row any_row select_rows
    count_rows update_rows query statement land spend next_fails rest_faults ◌>>=◌ go_on when_raise
    or_raise transaction settle pure
rotated = refl

rotate_token-authenticate_example : ¬ (
    (authenticate plain
      (text "old")
      (2 * minute)
      (record (run busy_calls
        (rotate_token plain 21 11 TokenLifetime.permanent minute token_secrets busy_world).1) {
          faults = [];
        })).0
    ≡ ok principal)
unfolding bytes_eq
rotate_token-authenticate_example =
    rotate_token-authenticate plain 21 11 TokenLifetime.permanent minute (2 * minute) token_secrets
      busy_world new_credential (text "old") busy_calls [] principal (inl refl, ((λ e. refl), tt))
      rotated

revoked : (revoke_token 21 11 minute busy_world).0 ≡ ok 1
unfolding revoke_token revoke_agent_token lock_owned_agent revoke_tokens update_tokens
    account_statement find_row select_rows count_rows update_rows query statement land spend
    next_fails rest_faults ◌>>=◌ go_on when_raise or_raise transaction settle
revoked = refl

revoke_token-authenticate_example : ¬ (
    (authenticate plain
      (text "old")
      (2 * minute)
      (record (run busy_calls (revoke_token 21 11 minute busy_world).1) { faults = [] })).0
    ≡ ok principal)
unfolding bytes_eq
revoke_token-authenticate_example =
    revoke_token-authenticate plain 21 11 minute (2 * minute) busy_world 1 (text "old") busy_calls
      [] principal (inl refl, ((λ e. refl), tt)) revoked

abbrev registered : AgentCredential
registered = record {
  agent_id = 12;
  token = text "new";
  expires_at = none;
  permanent_warning = true;
}

registers :
    (register constant 21
      (text "helper ")
      TokenLifetime.permanent
      minute
      token_secrets
      approved_world).0
    ≡ ok registered
unfolding register expiration new_token_record create_agent_with_token insert_agent insert_token
    account_statement trim_space runes runes_behind decode_rune leading_space is_space bytes_eq
    any_row statement land spend next_fails rest_faults ◌>>=◌ go_on when_raise or_raise transaction
    settle pure
registers = refl

register-authenticate_example :
    (authenticate constant (text "new") (2 * minute) (record {
      db =
          (register constant 21
            (text "helper ")
            TokenLifetime.permanent
            minute
            token_secrets
            approved_world).1.db;
      faults = [];
    })).0
    ≡ ok (record { agent_id = 12; owner_user_id = 21 })
register-authenticate_example =
    register-authenticate constant 21 (text "helper ") TokenLifetime.permanent minute (2 * minute)
      token_secrets approved_world registered (λ b. refl) registers refl refl

-- Before the first user.
abbrev empty_world : World
empty_world = record {
  db = record approved_db {
    accounts = record { users = []; web_sessions = []; agents = []; agent_tokens = [] };
  };
  faults = [];
}

bootstrapped :
    (bootstrap_admin
      (text "owner")
      (text "secret")
      (some 21)
      (some (text "secret"))
      minute
      empty_world).0
    ≡ ok owner
unfolding bootstrap_admin create_initial_admin initial_result insert_user account_statement
    public_user trim_space runes runes_behind decode_rune leading_space is_space any_row statement
    land spend next_fails rest_faults ◌>>=◌ go_on when_raise or_raise mask with_error pure
bootstrapped = refl

bootstrap_admin-once_example : ¬ (
    (bootstrap_admin
      (text "other")
      (text "secret")
      (some 22)
      (some (text "secret"))
      (2 * minute)
      (record (run busy_calls
        (bootstrap_admin
          (text "owner")
          (text "secret")
          (some 21)
          (some (text "secret"))
          minute
          empty_world).1) { faults = [] })).0
    ≡ ok owner)
bootstrap_admin-once_example =
    bootstrap_admin-once (text "owner") (text "secret") (some 21) (some (text "secret")) minute
      empty_world owner busy_calls [] (text "other") (text "secret") (some 22)
      (some (text "secret")) (2 * minute) owner bootstrapped
