-- ===== src/Store/Accounts.antt =====
-- internal/store/identity_postgres.go: users and their sessions.
pub mod Statements
pub mod Agents
use mathlib.Core.Bool.{Bool, true, false, not, ◌&&◌}
use mathlib.Core.Option.{Option, none, some, bind}
use mathlib.Core.Option
use mathlib.Core.List.{List, map}
use Prim.Native.Nat.{ℕ}
use agent_key_vault_jit_acce.Prelude.Tests.{◌==◌, ltb, is_none}
use agent_key_vault_jit_acce.Prelude.Rows.{any_row, find_row, bytes_eq}
use agent_key_vault_jit_acce.Store.Tables.{Uuid, Time, Bytes, Account, WebSession, Accounts}
use agent_key_vault_jit_acce.Domain.Accounts.{User}
use agent_key_vault_jit_acce.Store.Action.{
  Action, already_initialized, username_unavailable, registration_unavailable, not_found, internal,
  ◌>>=◌, ◌>>◌, pure, raise, when_raise, or_raise, query, transaction,
}
use agent_key_vault_jit_acce.Store.Accounts.Statements.{
  Insertion, inserted, username_taken, key_taken, insert_user, update_users, insert_session,
  update_sessions,
}

abbrev pub session_row : WebSession → WebSession
session_row r = record r { revoked_at = none }

-- Any unique violation says that there is an administrator.
unfoldable pub initial_result : Insertion → Action (Unit {0})
initial_result (inserted n) = pure tt
initial_result _ = raise already_initialized

unfoldable pub create_initial_admin : Account → Action (Unit {0})
create_initial_admin a =
    insert_user (λ s. true) (record a { is_admin = true; approve_all = false; active = true })
    >>= initial_result

abbrev pub active_admin : Account → Bool
active_admin u = u.is_admin && u.active

unfoldable pub registration_result : Insertion → Action (Unit {0})
registration_result (inserted n) = when_raise (not (n == 1)) registration_unavailable
registration_result username_taken = raise username_unavailable
registration_result key_taken = raise internal

unfoldable pub create_account_and_session : Account → WebSession → Action (Unit {0})
create_account_and_session account session = transaction do
  result ←
      insert_user (λ s. any_row active_admin s.users)
        (record account { is_admin = false; approve_all = false; active = true })
  registration_result result
  insert_session (session_row session)

unfoldable pub find_active_account_by_username : Bytes → Action Account
find_active_account_by_username username = do
  found ← query (λ d. find_row (λ u. bytes_eq u.username username && u.active) d.accounts.users)
  or_raise found not_found

unfoldable pub create_session : WebSession → Action (Unit {0})
create_session r = insert_session (session_row r)

abbrev pub active_user : Account → User
active_user u = record {
  id = u.id;
  username = u.username;
  is_admin = u.is_admin;
  approve_all = u.approve_all;
  owner_active = true;
}

-- `web_sessions s JOIN users u ON u.id=s.user_id WHERE …`: a token hash has one session.
unfoldable pub session_user : Bytes → Time → Accounts → Option User
session_user hash now s =
    bind
      (find_row (λ r. bytes_eq r.token_hash hash && is_none r.revoked_at && ltb now r.expires_at)
        s.web_sessions)
      (λ r. Option.map active_user (find_row (λ u. u.id == r.user_id && u.active) s.users))

unfoldable pub find_active_session_by_token_hash : Bytes → Time → Action User
find_active_session_by_token_hash hash now = do
  found ← query (λ d. session_user hash now d.accounts)
  or_raise found not_found

unfoldable pub revoke_session : Bytes → Time → Action (Unit {0})
revoke_session hash now = do
  rows ←
      update_sessions (λ r. bytes_eq r.token_hash hash && is_none r.revoked_at)
        (λ r. record r { revoked_at = some now })
  when_raise (not (rows == 1)) not_found

abbrev pub listed_user : Account → User
listed_user u = record {
  id = u.id;
  username = u.username;
  is_admin = u.is_admin;
  approve_all = u.approve_all;
  owner_active = u.active;
}

-- `ORDER BY username,id`: the database's order.
unfoldable pub list_users : (List User → List User) → Action (List User)
list_users order = query (λ d. order (map listed_user d.accounts.users))

unfoldable pub update_non_admin_user : Uuid → Bool → Bool → Action (Unit {0})
update_non_admin_user user_id active approve_all = do
  rows ←
      update_users (λ u. u.id == user_id && not u.is_admin)
        (λ u. record u { active = active; approve_all = approve_all })
  when_raise (not (rows == 1)) not_found
