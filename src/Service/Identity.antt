-- ===== src/Service/Identity.antt =====
-- internal/identity/service.go: users and their sessions. The hash of a token (`sha256`) and the
-- comparison with a password hash (`bcrypt`) are parameters; identifiers, tokens, password hashes
-- and times that the service generates are arguments, `none` where their source fails.
pub mod Bootstrap
pub mod Logout
pub mod Login
use mathlib.Core.Bool.{Bool, true, false, not, ◌&&◌, ◌||◌}
use mathlib.Core.Option.{Option, none, some}
use mathlib.Core.List.{List, [], ◌∷◌}
use Prim.Native.Nat.{◌+◌}
use agent_key_vault_jit_acce.Prelude.Tests.{is_empty, ◌==◌, ltb, is_none}
use agent_key_vault_jit_acce.Prelude.Rows.{length}
use agent_key_vault_jit_acce.Prelude.Int.{ℤ, pos, pos_part, leb_ℤ}
use agent_key_vault_jit_acce.Domain.Values.{Uuid, Time, Bytes}
pub use agent_key_vault_jit_acce.Domain.Accounts.{User}
use agent_key_vault_jit_acce.Domain.Accounts.{Account, WebSession}
use agent_key_vault_jit_acce.Operation.Text.Runes.{valid_string, rune_count, trim_space}
use agent_key_vault_jit_acce.Store.Action.{
  Action, Error, invalid_input, invalid_credentials, already_initialized, registration_unavailable,
  username_unavailable, not_found, internal, ◌>>=◌, ◌>>◌, pure, when_raise, or_raise, mask,
  unless_error,
}
use agent_key_vault_jit_acce.Store.Accounts.{
  create_initial_admin, create_account_and_session, find_active_account_by_username, create_session,
  find_active_session_by_token_hash, revoke_session, update_non_admin_user,
}
use agent_key_vault_jit_acce.Store.Accounts

unfoldable pub can_approve : User → Uuid → Bool
can_approve user agent_owner_user_id =
    user.owner_active && (user.is_admin || user.approve_all || user.id == agent_owner_user_id)

unfoldable pub can_manage_users_and_targets : User → Bool
can_manage_users_and_targets user = user.owner_active && user.is_admin

-- `identity.Session`
pub record Session : Type 0 where
  pub token : Bytes
  pub csrf_token : Bytes
  pub expires_at : Time
  pub user : User

-- What `newID` and the two calls of `newToken` return for a session.
pub record SessionSecrets : Type 0 where
  pub id : Option Uuid
  pub token : Option Bytes
  pub csrf_token : Option Bytes

unfoldable pub public_user : Account → User
public_user account = record {
  id = account.id;
  username = account.username;
  is_admin = account.is_admin;
  approve_all = account.approve_all;
  owner_active = account.active;
}

-- The errors that registration tells its caller.
abbrev pub registration_error : Error → Error
registration_error registration_unavailable = registration_unavailable
registration_error username_unavailable = username_unavailable
registration_error _ = internal

abbrev pub bootstrap_error : Error → Error
bootstrap_error already_initialized = already_initialized
bootstrap_error _ = internal

abbrev pub is_not_found : Error → Bool
is_not_found not_found = true
is_not_found _ = false

-- A username or a password that cannot be registered; `username` is trimmed.
unfoldable pub refuses_registration : Bytes → Bytes → ℤ → Bool
refuses_registration username password lifetime =
    is_empty username
    || not (valid_string username)
    || ltb 64 (rune_count username)
    || not (valid_string password)
    || ltb (rune_count password) 8
    || ltb 72 (length password)
    || leb_ℤ lifetime (pos 0)

unfoldable pub bootstrap_admin : Bytes → Bytes → Option Uuid → Option Bytes → Time → Action User
bootstrap_admin username password new_id password_hash now = do
  let name : Bytes = trim_space username
  when_raise (is_empty name || is_empty password) invalid_input
  id ← or_raise new_id internal
  hash ← or_raise password_hash internal
  let account : Account = record {
    id = id;
    username = name;
    password_hash = hash;
    is_admin = true;
    approve_all = false;
    active = true;
    created_at = now;
  }
  mask bootstrap_error (create_initial_admin account)
  pure (public_user account)

unfoldable pub list_users : (List User → List User) → User → Action (List User)
list_users order actor = do
  when_raise (not (can_manage_users_and_targets actor)) invalid_input
  mask (λ e. internal) (Accounts.list_users order)

unfoldable pub update_user : User → Uuid → Bool → Bool → Action (Unit {0})
update_user actor user_id active approve_all = do
  when_raise (not (can_manage_users_and_targets actor) || user_id == 0) invalid_input
  mask (λ e. invalid_input) (update_non_admin_user user_id active approve_all)

module _ (sha256 : Bytes → Bytes) where
  unfoldable pub prepare_session :
      Account → ℤ → SessionSecrets → Time → Action (WebSession × Session)
  prepare_session account lifetime secrets now = do
    id ← or_raise secrets.id internal
    token ← or_raise secrets.token internal
    csrf_token ← or_raise secrets.csrf_token internal
    pure (
      record {
        id = id;
        user_id = account.id;
        token_hash = sha256 token;
        created_at = now;
        expires_at = now + pos_part lifetime;
        revoked_at = none;
      },
      record {
        token = token;
        csrf_token = csrf_token;
        expires_at = now + pos_part lifetime;
        user = public_user account;
      },
    )

  unfoldable pub register :
      Bytes → Bytes → ℤ → Option Uuid → Option Bytes → Time → SessionSecrets → Time → Action Session
  register username password lifetime new_id password_hash created_at secrets now = do
    let name : Bytes = trim_space username
    when_raise (refuses_registration name password lifetime) invalid_input
    id ← or_raise new_id internal
    hash ← or_raise password_hash internal
    let account : Account = record {
      id = id;
      username = name;
      password_hash = hash;
      is_admin = false;
      approve_all = false;
      active = true;
      created_at = created_at;
    }
    prepared ← prepare_session account lifetime secrets now
    mask registration_error (create_account_and_session account prepared.0)
    pure prepared.1

  unfoldable pub authenticate_session : Bytes → Time → Action User
  authenticate_session token now = do
    when_raise (is_empty token) invalid_credentials
    user ← mask (λ e. invalid_credentials) (find_active_session_by_token_hash (sha256 token) now)
    when_raise (not user.owner_active) invalid_credentials
    pure user

  unfoldable pub logout : Bytes → Time → Action (Unit {0})
  logout token now = do
    when_raise (is_empty token) invalid_credentials
    mask (λ e. invalid_credentials) (revoke_session (sha256 token) now)

  -- `compare_hash hash password` is `bcrypt.CompareHashAndPassword(hash, password) == nil`.
  module _ (compare_hash : Bytes → Bytes → Bool) (dummy_hash : Bytes) where
    abbrev pub stored_hash : Option Account → Bytes
    stored_hash none = dummy_hash
    stored_hash (some account) = account.password_hash

    unfoldable pub login : Bytes → Bytes → ℤ → SessionSecrets → Time → Action Session
    login username password lifetime secrets now = do
      let name : Bytes = trim_space username
      when_raise (is_empty name || is_empty password || leb_ℤ lifetime (pos 0)) invalid_input
      found ←
          mask (λ e. internal) (unless_error is_not_found (find_active_account_by_username name))
      when_raise (not (compare_hash (stored_hash found) password) || is_none found)
          invalid_credentials
      account ← or_raise found invalid_credentials
      prepared ← prepare_session account lifetime secrets now
      mask (λ e. internal) (create_session prepared.0)
      pure prepared.1
