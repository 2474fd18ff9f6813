-- ===== src/Domain/Accounts.antt =====
-- internal/identity/service.go and internal/agent/service.go: users, their sessions, their agents
-- and the agents' tokens.
use mathlib.Core.Bool.{Bool}
use mathlib.Core.Option.{Option}
use mathlib.Core.List.{List}
use agent_key_vault_jit_acce.Domain.Values.{Uuid, Time, Bytes}

-- `identity.AccountRecord`, a row of `users`.
pub record Account : Type 0 where
  pub id : Uuid
  pub username : Bytes
  pub password_hash : Bytes
  pub is_admin : Bool
  pub approve_all : Bool
  pub active : Bool
  pub created_at : Time

-- `identity.User`: what the rest of the program knows of an account.
pub record User : Type 0 where
  pub id : Uuid
  pub username : Bytes
  pub is_admin : Bool
  pub approve_all : Bool
  pub owner_active : Bool

-- `identity.SessionRecord`, a row of `web_sessions`.
pub record WebSession : Type 0 where
  pub id : Uuid
  pub user_id : Uuid
  pub token_hash : Bytes
  pub created_at : Time
  pub expires_at : Time
  pub revoked_at : Option Time

-- `agent.Record`, a row of `agents`.
pub record AgentRow : Type 0 where
  pub id : Uuid
  pub owner_user_id : Uuid
  pub name : Bytes
  pub active : Bool
  pub created_at : Time

-- `agent.TokenRecord`, a row of `agent_tokens`.
pub record AgentToken : Type 0 where
  pub id : Uuid
  pub agent_id : Uuid
  pub token_hash : Bytes
  pub created_at : Time
  pub expires_at : Option Time
  pub revoked_at : Option Time

-- The part of the database that says who acts.
pub record Accounts : Type 0 where
  pub users : List Account
  pub web_sessions : List WebSession
  pub agents : List AgentRow
  pub agent_tokens : List AgentToken
