-- ===== src/Store/Accounts/Statements.antt =====
-- The SQL statements on users, sessions, agents and tokens, with the constraints of
-- internal/store/migrations.
use mathlib.Core.Bool.{Bool, not, ◌&&◌, ◌||◌}
use mathlib.Core.Option.{Option, none, some}
use Prim.Native.Nat.{ℕ}
use agent_key_vault_jit_acce.Prelude.Tests.{if◌then◌else◌, ◌==◌, is_none}
use agent_key_vault_jit_acce.Prelude.Rows.{any_row, count_rows, update_rows, insert_row, bytes_eq}
use agent_key_vault_jit_acce.Store.Tables.{Db, Account, WebSession, AgentRow, AgentToken, Accounts}
use agent_key_vault_jit_acce.Store.Action.{Action, statement}

abbrev pub with_accounts : {A : Type 0} → Db → Option (A × Accounts) → Option (A × Db)
with_accounts d none = none
with_accounts d (some (a, s)) = some (a, record d { accounts = s })

-- A statement that writes the accounts; `none` is a violated constraint.
unfoldable pub account_statement : {A : Type 0} → (Accounts → Option (A × Accounts)) → Action A
account_statement f = statement λ d. with_accounts d (f d.accounts)

-- What an insertion into `users` comes back with: the number of rows, or a unique violation
-- (`23505`), whose constraint is `users_username_key` or another one.
pub data Insertion : Type 0 where
  inserted : ℕ → Insertion
  username_taken key_taken : Insertion

-- The unique keys in the order in which they are looked at: the primary key, the username, and
-- the one administrator.
unfoldable pub insert_user : (Accounts → Bool) → Account → Action Insertion
insert_user test u = account_statement λ s. some (
    if not (test s)
    then (inserted 0, s)
    else if any_row (λ x. x.id == u.id) s.users
    then (key_taken, s)
    else if any_row (λ x. bytes_eq x.username u.username) s.users
    then (username_taken, s)
    else if u.is_admin && any_row (λ x. x.is_admin) s.users
    then (key_taken, s)
    else (inserted 1, record s { users = insert_row u s.users }))

unfoldable pub update_users : (Account → Bool) → (Account → Account) → Action ℕ
update_users test change =
    account_statement
      λ s. some (count_rows test s.users, record s { users = update_rows test change s.users })

unfoldable pub insert_session : WebSession → Action (Unit {0})
insert_session r = account_statement λ s.
    if any_row (λ x. x.id == r.id || bytes_eq x.token_hash r.token_hash) s.web_sessions
      || not (any_row (λ u. u.id == r.user_id) s.users)
    then none
    else some (tt, record s { web_sessions = insert_row r s.web_sessions })

unfoldable pub update_sessions : (WebSession → Bool) → (WebSession → WebSession) → Action ℕ
update_sessions test change = account_statement λ s. some (
  count_rows test s.web_sessions,
  record s { web_sessions = update_rows test change s.web_sessions },
)

unfoldable pub insert_agent : AgentRow → Action (Unit {0})
insert_agent a = account_statement λ s.
    if any_row (λ x. x.id == a.id || x.owner_user_id == a.owner_user_id && bytes_eq x.name a.name)
        s.agents
      || not (any_row (λ u. u.id == a.owner_user_id) s.users)
    then none
    else some (tt, record s { agents = insert_row a s.agents })

unfoldable pub update_agents : (AgentRow → Bool) → (AgentRow → AgentRow) → Action ℕ
update_agents test change =
    account_statement
      λ s. some (count_rows test s.agents, record s { agents = update_rows test change s.agents })

-- A token hash is unique, and an agent has one unrevoked token.
unfoldable pub insert_token : AgentToken → Action (Unit {0})
insert_token t = account_statement λ s.
    if any_row
        (λ x.
          x.id == t.id
          || bytes_eq x.token_hash t.token_hash
          || x.agent_id == t.agent_id && is_none x.revoked_at && is_none t.revoked_at)
        s.agent_tokens
      || not (any_row (λ a. a.id == t.agent_id) s.agents)
    then none
    else some (tt, record s { agent_tokens = insert_row t s.agent_tokens })

unfoldable pub update_tokens : (AgentToken → Bool) → (AgentToken → AgentToken) → Action ℕ
update_tokens test change = account_statement λ s. some (
  count_rows test s.agent_tokens,
  record s { agent_tokens = update_rows test change s.agent_tokens },
)
