-- ===== src/Store/Evolution/Logins.antt =====
-- The methods of the identity and agent repositories keep the lifecycles, and revocations.
use mathlib.Core.Path.{◌≡◌, refl, subst}
use mathlib.Core.Bool.{Bool, true, false, ◌&&◌, ◌||◌}
use mathlib.Core.Option.{Option, none, some}
use mathlib.Core.List.{List}
use native.Mathlib.Omega.{arith}
use agent_key_vault_jit_acce.Prelude.Tests.{if◌then◌else◌, ◌==◌, is_none, or-eq-false}
use agent_key_vault_jit_acce.Prelude.Evolves.{
  All, All-map, Evolves, Evolves-insert_row, Evolves-update_rows, any_row-none,
}
use agent_key_vault_jit_acce.Prelude.Rows.{any_row, insert_row, bytes_eq}
use agent_key_vault_jit_acce.Store.Tables.{
  Db, Time, Account, WebSession, AgentRow, AgentToken, Accounts,
}
use agent_key_vault_jit_acce.Store.Action.Keeps.{Keeps, Keeps-statement}
use agent_key_vault_jit_acce.Store.Evolution.{DbEvolves, DbEvolves-preorder}
use agent_key_vault_jit_acce.Store.Evolution.Revoked.{IsRevoked-insert, IsRevoked-update}
use agent_key_vault_jit_acce.Store.Evolution.Owned.{
  AccountEvolves, SessionEvolves, AgentEvolves, TokenEvolves, AccountsEvolves,
  AccountEvolves-preorder, SessionEvolves-preorder, AgentEvolves-preorder, TokenEvolves-preorder,
  AccountsEvolves-preorder,
}
use agent_key_vault_jit_acce.Store.Evolution.Changes.{only_accounts}
use agent_key_vault_jit_acce.Store.Accounts.Statements.{
  inserted, key_taken, username_taken, with_accounts, account_statement, insert_user, update_users,
  insert_session, update_sessions, insert_agent, update_agents, insert_token, update_tokens,
}

-- What a statement may answer: nothing, or accounts that have evolved.
abbrev pub Allowed : {A : Type 0} → Accounts → Option (A × Accounts) → Type 0
Allowed s none = Unit
Allowed s (some (a, t)) = AccountsEvolves s t

accounts_result :
    {A : Type 0} (d : Db) (p : Option (A × Accounts)) (a : A) (e : Db)
    → Allowed d.accounts p
    → with_accounts d p ≡ some (a, e)
    → DbEvolves d e
accounts_result d none a e k h = absurd (cc)
accounts_result d (some (x, s)) a e k h =
    let same : record d { accounts = s } ≡ e = cc in subst (DbEvolves d) same (only_accounts d s k)

by_accounts :
    {A : Type 0} (f : Accounts → Option (A × Accounts))
    → ((s : Accounts) → Allowed s (f s))
    → Keeps DbEvolves (account_statement f)
unfolding account_statement
by_accounts f h =
    Keeps-statement DbEvolves-preorder _
      λ d a e p. accounts_result d (f d.accounts) a e (h d.accounts) p

Allowed-unless :
    {A : Type 0} (s : Accounts) (b : Bool) (a : A) (t : Accounts)
    → (b ≡ false → AccountsEvolves s t)
    → Allowed {A = A} s (if b then none else some (a, t))
Allowed-unless s true a t k = tt
Allowed-unless s false a t k = k refl

module _ (s : Accounts) where
  unchanged : AccountsEvolves s s
  unchanged = AccountsEvolves-preorder.reflexive s

  only_users :
      (rows : List Account)
      → Evolves AccountEvolves s.users rows
      → AccountsEvolves s (record s { users = rows })
  only_users rows h = record {
    users = h;
    web_sessions = unchanged.web_sessions;
    agents = unchanged.agents;
    agent_tokens = unchanged.agent_tokens;
    sessions_revoked = unchanged.sessions_revoked;
    tokens_revoked = unchanged.tokens_revoked;
  }

  only_agents :
      (rows : List AgentRow)
      → Evolves AgentEvolves s.agents rows
      → AccountsEvolves s (record s { agents = rows })
  only_agents rows h = record {
    users = unchanged.users;
    web_sessions = unchanged.web_sessions;
    agents = h;
    agent_tokens = unchanged.agent_tokens;
    sessions_revoked = unchanged.sessions_revoked;
    tokens_revoked = unchanged.tokens_revoked;
  }

  insertion-Allowed :
      (u : Account) (a b c e : Bool)
      → Allowed s (
          some (
            if a
            then (inserted 0, s)
            else if b
            then (key_taken, s)
            else if c
            then (username_taken, s)
            else if e
            then (key_taken, s)
            else (inserted 1, record s { users = insert_row u s.users })))
  insertion-Allowed u true b c e = unchanged
  insertion-Allowed u false true c e = unchanged
  insertion-Allowed u false false true e = unchanged
  insertion-Allowed u false false false true = unchanged
  insertion-Allowed u false false false false =
      only_users _ (Evolves-insert_row AccountEvolves AccountEvolves-preorder u s.users)

pub insert_user-Keeps : (f : Accounts → Bool) (u : Account) → Keeps DbEvolves (insert_user f u)
unfolding insert_user
insert_user-Keeps f u = by_accounts _ λ s. insertion-Allowed s u _ _ _ _

pub update_users-Keeps :
    (test : Account → Bool) (change : Account → Account)
    → ((u : Account) → AccountEvolves u (change u))
    → Keeps DbEvolves (update_users test change)
unfolding update_users
update_users-Keeps test change h = by_accounts _ λ s.
    only_users s _
      (Evolves-update_rows AccountEvolves AccountEvolves-preorder test change s.users λ u e. h u)

pub insert_agent-Keeps : (a : AgentRow) → Keeps DbEvolves (insert_agent a)
unfolding insert_agent
insert_agent-Keeps a = by_accounts _ λ s.
    Allowed-unless s _ _ _
      λ k. only_agents s _ (Evolves-insert_row AgentEvolves AgentEvolves-preorder a s.agents)

pub update_agents-Keeps :
    (test : AgentRow → Bool) (change : AgentRow → AgentRow)
    → ((a : AgentRow) → AgentEvolves a (change a))
    → Keeps DbEvolves (update_agents test change)
unfolding update_agents
update_agents-Keeps test change h = by_accounts _ λ s.
    only_agents s _
      (Evolves-update_rows AgentEvolves AgentEvolves-preorder test change s.agents λ a e. h a)

-- A new session has a hash that no session has.
pub fresh_session :
    (r : WebSession) (rows : List WebSession)
    → any_row (λ x. x.id == r.id || bytes_eq x.token_hash r.token_hash) rows ≡ false
    → All (λ x. bytes_eq x.token_hash r.token_hash ≡ false) rows
fresh_session r rows h =
    All-map (λ x. (x.id == r.id || bytes_eq x.token_hash r.token_hash) ≡ false) _
      (λ x k. (or-eq-false _ _ k).1) rows (any_row-none _ rows h)

pub insert_session-Keeps : (r : WebSession) → Keeps DbEvolves (insert_session r)
unfolding insert_session
insert_session-Keeps r = by_accounts _ λ s. Allowed-unless s _ _ _ λ k. record {
  users = (unchanged s).users;
  web_sessions = Evolves-insert_row SessionEvolves SessionEvolves-preorder r s.web_sessions;
  agents = (unchanged s).agents;
  agent_tokens = (unchanged s).agent_tokens;
  sessions_revoked = λ h v.
      IsRevoked-insert _ _ h r s.web_sessions (fresh_session r s.web_sessions (or-eq-false _ _ k).0)
        v;
  tokens_revoked = (unchanged s).tokens_revoked;
}

-- A revocation: of unrevoked rows only.
pub revoke_session-evolves :
    (at : Time) (x : WebSession)
    → is_none x.revoked_at ≡ true
    → SessionEvolves x (record x { revoked_at = some at })
revoke_session-evolves at x h = record { snapshot = refl; frozen = λ k. absurd (cc) }

pub update_sessions-Keeps :
    (test : WebSession → Bool) (at : Time)
    → ((x : WebSession) → test x ≡ true → is_none x.revoked_at ≡ true)
    → Keeps DbEvolves (update_sessions test (λ x. record x { revoked_at = some at }))
unfolding update_sessions
update_sessions-Keeps test at h = by_accounts _ λ s. record {
  users = (unchanged s).users;
  web_sessions =
      Evolves-update_rows SessionEvolves SessionEvolves-preorder test _ s.web_sessions
        λ x e. revoke_session-evolves at x (h x e);
  agents = (unchanged s).agents;
  agent_tokens = (unchanged s).agent_tokens;
  sessions_revoked =
      λ h v. IsRevoked-update _ _ h test _ s.web_sessions (λ x. refl) (λ x k. refl) v;
  tokens_revoked = (unchanged s).tokens_revoked;
}

pub fresh_token :
    (t : AgentToken) (rows : List AgentToken)
    → any_row
        (λ x.
          x.id == t.id
          || bytes_eq x.token_hash t.token_hash
          || x.agent_id == t.agent_id && is_none x.revoked_at && is_none t.revoked_at)
        rows
      ≡ false
    → All (λ x. bytes_eq x.token_hash t.token_hash ≡ false) rows
fresh_token t rows h =
    All-map _ _
      (λ (x : AgentToken)
          (k : (x.id == t.id
              || bytes_eq x.token_hash t.token_hash
              || x.agent_id == t.agent_id && is_none x.revoked_at && is_none t.revoked_at)
            ≡ false).
        ground arith)
      rows (any_row-none _ rows h)

pub insert_token-Keeps : (t : AgentToken) → Keeps DbEvolves (insert_token t)
unfolding insert_token
insert_token-Keeps t = by_accounts _ λ s. Allowed-unless s _ _ _ λ k. record {
  users = (unchanged s).users;
  web_sessions = (unchanged s).web_sessions;
  agents = (unchanged s).agents;
  agent_tokens = Evolves-insert_row TokenEvolves TokenEvolves-preorder t s.agent_tokens;
  sessions_revoked = (unchanged s).sessions_revoked;
  tokens_revoked = λ h v.
      IsRevoked-insert _ _ h t s.agent_tokens (fresh_token t s.agent_tokens (or-eq-false _ _ k).0)
        v;
}

pub update_tokens-Keeps :
    (test : AgentToken → Bool) (at : Time)
    → ((x : AgentToken) → test x ≡ true → is_none x.revoked_at ≡ true)
    → Keeps DbEvolves (update_tokens test (λ x. record x { revoked_at = some at }))
unfolding update_tokens
update_tokens-Keeps test at h = by_accounts _ λ s. record {
  users = (unchanged s).users;
  web_sessions = (unchanged s).web_sessions;
  agents = (unchanged s).agents;
  agent_tokens =
      Evolves-update_rows TokenEvolves TokenEvolves-preorder test _ s.agent_tokens
        λ x e. record { snapshot = refl; frozen = λ k. absurd (cc (h x e)) };
  sessions_revoked = (unchanged s).sessions_revoked;
  tokens_revoked = λ h v. IsRevoked-update _ _ h test _ s.agent_tokens (λ x. refl) (λ x k. refl) v;
}
