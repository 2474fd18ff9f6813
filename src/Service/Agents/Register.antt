-- ===== src/Service/Agents/Register.antt =====
-- A registered agent authenticates with its token.
use mathlib.Core.Path.{◌≡◌, refl, subst}
use mathlib.Core.Bool.{Bool, true, false, ◌&&◌, ◌||◌}
use mathlib.Core.Option.{Option, none, some, bind}
use mathlib.Core.List.{[]}
use agent_key_vault_jit_acce.Prelude.Tests.{is_empty, if◌then◌else◌, ◌==◌, or-eq-false, ==_refl}
use agent_key_vault_jit_acce.Prelude.Rows.{length, find_row, bytes_eq}
use agent_key_vault_jit_acce.Prelude.Same.{bytes_eq_refl}
use agent_key_vault_jit_acce.Prelude.Evolves.{All-map, any_row-none}
use agent_key_vault_jit_acce.Prelude.Finds.{find_row-inserted}
use agent_key_vault_jit_acce.Store.Tables.{Db, Uuid, Time, Bytes, AgentRow, AgentToken, Accounts}
use agent_key_vault_jit_acce.Store.Action.{
  World, Action, ok, ◌>>=◌, go_on, when_raise, mask, with_error, or_raise, query, statement, land,
  spend, next_fails, rest_faults, pure,
}
use agent_key_vault_jit_acce.Store.Action.Ensures.{
  Ensures, bind-Ensures, guard-Ensures, or_raise-Preserves, statement-Ensures, pure-Ensures,
  transaction-Ensures,
}
use agent_key_vault_jit_acce.Store.Evolution.Logins.{fresh_token}
use agent_key_vault_jit_acce.Store.Accounts.Statements.{
  with_accounts, account_statement, insert_agent, insert_token,
}
use agent_key_vault_jit_acce.Store.Accounts.Agents.{
  token_row, create_agent_with_token, token_agent, find_agent_by_token_hash, hash_size,
}
use agent_key_vault_jit_acce.Operation.Text.Runes.{trim_space}
use agent_key_vault_jit_acce.Service.Agents.{
  AgentCredential, TokenLifetime, TokenSecrets, has_expired, refuses, new_token_record, register,
  authenticate,
}

insertion_answer :
    (d : Db) (b : Bool) (u : Unit {0}) (s : Accounts) (e : Db)
    → ◌≡◌ {A = Option (Unit {0} × Db)}
        (with_accounts d (if b then none else some (tt, s)))
        (some (u, e))
    → (b ≡ false) × (s ≡ e.accounts)
insertion_answer d true u s e h = absurd (cc)
insertion_answer d false u s e h = (refl, cc)

module _ (a : AgentRow) where
  abbrev Stands : Db → Type 0
  Stands d = find_row (λ x. x.id == a.id) d.accounts.agents ≡ some a

  insert_agent-Stands : Ensures (λ d. Unit {0}) (insert_agent a) (λ u d. Stands d)
  unfolding insert_agent account_statement
  insert_agent-Stands = statement-Ensures _ _ _ λ d u e p h.
      let (fresh, same) = insertion_answer d _ u _ e h in
      subst (λ (s : Accounts). find_row (λ x. x.id == a.id) s.agents ≡ some a) same
        (find_row-inserted (λ x. x.id == a.id) a d.accounts.agents
          (All-map
            (λ x.
              (x.id == a.id || x.owner_user_id == a.owner_user_id && bytes_eq x.name a.name)
              ≡ false)
            _ (λ x k. (or-eq-false _ _ k).0) d.accounts.agents
            (any_row-none _ d.accounts.agents (or-eq-false _ _ fresh).0))
          (==_refl a.id))

  module _ (t : AgentToken) where
    abbrev Joined : Db → Type 0
    Joined d = token_agent t.token_hash d.accounts ≡ some (a, t)

    insert_token-Joined : t.agent_id ≡ a.id → Ensures Stands (insert_token t) (λ u d. Joined d)
    unfolding insert_token account_statement token_agent bind
    insert_token-Joined mine = statement-Ensures _ _ _ λ d u e here h.
        let (fresh, same) = insertion_answer d _ u _ e h in
        let found =
          find_row-inserted (λ x. bytes_eq x.token_hash t.token_hash) t d.accounts.agent_tokens
            (fresh_token t d.accounts.agent_tokens (or-eq-false _ _ fresh).0)
            (bytes_eq_refl t.token_hash) in
        subst (λ (s : Accounts). token_agent t.token_hash s ≡ some (a, t)) same
          (rw (found, mine, here) refl)

create_agent_with_token-Joined :
    (a : AgentRow) (t : AgentToken)
    → Ensures
        (λ d. Unit {0})
        (create_agent_with_token a t)
        (λ u d. Joined (record a { active = true }) (token_row a.id t) d)
unfolding create_agent_with_token
create_agent_with_token-Joined a t = transaction-Ensures _ _ _ (
    bind-Ensures _ (λ u d. Stands (record a { active = true }) d) _ _ _
      (insert_agent-Stands (record a { active = true }))
      λ u. insert_token-Joined (record a { active = true }) (token_row a.id t) refl)

-- The credential is that of an active agent of the owner, whose unrevoked token it holds.
record Issued (sha256 : Bytes → Bytes) (owner : Uuid) (c : AgentCredential) (d : Db) : Type 0 where
  pub agent : AgentRow
  pub token : AgentToken
  pub joined : token_agent (sha256 c.token) d.accounts ≡ some (agent, token)
  pub id : agent.id ≡ c.agent_id
  pub owner_id : agent.owner_user_id ≡ owner
  pub active : agent.active ≡ true
  pub hash : token.token_hash ≡ sha256 c.token
  pub unrevoked : token.revoked_at ≡ none
  pub expires : token.expires_at ≡ c.expires_at

abbrev registered : Uuid → Bytes → Time → Uuid → AgentRow
registered owner name now id = record {
  id = id;
  owner_user_id = owner;
  name = trim_space name;
  active = true;
  created_at = now;
}

-- What is known before is known in the action.
known-Ensures :
    {A : Type 0} (F : Type 0) (m : Action A) (Q : A → Db → Type 0)
    → (F → Ensures (λ d. Unit {0}) m Q)
    → Ensures (λ d. F) m Q
known-Ensures F m Q h = record { holds = λ w a p e. (h p).holds w a tt e }

module _ (sha256 : Bytes → Bytes) where
  -- What a new token looks like.
  record Drawn (expires_at : Option Time) (r : Uuid × AgentToken × Bytes) : Type 0 where
    pub hash : r.1.token_hash ≡ sha256 r.2
    pub expires : r.1.expires_at ≡ expires_at

  new_token_record-Drawn :
      (secrets : TokenSecrets) (now : Time) (expires_at : Option Time)
      → Ensures
          (λ d. Unit {0})
          (new_token_record sha256 secrets now expires_at)
          (λ r d. Drawn expires_at r)
  unfolding new_token_record
  new_token_record-Drawn secrets now expires_at =
      bind-Ensures _ (λ i d. Unit {0}) _ _ _ (or_raise-Preserves _ _ _)
        λ i.
          bind-Ensures _ (λ j d. Unit {0}) _ _ _ (or_raise-Preserves _ _ _)
            λ j.
              bind-Ensures _ (λ t d. Unit {0}) _ _ _ (or_raise-Preserves _ _ _)
                λ t. pure-Ensures _ _ _ λ d p. record { hash = refl; expires = refl }

  register-Issued :
      (owner : Uuid) (name : Bytes) (lifetime : TokenLifetime) (now : Time) (secrets : TokenSecrets)
      → Ensures
          (λ d. Unit {0})
          (register sha256 owner name lifetime now secrets)
          (λ c d. Issued sha256 owner c d)
  unfolding register
  register-Issued owner name lifetime now secrets = guard-Ensures _ _ _ _ _ λ given.
      bind-Ensures _ (λ e d. Unit {0}) _ _ _ (or_raise-Preserves _ _ _)
        λ expires_at.
          bind-Ensures _ (λ r d. Drawn expires_at r) _ _ _
            (new_token_record-Drawn secrets now expires_at)
            λ r. known-Ensures (Drawn expires_at r) _ _ λ drawn.
              bind-Ensures _ (λ u d. Joined (registered owner name now r.0) (token_row r.0 r.1) d) _
                _ _ (create_agent_with_token-Joined _ _)
                λ u. pure-Ensures _ _ _ λ d joined. record {
                  agent = _;
                  token = _;
                  joined =
                      subst
                        (λ h.
                          token_agent h d.accounts
                          ≡ some (registered owner name now r.0, token_row r.0 r.1))
                        drawn.hash joined;
                  id = refl;
                  owner_id = refl;
                  active = refl;
                  hash = drawn.hash;
                  unrevoked = refl;
                  expires = drawn.expires;
                }

  -- A credential that is found authenticates, if the database answers.
  authenticate-Issued :
      (owner : Uuid) (c : AgentCredential) (now : Time) (d : Db)
      → Issued sha256 owner c d
      → (length (sha256 c.token) == hash_size) ≡ true
      → is_empty c.token ≡ false
      → has_expired c.expires_at now ≡ false
      → (authenticate sha256 c.token now (record { db = d; faults = [] })).0
        ≡ ok (record { agent_id = c.agent_id; owner_user_id = owner })
  unfolding authenticate find_agent_by_token_hash refuses ◌>>=◌ go_on when_raise mask with_error
      or_raise query statement land spend next_fails rest_faults pure
  authenticate-Issued owner c now d i size given early =
      rw (given, i.joined, i.hash, size, i.active, i.unrevoked, i.expires, early, i.id, i.owner_id)
        refl

  -- In the very database that a successful registration leaves, and with a driver that fails no
  -- statement, the token that the registration returned authenticates as the agent and the owner
  -- that it was registered for, at any time before the token expires, if SHA-256 hashes have 32 bytes
  -- and the token is not empty.
  pub register-authenticate :
      (owner : Uuid) (name : Bytes) (lifetime : TokenLifetime) (now later : Time)
      (secrets : TokenSecrets) (w : World) (c : AgentCredential)
      → ((b : Bytes) → length (sha256 b) ≡ hash_size)
      → (register sha256 owner name lifetime now secrets w).0 ≡ ok c
      → is_empty c.token ≡ false
      → has_expired c.expires_at later ≡ false
      → (authenticate sha256 c.token later
          (record { db = (register sha256 owner name lifetime now secrets w).1.db; faults = [] })).0
        ≡ ok (record { agent_id = c.agent_id; owner_user_id = owner })
  register-authenticate owner name lifetime now later secrets w c size done given early =
      authenticate-Issued owner c later _
        ((register-Issued owner name lifetime now secrets).holds w c tt done)
        (let same = size (sha256 c.token) in rw (size c.token) refl) given early
