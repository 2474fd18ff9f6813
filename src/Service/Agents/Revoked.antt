-- ===== src/Service/Agents/Revoked.antt =====
-- A token that is replaced or revoked is refused for good.
use mathlib.Core.Path.{◌≡◌, refl, sym, subst, ◌∙◌}
use mathlib.Core.Logic.{inl, inr}
use mathlib.Core.Bool.{Bool, true, false, ◌&&◌}
use mathlib.Core.Option.{Option, some, bind}
use mathlib.Core.List.{List}
use Prim.Native.Nat.{ℕ}
use native.Mathlib.Omega.{arith}
use agent_key_vault_jit_acce.Prelude.Tests.{◌==◌, is_none, and-eq-true, ==→eq, Option-cases}
use agent_key_vault_jit_acce.Prelude.Rows.{find_row, bytes_eq}
use agent_key_vault_jit_acce.Prelude.Evolves.{
  All, Any, All-updated, Any-update_rows, find_row-passes, find_row-All,
}
use agent_key_vault_jit_acce.Store.Tables.{Db, Uuid, Time, Bytes, AgentRow, AgentToken, Accounts}
use agent_key_vault_jit_acce.Store.Action.{World, Action, ok}
use agent_key_vault_jit_acce.Store.Action.Keeps.{Keeps}
use agent_key_vault_jit_acce.Store.Action.Ensures.{
  Ensures, bind-Ensures, guard-Ensures, mask-Ensures, reads-Ensures, or_raise-Ensures,
  statement-Ensures, after-Ensures, when_raise-Ensures, or_raise-Preserves, when_raise-Preserves,
  transaction-Ensures, pure-Ensures,
}
use agent_key_vault_jit_acce.Store.Evolution.{DbEvolves}
use agent_key_vault_jit_acce.Store.Evolution.Owned.{TokenRevoked}
use agent_key_vault_jit_acce.Store.Evolution.Logins.{insert_token-Keeps}
use agent_key_vault_jit_acce.Store.Accounts.Statements.{
  with_accounts, account_statement, update_tokens,
}
use agent_key_vault_jit_acce.Store.Accounts.Agents.{
  lock_owned_agent, revoke_tokens, replace_agent_token, revoke_agent_token,
}
use agent_key_vault_jit_acce.Store.Accounts.Agents.{token_agent, find_agent_by_token_hash}
use agent_key_vault_jit_acce.Store.History.{Call, run}
use agent_key_vault_jit_acce.Store.History.Evolves.{run-DbEvolves}
use agent_key_vault_jit_acce.Service.Agents.{
  Principal, AgentCredential, TokenLifetime, TokenSecrets, refuses, authenticate, rotate_token,
  revoke_token, new_token_record,
}

-- The hash is that of a token of the agent, and of no other agent's.
abbrev pub IsTokenOf : Uuid → Bytes → List AgentToken → Type 0
IsTokenOf agent_id hash rows =
    Any (λ t. bytes_eq t.token_hash hash ≡ true) rows
    × All (λ t. bytes_eq t.token_hash hash ≡ true → t.agent_id ≡ agent_id) rows

tokens_answer :
    {A : Type 0} (d : Db) (x n : A) (s : Accounts) (e : Db)
    → ◌≡◌ {A = Option (A × Db)} (with_accounts d (some (x, s))) (some (n, e))
    → s ≡ e.accounts
tokens_answer d x n s e h = cc

module _ (agent_id : Uuid) (hash : Bytes) where
  abbrev Before : Db → Type 0
  Before d = IsTokenOf agent_id hash d.accounts.agent_tokens

  abbrev After : Db → Type 0
  After d = TokenRevoked hash d.accounts.agent_tokens

  revoke_tokens-After : (at : Time) → Ensures Before (revoke_tokens agent_id at) (λ n d. After d)
  unfolding revoke_tokens update_tokens account_statement
  revoke_tokens-After at = statement-Ensures _ _ _ λ d n e p h.
      subst (λ (x : Accounts). TokenRevoked hash x.agent_tokens) (tokens_answer d _ _ _ _ h)
        (
          Any-update_rows _ _ _ d.accounts.agent_tokens (λ x k j. j) p.0,
          All-updated _ _ _ _ d.accounts.agent_tokens (λ x k u j. refl)
              (λ x k u j.
                let mine : (x.agent_id == agent_id) ≡ true = (let same = u j in ground arith) in
                ground arith)
              p.1,
        )

  lock_owned_agent-Before :
      (owner : Uuid)
      → Ensures Before (lock_owned_agent owner agent_id) (λ a d. Before d × (a.id ≡ agent_id))
  unfolding lock_owned_agent
  lock_owned_agent-Before owner = reads-Ensures _ _ _ _ λ found.
      after-Ensures _ _ _ _ (or_raise-Ensures _ _ _) λ a d p. (
        p.0.0,
        ==→eq _ _
            (and-eq-true _ _ (
              find_row-passes (λ a. a.id == agent_id && a.owner_user_id == owner) d.accounts.agents
                a (sym p.0.1 ∙ p.1))).0,
      )

  -- What keeps the lifecycles keeps the revocation.
  Keeps-After : {A : Type 0} (m : Action A) → Keeps DbEvolves m → Ensures After m (λ a d. After d)
  Keeps-After m k = record { holds = λ w a p h. (k.apply w).accounts.tokens_revoked hash p }

  replace_agent_token-After :
      (owner : Uuid) (t : AgentToken) (at : Time)
      → Ensures Before (replace_agent_token owner agent_id t at) (λ u d. After d)
  unfolding replace_agent_token
  replace_agent_token-After owner t at = transaction-Ensures _ _ _ (
      bind-Ensures _ (λ a d. Before d) _ _ _
        (after-Ensures _ _ _ _ (lock_owned_agent-Before owner) λ a d p. p.0)
        λ a.
          bind-Ensures _ (λ n d. After d) _ _ _ (revoke_tokens-After at)
            λ n. Keeps-After _ (insert_token-Keeps _))

  revoke_agent_token-After :
      (owner : Uuid) (at : Time)
      → Ensures Before (revoke_agent_token owner agent_id at) (λ n d. After d)
  unfolding revoke_agent_token
  revoke_agent_token-After owner at = transaction-Ensures _ _ _ (
      bind-Ensures _ (λ a d. Before d × (a.id ≡ agent_id)) _ _ _ (lock_owned_agent-Before owner)
        λ a. record {
          holds = λ w n p h.
              let same = p.1 in
              subst (λ i. After (revoke_tokens i at w).1.db) (sym same)
                ((revoke_tokens-After at).holds w n p.0
                  (subst (λ i. (revoke_tokens i at w).0 ≡ ok n) same h));
        })

-- The row of a token, which has that hash.
token_agent-row :
    (P : AgentToken → Type 0) (hash : Bytes) (s : Accounts) (row : AgentRow × AgentToken)
    → All (λ t. bytes_eq t.token_hash hash ≡ true → P t) s.agent_tokens
    → token_agent hash s ≡ some row
    → P row.1
unfolding token_agent bind
token_agent-row P hash s row a h =
    elim (Option-cases (find_row (λ t. bytes_eq t.token_hash hash) s.agent_tokens)) [
      | inl e ↦ absurd (cc (rw e at h))
      | inr (t, e) ↦
          let k = rw e at h in
          elim (Option-cases (find_row (λ a. a.id == t.agent_id) s.agents)) [
            | inl f ↦ absurd (cc (rw f at k))
            | inr (b, f) ↦
                let same : t ≡ row.1 = (let j = rw f at k in cc) in
                subst P same (
                  find_row-All (λ t. bytes_eq t.token_hash hash ≡ true → P t) _ s.agent_tokens t e a
                    (find_row-passes _ s.agent_tokens t e))
          ]
    ]

module _ (sha256 : Bytes → Bytes) where
  -- A token whose rows are all revoked is refused.
  authenticate-After :
      (token : Bytes) (now : Time)
      → Ensures (After 0 (sha256 token)) (authenticate sha256 token now) (λ u d. ⊥)
  unfolding authenticate find_agent_by_token_hash refuses
  authenticate-After token now = guard-Ensures _ _ _ _ _ λ some_token.
      bind-Ensures _ (λ row d. is_none row.1.revoked_at ≡ false) _ _ _
        (mask-Ensures _ _ _ _ (
          reads-Ensures _ _ _ _ λ found.
            bind-Ensures _ (λ row d. is_none row.1.revoked_at ≡ false) _ _ _
              (after-Ensures _ _ _ _ (or_raise-Ensures _ _ _) λ row d p.
                token_agent-row (λ t. is_none t.revoked_at ≡ false) (sha256 token) d.accounts row
                  p.0.0.1 (sym p.0.1 ∙ p.1))
              λ row.
                bind-Ensures _ (λ u d. is_none row.1.revoked_at ≡ false) _ _ _
                  (when_raise-Preserves _ _ _) λ u. pure-Ensures _ _ _ λ d p. p))
        λ row.
          bind-Ensures _ (λ u d. ⊥) _ _ _
            (after-Ensures _ _ _ _ (when_raise-Ensures _ _ _) λ u d p. absurd (ground arith))
            λ u. pure-Ensures _ _ _ λ d p. p

  new_token_record-Before :
      (agent_id : Uuid) (hash : Bytes) (secrets : TokenSecrets) (at : Time)
      (expires_at : Option Time)
      → Ensures
          (Before agent_id hash)
          (new_token_record sha256 secrets at expires_at)
          (λ r d. Before agent_id hash d)
  unfolding new_token_record
  new_token_record-Before agent_id hash secrets at expires_at =
      bind-Ensures _ (λ i d. Before agent_id hash d) _ _ _ (or_raise-Preserves _ _ _)
        λ i.
          bind-Ensures _ (λ j d. Before agent_id hash d) _ _ _ (or_raise-Preserves _ _ _)
            λ j.
              bind-Ensures _ (λ t d. Before agent_id hash d) _ _ _ (or_raise-Preserves _ _ _)
                λ t. pure-Ensures _ _ _ λ d p. p

  rotate_token-After :
      (hash : Bytes) (owner agent_id : Uuid) (lifetime : TokenLifetime) (at : Time)
      (secrets : TokenSecrets)
      → Ensures
          (Before agent_id hash)
          (rotate_token sha256 owner agent_id lifetime at secrets)
          (λ c d. After agent_id hash d)
  unfolding rotate_token
  rotate_token-After hash owner agent_id lifetime at secrets = guard-Ensures _ _ _ _ _ λ known.
      bind-Ensures _ (λ e d. Before agent_id hash d) _ _ _ (or_raise-Preserves _ _ _)
        λ expires_at.
          bind-Ensures _ (λ r d. Before agent_id hash d) _ _ _
            (new_token_record-Before agent_id hash secrets at expires_at)
            λ r.
              bind-Ensures _ (λ u d. After agent_id hash d) _ _ _
                (replace_agent_token-After agent_id hash owner _ at)
                λ u. pure-Ensures _ _ _ λ d p. p

  revoke_token-After :
      (hash : Bytes) (owner agent_id : Uuid) (at : Time)
      → Ensures
          (Before agent_id hash)
          (revoke_token owner agent_id at)
          (λ n d. After agent_id hash d)
  unfolding revoke_token
  revoke_token-After hash owner agent_id at =
      guard-Ensures _ _ _ _ _ λ known. revoke_agent_token-After agent_id hash owner at

  -- Once a token of an agent is replaced by a rotation that succeeds, it never authenticates again,
  -- whatever the processes do to the database in between, whatever fails, and at any time.
  pub rotate_token-authenticate :
      (owner agent_id : Uuid) (lifetime : TokenLifetime) (at now : Time) (secrets : TokenSecrets)
      (w : World) (new : AgentCredential) (old : Bytes) (cs : List Call) (faults : List Bool)
      (p : Principal)
      → IsTokenOf agent_id (sha256 old) w.db.accounts.agent_tokens
      → (rotate_token sha256 owner agent_id lifetime at secrets w).0 ≡ ok new
      → ¬ (
          (authenticate sha256 old now
            (record (run cs (rotate_token sha256 owner agent_id lifetime at secrets w).1) {
              faults = faults;
            })).0
          ≡ ok p)
  rotate_token-authenticate owner agent_id lifetime at now secrets w new old cs faults p mine done
        good =
      let revoked =
        (rotate_token-After (sha256 old) owner agent_id lifetime at secrets).holds w new mine
          done in
      let later = run-DbEvolves cs (rotate_token sha256 owner agent_id lifetime at secrets w).1 in
      (authenticate-After old now).holds
        (record (run cs (rotate_token sha256 owner agent_id lifetime at secrets w).1) {
          faults = faults;
        })
        p (later.accounts.tokens_revoked (sha256 old) revoked) good

  -- The same of a token that its owner revokes.
  pub revoke_token-authenticate :
      (owner agent_id : Uuid) (at now : Time) (w : World) (n : ℕ) (old : Bytes) (cs : List Call)
      (faults : List Bool) (p : Principal)
      → IsTokenOf agent_id (sha256 old) w.db.accounts.agent_tokens
      → (revoke_token owner agent_id at w).0 ≡ ok n
      → ¬ (
          (authenticate sha256 old now
            (record (run cs (revoke_token owner agent_id at w).1) { faults = faults })).0
          ≡ ok p)
  revoke_token-authenticate owner agent_id at now w n old cs faults p mine done good =
      let revoked = (revoke_token-After (sha256 old) owner agent_id at).holds w n mine done in
      let later = run-DbEvolves cs (revoke_token owner agent_id at w).1 in
      (authenticate-After old now).holds
        (record (run cs (revoke_token owner agent_id at w).1) { faults = faults }) p
        (later.accounts.tokens_revoked (sha256 old) revoked) good
