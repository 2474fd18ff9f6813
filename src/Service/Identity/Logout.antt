-- ===== src/Service/Identity/Logout.antt =====
-- A session that has been logged out is over for good.
use mathlib.Core.Path.{◌≡◌, refl, subst}
use mathlib.Core.Bool.{Bool, true, false, ◌&&◌}
use mathlib.Core.Option.{Option, none, some, bind}
use mathlib.Core.List.{List}
use native.Mathlib.Omega.{arith}
use agent_key_vault_jit_acce.Prelude.Tests.{◌==◌, ltb, is_none, and-eq-true}
use agent_key_vault_jit_acce.Prelude.Rows.{bytes_eq}
use agent_key_vault_jit_acce.Prelude.Evolves.{All, All-map, All-any, All-updated}
use agent_key_vault_jit_acce.Prelude.Finds.{find_row-rejected, Any-counted}
use agent_key_vault_jit_acce.Store.Tables.{Db, Time, Bytes, WebSession, Accounts}
use agent_key_vault_jit_acce.Store.Action.{World, ok}
use agent_key_vault_jit_acce.Store.Action.Ensures.{
  Ensures, bind-Ensures, guard-Ensures, mask-Ensures, reads-Ensures, or_raise-Ensures,
  statement-Ensures, after-Ensures, when_raise-Ensures,
}
use agent_key_vault_jit_acce.Store.Evolution.Owned.{SessionRevoked}
use agent_key_vault_jit_acce.Store.Accounts.Statements.{
  with_accounts, account_statement, update_sessions,
}
use agent_key_vault_jit_acce.Store.Accounts.{
  session_user, find_active_session_by_token_hash, revoke_session,
}
use agent_key_vault_jit_acce.Store.History.{Call, run}
use agent_key_vault_jit_acce.Store.History.Evolves.{run-DbEvolves}
use agent_key_vault_jit_acce.Service.Identity.{User, authenticate_session, logout}

-- The answer of a statement on the accounts that has no constraint.
accounts_answer :
    {A : Type 0} (d : Db) (x n : A) (s : Accounts) (e : Db)
    → ◌≡◌ {A = Option (A × Db)} (with_accounts d (some (x, s))) (some (n, e))
    → (x ≡ n) × (s ≡ e.accounts)
accounts_answer d x n s e h = (cc, cc)

module _ (hash : Bytes) where
  abbrev Over : WebSession → Type 0
  Over x = bytes_eq x.token_hash hash ≡ true → is_none x.revoked_at ≡ false

  revoke_session-Revoked :
      (now : Time)
      → Ensures
          (λ d. Unit {0})
          (revoke_session hash now)
          (λ u d. SessionRevoked hash d.accounts.web_sessions)
  unfolding revoke_session update_sessions account_statement
  revoke_session-Revoked now =
      bind-Ensures _ (λ n d. (n == 1) ≡ true → SessionRevoked hash d.accounts.web_sessions) _ _ _
        (statement-Ensures _ _ _ λ d n e p h one.
          let (count, same) = accounts_answer d _ _ _ _ h in
          subst (λ (x : Accounts). SessionRevoked hash x.web_sessions) same
            (
              Any-counted (λ x. bytes_eq x.token_hash hash ≡ true) _ _ d.accounts.web_sessions
                  (λ x k. (and-eq-true _ _ k).0) (rw count one),
              All-updated (λ x. Unit {0}) Over _ _ d.accounts.web_sessions (λ x k u j. refl)
                  (λ x k u j. ground arith) (All-any d.accounts.web_sessions),
            ))
        λ n. after-Ensures _ _ _ _ (when_raise-Ensures _ _ _) λ u d p. p.0 (ground arith)

  -- No session of the hash can be found.
  session_user-Over :
      (now : Time) (s : Accounts) → All Over s.web_sessions → session_user hash now s ≡ none
  unfolding session_user bind
  session_user-Over now s a =
      rw
        (find_row-rejected
          (λ r. bytes_eq r.token_hash hash && is_none r.revoked_at && ltb now r.expires_at)
          s.web_sessions (All-map Over _ (λ x k. ground arith) s.web_sessions a))
        refl

module _ (sha256 : Bytes → Bytes) (token : Bytes) where
  -- A token whose sessions are over is refused.
  authenticate_session-Over :
      (now : Time)
      → Ensures
          (λ d. All (Over (sha256 token)) d.accounts.web_sessions)
          (authenticate_session sha256 token now)
          (λ u d. ⊥)
  unfolding authenticate_session find_active_session_by_token_hash
  authenticate_session-Over now = guard-Ensures _ _ _ _ _ λ some_token.
      bind-Ensures _ (λ u d. ⊥) _ _ _
        (mask-Ensures _ _ _ _ (
          reads-Ensures _ _ _ _ λ found. after-Ensures _ _ _ _ (or_raise-Ensures _ _ _) λ u d p.
            absurd (cc (session_user-Over (sha256 token) now d.accounts p.0.0, p.0.1, p.1))))
        λ u. record { holds = λ w v p h. p }

  logout-Revoked :
      (at : Time)
      → Ensures
          (λ d. Unit {0})
          (logout sha256 token at)
          (λ u d. SessionRevoked (sha256 token) d.accounts.web_sessions)
  unfolding logout
  logout-Revoked at =
      guard-Ensures _ _ _ _ _
        λ some_token. mask-Ensures _ _ _ _ (revoke_session-Revoked (sha256 token) at)

  -- After a logout that succeeds, the session token never authenticates again, whatever the
  -- processes do to the database in between, whatever fails, and at any time.
  pub logout-authenticate :
      (at now : Time) (w : World) (cs : List Call) (faults : List Bool) (u : User)
      → (logout sha256 token at w).0 ≡ ok tt
      → ¬ (
          (authenticate_session sha256 token now
            (record (run cs (logout sha256 token at w).1) { faults = faults })).0
          ≡ ok u)
  logout-authenticate at now w cs faults u done good =
      let revoked = (logout-Revoked at).holds w tt tt done in
      let later = run-DbEvolves cs (logout sha256 token at w).1 in
      (authenticate_session-Over now).holds
        (record (run cs (logout sha256 token at w).1) { faults = faults }) u
        (later.accounts.sessions_revoked (sha256 token) revoked).1 good
