-- ===== src/Service/Identity/Login.antt =====
-- A login gives a session that authenticates.
use mathlib.Core.Path.{◌≡◌, refl, sym, ap, subst, ◌∙◌}
use mathlib.Core.Logic.{inl, inr}
use mathlib.Core.Bool.{Bool, true, false, ◌&&◌}
use mathlib.Core.Option.{Option, none, some, bind}
use mathlib.Core.List.{[]}
use native.Mathlib.Omega.{arith}
use agent_key_vault_jit_acce.Prelude.Tests.{
  is_empty, Bool-cases, if◌then◌else◌, ◌==◌, ltb, is_none, and-eq-true, or-eq-false, ==_refl,
}
use agent_key_vault_jit_acce.Prelude.Rows.{find_row, insert_row, bytes_eq}
use agent_key_vault_jit_acce.Prelude.Same.{bytes_eq_refl}
use agent_key_vault_jit_acce.Prelude.Int.{ℤ}
use agent_key_vault_jit_acce.Prelude.Evolves.{All, All-map, find_row-passes}
use agent_key_vault_jit_acce.Prelude.Finds.{DistinctBy, find_row-inserted, find_row-by_key}
use agent_key_vault_jit_acce.Operation.Text.Runes.{trim_space}
use agent_key_vault_jit_acce.Store.Tables.{Db, Time, Bytes, Account, WebSession, Accounts}
use agent_key_vault_jit_acce.Store.Action.{
  World, Result, Action, Error, ok, err, unless_error, caught_if, ◌>>=◌, go_on, when_raise, mask,
  with_error, or_raise, query, statement, land, spend, next_fails, rest_faults, pure,
}
use agent_key_vault_jit_acce.Store.Action.Ensures.{
  Ensures, bind-Ensures, guard-Ensures, mask-Ensures, reads-Ensures, or_raise-Ensures,
  or_raise-Preserves, when_raise-Preserves, statement-Ensures, after-Ensures, pure-Ensures,
}
use agent_key_vault_jit_acce.Store.Evolution.Logins.{fresh_session}
use agent_key_vault_jit_acce.Store.Accounts.Statements.{
  with_accounts, account_statement, insert_session,
}
use agent_key_vault_jit_acce.Store.Accounts.{
  session_row, active_user, session_user, find_active_account_by_username,
  find_active_session_by_token_hash, create_session,
}
use agent_key_vault_jit_acce.Service.Identity.{
  Session, SessionSecrets, User, public_user, prepare_session, login, authenticate_session,
}

-- No two users have one identifier.
abbrev pub UserKeys : Accounts → Type 0
UserKeys s = DistinctBy (λ u. u.id) s.users

-- The account, by its name, of a database whose users have keys.
record Named (name : Bytes) (a : Account) (d : Db) : Type 0 where
  pub keys : UserKeys d.accounts
  pub found : find_row (λ u. bytes_eq u.username name && u.active) d.accounts.users ≡ some a

-- The session authenticates as its user until it expires.
abbrev pub Valid : (Bytes → Bytes) → Session → Db → Type 0
Valid sha256 session d =
    (now : Time)
    → ltb now session.expires_at ≡ true
    → (session_user (sha256 session.token) now d.accounts ≡ some session.user)
      × (session.user.owner_active ≡ true)

caught_if-some :
    {A : Type 0} (test : Error → Bool) (x : Result A × World) (a : A)
    → (caught_if test x).0 ≡ ok (some a)
    → (x.0 ≡ ok a) × ((caught_if test x).1 ≡ x.1)
unfolding caught_if
caught_if-some test (ok b, w) a h = (cc, refl)
caught_if-some test (err e, w) a h = elim (Bool-cases (test e)) [
  | inl k ↦ absurd (cc (rw k at h))
  | inr k ↦ absurd (cc (rw k at h))
]

-- A row that the database has found, unless there is none.
unless_error-Ensures :
    {A : Type 0} (P : Db → Type 0) (Q : A → Db → Type 0) (test : Error → Bool) (m : Action A)
    → Ensures P m Q
    → Ensures P (unless_error test m) (λ o d. (a : A) → o ≡ some a → Q a d)
unfolding unless_error
unless_error-Ensures P Q test m h = record {
  holds = λ w o p e a k.
      let (found, same) = caught_if-some test (m w) a (e ∙ ap ok k) in
      subst (λ (v : World). Q a v.db) (sym same) (h.holds w a p found);
}

Named-active : (name : Bytes) (a : Account) (d : Db) → Named name a d → a.active ≡ true
Named-active name a d named =
    (and-eq-true (bytes_eq a.username name) a.active (
      find_row-passes (λ u. bytes_eq u.username name && u.active) d.accounts.users a named.found)).1

module _ (r : WebSession) (a : Account) where
  -- The new session is the one of its hash, and its user is found by key.
  session_user-inserted :
      (name : Bytes) (now : Time) (d : Db)
      → Named name a d
      → All (λ x. bytes_eq x.token_hash r.token_hash ≡ false) d.accounts.web_sessions
      → r.user_id ≡ a.id
      → ltb now r.expires_at ≡ true
      → session_user r.token_hash now
          (record d.accounts { web_sessions = insert_row (session_row r) d.accounts.web_sessions })
        ≡ some (active_user a)
  unfolding session_user bind
  session_user-inserted name now d named fresh mine early =
      let here =
        find_row-inserted
          (λ x. bytes_eq x.token_hash r.token_hash && is_none x.revoked_at && ltb now x.expires_at)
          (session_row r) d.accounts.web_sessions
          (All-map (λ x. bytes_eq x.token_hash r.token_hash ≡ false) _ (λ x k. ground arith)
            d.accounts.web_sessions fresh)
          (let same = bytes_eq_refl r.token_hash in ground arith) in
      let user =
        find_row-by_key (λ u. u.id) _ (λ u. u.id == r.user_id && u.active) d.accounts.users a
          named.keys named.found
          (let active : a.active ≡ true = Named-active name a d named in
            let same : (a.id == r.user_id) ≡ true = rw mine (==_refl a.id) in ground arith)
          (λ x k. ground arith) in
      rw (here, user) refl

-- What a login prepares for the account.
record Prepared (sha256 : Bytes → Bytes) (a : Account) (p : WebSession × Session) : Type 0 where
  pub user_id : p.0.user_id ≡ a.id
  pub token : p.0.token_hash ≡ sha256 p.1.token
  pub expires : p.0.expires_at ≡ p.1.expires_at
  pub user : p.1.user ≡ public_user a

active-public_user : (a : Account) → a.active ≡ true → active_user a ≡ public_user a
unfolding public_user
active-public_user a h = rw h refl

-- The answer of an insertion into `web_sessions`.
session_answer :
    (d : Db) (b : Bool) (u : Unit {0}) (s : Accounts) (e : Db)
    → ◌≡◌ {A = Option (Unit {0} × Db)}
        (with_accounts d (if b then none else some (tt, s)))
        (some (u, e))
    → (b ≡ false) × (s ≡ e.accounts)
session_answer d true u s e h = absurd (cc)
session_answer d false u s e h = (refl, cc)

module _ (sha256 : Bytes → Bytes) (name : Bytes) (a : Account) where
  create_session-Valid :
      (p : WebSession × Session)
      → Prepared sha256 a p
      → Ensures (Named name a) (create_session p.0) (λ u d. Valid sha256 p.1 d)
  unfolding create_session insert_session account_statement
  create_session-Valid p made = statement-Ensures _ _ _ λ d u e named h now early.
      let (fresh, same) = session_answer d _ u _ e h in
      let base =
        session_user-inserted p.0 a name now d named
          (fresh_session p.0 d.accounts.web_sessions (or-eq-false _ _ fresh).0) made.user_id
          (rw made.expires early) in
      let user : p.1.user ≡ active_user a =
        made.user ∙ sym (active-public_user a (Named-active name a d named)) in
      (
        subst (λ (t : Accounts). session_user (sha256 p.1.token) now t ≡ some p.1.user) same
            (ap
                (λ hash. session_user hash now (record d.accounts {
                  web_sessions = insert_row (session_row p.0) d.accounts.web_sessions;
                }))
                (sym made.token)
              ∙ base
              ∙ ap some (sym user)),
        ap (λ (u : User). u.owner_active) user,
      )

  prepare_session-Prepared :
      (lifetime : ℤ) (secrets : SessionSecrets) (now : Time)
      → Ensures
          (Named name a)
          (prepare_session sha256 a lifetime secrets now)
          (λ p d. Named name a d × Prepared sha256 a p)
  unfolding prepare_session
  prepare_session-Prepared lifetime secrets now =
      bind-Ensures _ (λ i d. Named name a d) _ _ _ (or_raise-Preserves _ _ _)
        λ i.
          bind-Ensures _ (λ t d. Named name a d) _ _ _ (or_raise-Preserves _ _ _)
            λ t.
              bind-Ensures _ (λ t d. Named name a d) _ _ _ (or_raise-Preserves _ _ _)
                λ c.
                  pure-Ensures _ _ _
                    λ d n. (n, record { user_id = refl; token = refl; expires = refl; user = refl })

module _ (sha256 : Bytes → Bytes) (compare_hash : Bytes → Bytes → Bool) (dummy_hash : Bytes) where
  login-Valid :
      (username password : Bytes) (lifetime : ℤ) (secrets : SessionSecrets) (now : Time)
      → Ensures
          (λ d. UserKeys d.accounts)
          (login sha256 compare_hash dummy_hash username password lifetime secrets now)
          (λ session d. Valid sha256 session d)
  unfolding login find_active_account_by_username
  login-Valid username password lifetime secrets now = guard-Ensures _ _ _ _ _ λ given.
      bind-Ensures _ (λ found d. (a : Account) → found ≡ some a → Named (trim_space username) a d) _
        _ _
        (mask-Ensures _ _ _ _ (
          unless_error-Ensures _ (λ a d. Named (trim_space username) a d) _ _
            (reads-Ensures _ _ _ _ λ found.
              after-Ensures _ _ _ _ (or_raise-Ensures _ _ _)
                λ a d p. record { keys = p.0.0; found = sym p.0.1 ∙ p.1 })))
        λ found.
          bind-Ensures _ (λ u d. (a : Account) → found ≡ some a → Named (trim_space username) a d) _
            _ _ (when_raise-Preserves _ _ _)
            λ u.
              bind-Ensures _ (λ a d. Named (trim_space username) a d) _ _ _
                (after-Ensures _ _ _ _ (or_raise-Ensures _ _ _) λ a d p. p.0 a p.1)
                λ a.
                  bind-Ensures _ (λ p d. Named (trim_space username) a d × Prepared sha256 a p) _ _
                    _ (prepare_session-Prepared sha256 (trim_space username) a lifetime secrets now)
                    λ p.
                      bind-Ensures _ (λ u d. Valid sha256 p.1 d) _ _ _
                        (mask-Ensures _ _ _ _ (record {
                          holds = λ w u both h.
                              (create_session-Valid sha256 (trim_space username) a p both.1).holds w
                                u both.0 h;
                        }))
                        λ u. pure-Ensures _ _ _ λ d v. v

  -- A session that is found authenticates, if the database answers.
  authenticate_session-found :
      (token : Bytes) (now : Time) (d : Db) (u : User)
      → is_empty token ≡ false
      → session_user (sha256 token) now d.accounts ≡ some u
      → u.owner_active ≡ true
      → (authenticate_session sha256 token now (record { db = d; faults = [] })).0 ≡ ok u
  unfolding authenticate_session find_active_session_by_token_hash ◌>>=◌ go_on when_raise mask
      with_error or_raise query statement land spend next_fails rest_faults pure
  authenticate_session-found token now d u given found active = rw (given, found, active) refl

  -- In the very database that a successful login leaves, and with a driver that fails no statement,
  -- the token that the login returned authenticates as the user that it returned, at any time before
  -- the session expires, if the users had distinct identifiers before and the token is not empty.
  pub login-authenticate :
      (username password : Bytes) (lifetime : ℤ) (secrets : SessionSecrets) (now later : Time)
      (w : World) (session : Session)
      → UserKeys w.db.accounts
      → (login sha256 compare_hash dummy_hash username password lifetime secrets now w).0
        ≡ ok session
      → is_empty session.token ≡ false
      → ltb later session.expires_at ≡ true
      → (authenticate_session sha256 session.token later (record {
        db = (login sha256 compare_hash dummy_hash username password lifetime secrets now w).1.db;
        faults = [];
      })).0
        ≡ ok session.user
  login-authenticate username password lifetime secrets now later w session keys done given early =
      authenticate_session-found session.token later _ session.user given
        ((login-Valid username password lifetime secrets now).holds w session keys done later
          early).0
        ((login-Valid username password lifetime secrets now).holds w session keys done later
          early).1
