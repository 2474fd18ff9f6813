-- ===== src/Service/Identity/Bootstrap.antt =====
-- There is one administrator, and it is made once.
use mathlib.Core.Path.{◌≡◌, refl, sym, ap, subst, ◌∙◌}
use mathlib.Core.Logic.{inl, inr}
use mathlib.Core.Bool.{Bool, true, false}
use mathlib.Core.Option.{Option, some}
use mathlib.Core.List.{List, [], ◌∷◌}
use native.Mathlib.Omega.{arith}
use agent_key_vault_jit_acce.Prelude.Tests.{if◌then◌else◌}
use agent_key_vault_jit_acce.Prelude.Rows.{any_row, insert_row}
use agent_key_vault_jit_acce.Prelude.Evolves.{Any, Any-Evolves, Any-insert_row}
use agent_key_vault_jit_acce.Store.Tables.{Db, Uuid, Time, Bytes, Account, Accounts}
use agent_key_vault_jit_acce.Store.Action.{World, ok}
use agent_key_vault_jit_acce.Store.Action.Ensures.{
  Ensures, bind-Ensures, guard-Ensures, mask-Ensures, or_raise-Preserves, statement-Ensures,
  pure-Ensures, raise-Ensures,
}
use agent_key_vault_jit_acce.Store.Evolution.Owned.{AccountEvolves}
use agent_key_vault_jit_acce.Store.Accounts.Statements.{
  Insertion, inserted, username_taken, key_taken, with_accounts, account_statement, insert_user,
}
use agent_key_vault_jit_acce.Store.Accounts.{initial_result, create_initial_admin}
use agent_key_vault_jit_acce.Store.History.{Call, run}
use agent_key_vault_jit_acce.Store.History.Evolves.{run-DbEvolves}
use agent_key_vault_jit_acce.Service.Identity.{User, bootstrap_admin}

abbrev HasAdmin : Db → Type 0
HasAdmin d = Any (λ u. u.is_admin ≡ true) d.accounts.users

any_row-true :
    {A : Type 0} (test : A → Bool) (xs : List A)
    → Any (λ x. test x ≡ true) xs
    → any_row test xs ≡ true
unfolding any_row
any_row-true test [] a = absurd a
any_row-true test (x ∷ xs) (inl p) = rw p refl
any_row-true test (x ∷ xs) (inr a) = let rest = any_row-true test xs a in ground arith

abbrev IsInserted : Insertion → Type 0
IsInserted (inserted n) = Unit
IsInserted _ = ⊥

-- An insertion of an administrator that is one finds none, and leaves one.
insertion_answer :
    (d : Db) (u : Account) (b c admins : Bool) (i : Insertion) (e : Db)
    → ◌≡◌ {A = Option (Insertion × Db)}
        (with_accounts d (
          some (
            if b
            then (key_taken, d.accounts)
            else if c
            then (username_taken, d.accounts)
            else if admins
            then (key_taken, d.accounts)
            else (inserted 1, record d.accounts { users = insert_row u d.accounts.users }))))
        (some (i, e))
    → u.is_admin ≡ true
    → IsInserted i
    → (admins ≡ false) × HasAdmin e
insertion_answer d u true c a i e h p n =
    let same : key_taken ≡ i = cc in absurd (subst IsInserted (sym same) n)
insertion_answer d u false true a i e h p n =
    let same : username_taken ≡ i = cc in absurd (subst IsInserted (sym same) n)
insertion_answer d u false false true i e h p n =
    let same : key_taken ≡ i = cc in absurd (subst IsInserted (sym same) n)
insertion_answer d u false false false i e h p n =
    let same : record d.accounts { users = insert_row u d.accounts.users } ≡ e.accounts = cc in
    (
      refl,
      subst (λ (s : Accounts). Any (λ v. v.is_admin ≡ true) s.users) same
          (Any-insert_row _ u d.accounts.users p),
    )

-- An administrator is made where there is none.
create_initial_admin-HasAdmin :
    (a : Account) → Ensures (λ d. Unit {0}) (create_initial_admin a) (λ u d. HasAdmin d)
unfolding create_initial_admin insert_user account_statement initial_result
create_initial_admin-HasAdmin a =
    bind-Ensures _ (λ i d. IsInserted i → HasAdmin d) _ _ _
      (statement-Ensures _ _ _ λ d i e p h n. (insertion_answer d _ _ _ _ i e h refl n).1) settled
  where
    settled :
        (i : Insertion)
        → Ensures (λ d. IsInserted i → HasAdmin d) (initial_result i) (λ u d. HasAdmin d)
    settled (inserted n) = pure-Ensures _ _ _ λ d p. p tt
    settled username_taken = raise-Ensures _ _ _
    settled key_taken = raise-Ensures _ _ _

create_initial_admin-again : (a : Account) → Ensures HasAdmin (create_initial_admin a) (λ u d. ⊥)
unfolding create_initial_admin insert_user account_statement initial_result
create_initial_admin-again a =
    bind-Ensures _ (λ i d. IsInserted i → ⊥) _ _ _
      (statement-Ensures _ _ _ λ d i e p h n.
        let none_yet = (insertion_answer d _ _ _ _ i e h refl n).0 in
        absurd (cc (any_row-true (λ u. u.is_admin) d.accounts.users p, none_yet)))
      settled
  where
    settled : (i : Insertion) → Ensures (λ d. IsInserted i → ⊥) (initial_result i) (λ u d. ⊥)
    settled (inserted n) = pure-Ensures _ _ _ λ d p. p tt
    settled username_taken = raise-Ensures _ _ _
    settled key_taken = raise-Ensures _ _ _

bootstrap_admin-carries :
    (P : Db → Type 0) (Q : Db → Type 0) (username password : Bytes) (id : Option Uuid)
    (hash : Option Bytes) (now : Time)
    → ((a : Account) → Ensures P (create_initial_admin a) (λ u d. Q d))
    → Ensures P (bootstrap_admin username password id hash now) (λ u d. Q d)
unfolding bootstrap_admin
bootstrap_admin-carries P Q username password id hash now step = guard-Ensures _ _ _ _ _ λ given.
    bind-Ensures _ (λ i d. P d) _ _ _ (or_raise-Preserves _ _ _)
      λ i.
        bind-Ensures _ (λ h d. P d) _ _ _ (or_raise-Preserves _ _ _)
          λ h.
            bind-Ensures _ (λ u d. Q d) _ _ _ (mask-Ensures _ _ _ _ (step _))
              λ u. pure-Ensures _ _ _ λ d q. q

admin-evolves : (x y : Account) → AccountEvolves x y → x.is_admin ≡ true → y.is_admin ≡ true
admin-evolves x y e h = ap (λ (a : Account). a.is_admin) e.snapshot ∙ h

-- Once an administrator has been bootstrapped, no bootstrap succeeds any more, whatever the
-- processes do to the database in between, and whatever fails.
pub bootstrap_admin-once :
    (username password : Bytes) (id : Option Uuid) (hash : Option Bytes) (at : Time) (w : World)
    (u : User) (cs : List Call) (faults : List Bool) (username' password' : Bytes)
    (id' : Option Uuid) (hash' : Option Bytes) (later : Time) (v : User)
    → (bootstrap_admin username password id hash at w).0 ≡ ok u
    → ¬ (
        (bootstrap_admin username' password' id' hash' later
          (record (run cs (bootstrap_admin username password id hash at w).1) {
            faults = faults;
          })).0
        ≡ ok v)
bootstrap_admin-once name password id hash at w u cs faults name' password' id' hash' later v done
      again =
    let there =
      (bootstrap_admin-carries (λ d. Unit {0}) HasAdmin name password id hash at
          create_initial_admin-HasAdmin).holds
        w u tt done in
    let start = (bootstrap_admin name password id hash at w).1 in
    let evolved = (run-DbEvolves cs start).accounts.users in
    (bootstrap_admin-carries HasAdmin (λ d. ⊥) name' password' id' hash' later
        create_initial_admin-again).holds
      (record (run cs start) { faults = faults }) v
      (Any-Evolves AccountEvolves _ admin-evolves start.db.accounts.users
        (run cs start).db.accounts.users evolved there)
      again
