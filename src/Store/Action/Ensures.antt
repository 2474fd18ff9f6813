-- ===== src/Store/Action/Ensures.antt =====
-- What an action that ends well leaves in the database, from what held before.
use mathlib.Core.Path.{◌≡◌, subst, sym}
use mathlib.Core.Bool.{Bool, true, false}
use mathlib.Core.Option.{Option, none, some}
use mathlib.Core.List.{List, map}
use agent_key_vault_jit_acce.Prelude.Tests.{if◌then◌else◌}
use agent_key_vault_jit_acce.Prelude.Rows.{select_rows, update_rows, insert_row}
use agent_key_vault_jit_acce.Store.Tables.{Db, Task, Request, Approval, Grant}
use agent_key_vault_jit_acce.Store.Action.{
  World, Result, ok, Action, Error, raise, pure, when_raise, or_raise, mask, statement, query,
  transaction, spend, ◌>>=◌, ◌>>◌,
}
use agent_key_vault_jit_acce.Store.Action.Inversion.{
  bind-ok, when_raise-ok, or_raise-ok, statement-ok, query-ok, transaction-ok, mask-ok,
}
use agent_key_vault_jit_acce.Store.Statements.{
  insert_approval, insert_grant, update_tasks, update_requests, update_grants,
}

pub record Ensures {A : Type 0} (P : Db → Type 0) (m : Action A) (Q : A → Db → Type 0)
    : Type 0 where
  pub holds : (w : World) (a : A) → P w.db → (m w).0 ≡ ok a → Q a (m w).1.db

module _ {A B : Type 0} where
  pub bind-Ensures :
      (P : Db → Type 0) (Q : A → Db → Type 0) (R : B → Db → Type 0) (m : Action A)
      (f : A → Action B)
      → Ensures P m Q
      → ((a : A) → Ensures (Q a) (f a) R)
      → Ensures P (m >>= f) R
  bind-Ensures P Q R m f first second = record {
    holds = λ w b p h.
        let (a, e, runs) = bind-ok m f w b h in
        let q = first.holds w a p e in
        let r = (second a).holds (m w).1 b q (rw runs at h) in
        subst (λ (x : Result B × World). R b x.1.db) (sym runs) r;
  }

module _ (P : Db → Type 0) where
  pub when_raise-Ensures :
      (b : Bool) (e : Error) → Ensures P (when_raise b e) (λ u d. P d × (b ≡ false))
  when_raise-Ensures b e = record {
    holds = λ w u p h.
        let (refused, same) = when_raise-ok b e w u h in
        (subst (λ (v : World). P v.db) (sym same) p, refused);
  }

module _ {A : Type 0} (P : Db → Type 0) where
  pub pure-Ensures : (Q : A → Db → Type 0) (a : A) → ((d : Db) → P d → Q a d) → Ensures P (pure a) Q
  unfolding pure
  pure-Ensures Q a f = record {
    holds = λ w b p h. let same : a ≡ b = cc in subst (λ x. Q x w.db) same (f w.db p);
  }

  pub transaction-Ensures :
      (Q : A → Db → Type 0) (m : Action A) → Ensures P m Q → Ensures P (transaction m) Q
  unfolding spend
  transaction-Ensures Q m inner = record {
    holds = λ w a p h.
        let (e, same) = transaction-ok m w a h in
        subst (Q a) (sym same) (inner.holds (spend w) a p e);
  }

  pub mask-Ensures :
      (Q : A → Db → Type 0) (f : Error → Error) (m : Action A)
      → Ensures P m Q
      → Ensures P (mask f m) Q
  mask-Ensures Q f m inner = record {
    holds = λ w a p h.
        let (e, same) = mask-ok f m w a h in
        subst (λ (v : World). Q a v.db) (sym same) (inner.holds w a p e);
  }

  pub or_raise-Ensures :
      (o : Option A) (e : Error) → Ensures P (or_raise o e) (λ a d. P d × (o ≡ some a))
  or_raise-Ensures o e = record {
    holds = λ w a p h.
        let (found, same) = or_raise-ok o e w a h in
        (subst (λ (v : World). P v.db) (sym same) p, found);
  }

  pub query-Ensures : (f : Db → A) → Ensures P (query f) (λ a d. P d × (a ≡ f d))
  query-Ensures f = record {
    holds = λ w a p h. let (e, same) = query-ok f w a h in (subst P (sym same) p, rw same e);
  }

  -- A statement that cannot violate a constraint.
  pub statement-Ensures :
      (Q : A → Db → Type 0) (f : Db → Option (A × Db))
      → ((d : Db) (a : A) (e : Db) → P d → f d ≡ some (a, e) → Q a e)
      → Ensures P (statement f) Q
  statement-Ensures Q f step = record {
    holds = λ w a p h. step w.db a (statement f w).1.db p (statement-ok f w a h);
  }

module _ {A : Type 0} where
  landed :
      (Q : A → Db → Type 0) (x a : A) (d e : Db)
      → ◌≡◌ {A = Option (A × Db)} (some (x, d)) (some (a, e))
      → Q x d
      → Q a e
  landed Q x a d e h q =
      let same : x ≡ a = cc in let here : d ≡ e = cc in subst (λ y. Q y e) same (subst (Q x) here q)

  -- A statement that checks constraints first.
  checked :
      (Q : A → Db → Type 0) (b : Bool) (x a : A) (d e : Db)
      → ◌≡◌ {A = Option (A × Db)}
          (if◌then◌else◌ {A = Option (A × Db)} b none (some (x, d)))
          (some (a, e))
      → Q x d
      → Q a e
  checked Q true x a d e h q = absurd (cc)
  checked Q false x a d e h q = landed Q x a d e h q

  pub update_grants-Ensures :
      (P : Db → Type 0) (Q : A → Db → Type 0) (test : Db → Grant → Bool) (change : Grant → Grant)
      (result : Db → List Grant → A)
      → ((d : Db)
          → P d
          → Q
              (result d (map change (select_rows (test d) d.grants)))
              (record d { grants = update_rows (test d) change d.grants }))
      → Ensures P (update_grants test change result) Q
  unfolding update_grants
  update_grants-Ensures P Q test change result step =
      statement-Ensures P Q _ λ d a e p h. landed Q _ a _ e h (step d p)

  pub update_requests-Ensures :
      (P : Db → Type 0) (Q : A → Db → Type 0) (test : Db → Request → Bool)
      (change : Request → Request) (result : Db → List Request → A)
      → ((d : Db)
          → P d
          → Q
              (result d (map change (select_rows (test d) d.requests)))
              (record d { requests = update_rows (test d) change d.requests }))
      → Ensures P (update_requests test change result) Q
  unfolding update_requests
  update_requests-Ensures P Q test change result step =
      statement-Ensures P Q _ λ d a e p h. landed Q _ a _ e h (step d p)

  pub update_tasks-Ensures :
      (P : Db → Type 0) (Q : A → Db → Type 0) (test : Db → Task → Bool) (change : Task → Task)
      (result : Db → List Task → A)
      → ((d : Db)
          → P d
          → Q
              (result d (map change (select_rows (test d) d.tasks)))
              (record d { tasks = update_rows (test d) change d.tasks }))
      → Ensures P (update_tasks test change result) Q
  unfolding update_tasks
  update_tasks-Ensures P Q test change result step =
      statement-Ensures P Q _ λ d a e p h. checked Q _ _ a _ e h (step d p)

module _ {B : Type 0} (P : Db → Type 0) (Q : B → Db → Type 0) where
  -- Behind a guard that let the action go on.
  pub guard-Ensures :
      (b : Bool) (e : Error) (m : Action B)
      → (b ≡ false → Ensures P m Q)
      → Ensures P (when_raise b e >> m) Q
  guard-Ensures b e m rest = record {
    holds = λ w a p h.
        let (u, passed, runs) = bind-ok (when_raise b e) (λ v. m) w a h in
        let (refused, same) = when_raise-ok b e w u passed in
        let r = (rest refused).holds w a p (rw (runs, same) at h) in
        subst (λ (x : Result B × World). Q a x.1.db) (sym runs)
          (subst (λ (v : World). Q a (m v).1.db) (sym same) r);
  }

  -- Behind a read of the database.
  pub reads-Ensures :
      {A : Type 0} (f : Db → A) (k : A → Action B)
      → ((a : A) → Ensures (λ d. P d × (a ≡ f d)) (k a) Q)
      → Ensures P (query f >>= k) Q
  reads-Ensures f k = bind-Ensures P (λ a d. P d × (a ≡ f d)) Q (query f) k (query-Ensures P f)

module _ {A : Type 0} (P : Db → Type 0) where
  pub raise-Ensures : (Q : A → Db → Type 0) (e : Error) → Ensures P (raise e) Q
  unfolding raise
  raise-Ensures Q e = record { holds = λ w a p h. absurd (cc) }

  -- Whatever an action does, nothing is asked of it.
  pub any-Ensures : (m : Action A) → Ensures P m (λ a d. Unit {0})
  any-Ensures m = record { holds = λ w a p h. tt }

  -- A weaker result.
  pub after-Ensures :
      (Q R : A → Db → Type 0) (m : Action A)
      → Ensures P m Q
      → ((a : A) (d : Db) → Q a d → R a d)
      → Ensures P m R
  after-Ensures Q R m inner f = record { holds = λ w a p h. f a (m w).1.db (inner.holds w a p h) }

  -- Less asked before.
  pub weaken-Ensures :
      (R : Db → Type 0) (Q : A → Db → Type 0) (m : Action A)
      → ((d : Db) → P d → R d)
      → Ensures R m Q
      → Ensures P m Q
  weaken-Ensures R Q m f inner = record { holds = λ w a p h. inner.holds w a (f w.db p) h }

  -- A check that passes changes nothing.
  pub or_raise-Preserves : (o : Option A) (e : Error) → Ensures P (or_raise o e) (λ a d. P d)
  or_raise-Preserves o e = after-Ensures _ _ _ (or_raise-Ensures P o e) λ a d p. p.0

  -- What is known apart from the database stays known.
  pub frame-Ensures :
      (F : Type 0) (Q : A → Db → Type 0) (m : Action A)
      → ((d : Db) → P d → F)
      → Ensures P m Q
      → Ensures P m (λ a d. F × Q a d)
  frame-Ensures F Q m known inner = record {
    holds = λ w a p h. (known w.db p, inner.holds w a p h);
  }

pub when_raise-Preserves :
    (P : Db → Type 0) (b : Bool) (e : Error) → Ensures P (when_raise b e) (λ u d. P d)
when_raise-Preserves P b e = after-Ensures P _ _ _ (when_raise-Ensures P b e) λ u d p. p.0

module _ (P : Db → Type 0) (Q : Unit {0} → Db → Type 0) where
  pub insert_approval-Ensures :
      (a : Approval)
      → ((d : Db) → P d → Q tt (record d { approvals = insert_row a d.approvals }))
      → Ensures P (insert_approval a) Q
  unfolding insert_approval
  insert_approval-Ensures a step =
      statement-Ensures P Q _ λ d u e p h. checked Q _ _ u _ e h (step d p)

  pub insert_grant-Ensures :
      (g : Grant)
      → ((d : Db) → P d → Q tt (record d { grants = insert_row g d.grants }))
      → Ensures P (insert_grant g) Q
  unfolding insert_grant
  insert_grant-Ensures g step =
      statement-Ensures P Q _ λ d u e p h. checked Q _ _ u _ e h (step d p)
