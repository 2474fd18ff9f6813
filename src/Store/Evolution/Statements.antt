-- ===== src/Store/Evolution/Statements.antt =====
-- Each statement changes its table as its row relation allows, if its change of a row does.
use mathlib.Core.Path.{◌≡◌, refl, subst}
use mathlib.Core.Bool.{Bool, true, false, not}
use mathlib.Core.Option.{Option, none, some}
use mathlib.Core.List.{List, ◌++◌}
use agent_key_vault_jit_acce.Prelude.Tests.{if◌then◌else◌, or-eq-false}
use agent_key_vault_jit_acce.Prelude.Evolves.{
  Evolves-appended, Evolves-insert_row, Evolves-update_rows, Evolves-update_rows_checked,
  any_row-none,
}
use agent_key_vault_jit_acce.Prelude.Rows.{update_rows, insert_row}
use agent_key_vault_jit_acce.Store.Tables.{
  Db, Task, Request, Approval, Grant, Execution, Reclaim, Incident, AuditEvent,
}
use agent_key_vault_jit_acce.Store.Action.Keeps.{Keeps, Keeps-statement}
use agent_key_vault_jit_acce.Store.Keys.{KeepsKeys-update, KeepsKeys-insert}
use agent_key_vault_jit_acce.Store.Statements.{
  task_check, update_tasks, update_requests, update_grants, update_executions, update_reclaims,
  update_incidents, insert_task, insert_request, insert_approval, insert_grant, insert_execution,
  insert_reclaim, insert_incident, insert_audit,
}
use agent_key_vault_jit_acce.Store.Evolution.{DbEvolves, DbEvolves-preorder}
use agent_key_vault_jit_acce.Store.Evolution.Owned.{≡-preorder}
use agent_key_vault_jit_acce.Store.Evolution.Rows.{
  TaskEvolves, RequestEvolves, GrantEvolves, ExecutionEvolves, ReclaimEvolves, TaskEvolves-preorder,
  RequestEvolves-preorder, GrantEvolves-preorder, ExecutionEvolves-preorder,
  ReclaimEvolves-preorder, IncidentEvolves, IncidentEvolves-preorder,
}
use agent_key_vault_jit_acce.Store.Evolution.Changes.{
  only_tasks, only_requests, only_approvals, only_grants, only_executions, only_reclaims,
  only_incidents, only_audit,
}

-- The new database of a statement that succeeds, with or without a constraint.
landed :
    {A : Type 0} (d e : Db) (a b : A) (f : Db)
    → DbEvolves d f
    → ◌≡◌ {A = Option (A × Db)} (some (b, f)) (some (a, e))
    → DbEvolves d e
landed d e a b f h p = let same : f ≡ e = cc in subst (DbEvolves d) same h

checked :
    {A : Type 0} (d e : Db) (a b : A) (f : Db) (c : Bool)
    → (c ≡ false → DbEvolves d f)
    → ◌≡◌ {A = Option (A × Db)} (if c then none else some (b, f)) (some (a, e))
    → DbEvolves d e
checked d e a b f true h p = absurd (cc)
checked d e a b f false h p = landed d e a b f (h refl) p

-- A statement that changes nothing where `c` holds.
checked_unless :
    {A : Type 0} (d e : Db) (a b b' : A) (f : Db) (c c' : Bool)
    → DbEvolves d f
    → ◌≡◌ {A = Option (A × Db)}
        (if c then some (b', d) else if c' then none else some (b, f))
        (some (a, e))
    → DbEvolves d e
checked_unless d e a b b' f true c' h p = landed d e a b' d (DbEvolves-preorder.reflexive d) p
checked_unless d e a b b' f false c' h p = checked d e a b f c' (λ k. h) p

-- One table changes, and the others stay.
module _ {A : Type 0} where
  pub Keeps-update_tasks :
      (test : Db → Task → Bool) (change : Task → Task) (result : Db → List Task → A)
      → ((d : Db) (x : Task)
          → test d x ≡ true
          → not (task_check (change x)) ≡ false
          → TaskEvolves x (change x))
      → Keeps DbEvolves (update_tasks test change result)
  unfolding update_tasks
  Keeps-update_tasks test change result h = Keeps-statement DbEvolves-preorder _ λ d a e p.
      checked d e a _ (record d { tasks = update_rows (test d) change d.tasks }) _
        (λ k. only_tasks d _ (
          Evolves-update_rows_checked TaskEvolves TaskEvolves-preorder
            (λ t. not (task_check t) ≡ false) (test d) change d.tasks (h d) (any_row-none _ _ k)))
        p

  pub Keeps-update_requests :
      (test : Db → Request → Bool) (change : Request → Request) (result : Db → List Request → A)
      → ((d : Db) (x : Request) → test d x ≡ true → RequestEvolves x (change x))
      → Keeps DbEvolves (update_requests test change result)
  unfolding update_requests
  Keeps-update_requests test change result h = Keeps-statement DbEvolves-preorder _ λ d a e p.
      landed d e a _ (record d { requests = update_rows (test d) change d.requests })
        (only_requests d _ (
          Evolves-update_rows RequestEvolves RequestEvolves-preorder (test d) change d.requests
            (h d)))
        p

  pub Keeps-update_grants :
      (test : Db → Grant → Bool) (change : Grant → Grant) (result : Db → List Grant → A)
      → ((d : Db) (x : Grant) → test d x ≡ true → GrantEvolves x (change x))
      → Keeps DbEvolves (update_grants test change result)
  unfolding update_grants
  Keeps-update_grants test change result h = Keeps-statement DbEvolves-preorder _ λ d a e p.
      landed d e a _ (record d { grants = update_rows (test d) change d.grants })
        (only_grants d _
          (Evolves-update_rows GrantEvolves GrantEvolves-preorder (test d) change d.grants (h d))
          (KeepsKeys-update (test d) change d.grants (h d)))
        p

  pub Keeps-update_executions :
      (test : Db → Execution → Bool) (change : Execution → Execution)
      (result : Db → List Execution → A)
      → ((d : Db) (x : Execution) → test d x ≡ true → ExecutionEvolves x (change x))
      → Keeps DbEvolves (update_executions test change result)
  unfolding update_executions
  Keeps-update_executions test change result h = Keeps-statement DbEvolves-preorder _ λ d a e p.
      landed d e a _ (record d { executions = update_rows (test d) change d.executions })
        (only_executions d _ (
          Evolves-update_rows ExecutionEvolves ExecutionEvolves-preorder (test d) change
            d.executions (h d)))
        p

  pub Keeps-update_reclaims :
      (test : Db → Reclaim → Bool) (change : Reclaim → Reclaim) (result : Db → List Reclaim → A)
      → ((d : Db) (x : Reclaim) → test d x ≡ true → ReclaimEvolves x (change x))
      → Keeps DbEvolves (update_reclaims test change result)
  unfolding update_reclaims
  Keeps-update_reclaims test change result h = Keeps-statement DbEvolves-preorder _ λ d a e p.
      landed d e a _ (record d { reclaims = update_rows (test d) change d.reclaims })
        (only_reclaims d _ (
          Evolves-update_rows ReclaimEvolves ReclaimEvolves-preorder (test d) change d.reclaims
            (h d)))
        p

pub Keeps-insert_task : (t : Task) → Keeps DbEvolves (insert_task t)
unfolding insert_task
Keeps-insert_task t = Keeps-statement DbEvolves-preorder _ λ d a e p.
    checked d e a _ (record d { tasks = insert_row t d.tasks }) _
      (λ k. only_tasks d _ (Evolves-insert_row TaskEvolves TaskEvolves-preorder t d.tasks)) p

pub Keeps-insert_approval : (v : Approval) → Keeps DbEvolves (insert_approval v)
unfolding insert_approval
Keeps-insert_approval v = Keeps-statement DbEvolves-preorder _ λ d a e p.
    checked d e a _ (record d { approvals = insert_row v d.approvals }) _
      (λ k. only_approvals d _ (Evolves-insert_row ◌≡◌ ≡-preorder v d.approvals)) p

pub Keeps-insert_grant : (g : Grant) → Keeps DbEvolves (insert_grant g)
unfolding insert_grant
Keeps-insert_grant g = Keeps-statement DbEvolves-preorder _ λ d a e p.
    checked d e a _ (record d { grants = insert_row g d.grants }) _
      (λ k.
        only_grants d _ (Evolves-insert_row GrantEvolves GrantEvolves-preorder g d.grants)
          (KeepsKeys-insert g d.grants (or-eq-false _ _ (or-eq-false _ _ k).0).0))
      p

pub Keeps-insert_request :
    (test : Db → Bool) (r : Request) → Keeps DbEvolves (insert_request test r)
unfolding insert_request
Keeps-insert_request test r = Keeps-statement DbEvolves-preorder _ λ d a e p.
    checked_unless d e a _ _ (record d { requests = insert_row r d.requests }) _ _
      (only_requests d _ (Evolves-insert_row RequestEvolves RequestEvolves-preorder r d.requests)) p

pub Keeps-insert_execution :
    (test : Db → Bool) (x : Execution) → Keeps DbEvolves (insert_execution test x)
unfolding insert_execution
Keeps-insert_execution test x = Keeps-statement DbEvolves-preorder _ λ d a e p.
    checked_unless d e a _ _ (record d { executions = insert_row x d.executions }) _ _
      (only_executions d _
        (Evolves-insert_row ExecutionEvolves ExecutionEvolves-preorder x d.executions))
      p

pub Keeps-insert_reclaim : (row : Db → Reclaim) → Keeps DbEvolves (insert_reclaim row)
unfolding insert_reclaim
Keeps-insert_reclaim row = Keeps-statement DbEvolves-preorder _ λ d a e p.
    checked d e a _ (record d { reclaims = insert_row (row d) d.reclaims }) _
      (λ k.
        only_reclaims d _
          (Evolves-insert_row ReclaimEvolves ReclaimEvolves-preorder (row d) d.reclaims))
      p

pub Keeps-update_incidents :
    (test : Db → Incident → Bool) (change : Incident → Incident)
    → ((d : Db) (x : Incident) → test d x ≡ true → IncidentEvolves x (change x))
    → Keeps DbEvolves (update_incidents test change)
unfolding update_incidents
Keeps-update_incidents test change h = Keeps-statement DbEvolves-preorder _ λ d a e p.
    landed d e a _ (record d { incidents = update_rows (test d) change d.incidents })
      (only_incidents d _ (
        Evolves-update_rows IncidentEvolves IncidentEvolves-preorder (test d) change d.incidents
          (h d)))
      p

pub Keeps-insert_incident : (i : Incident) → Keeps DbEvolves (insert_incident i)
unfolding insert_incident
Keeps-insert_incident i = Keeps-statement DbEvolves-preorder _ λ d a e p.
    checked d e a _ (record d { incidents = insert_row i d.incidents }) _
      (λ k.
        only_incidents d _
          (Evolves-insert_row IncidentEvolves IncidentEvolves-preorder i d.incidents))
      p

pub Keeps-insert_audit : (rows : Db → List AuditEvent) → Keeps DbEvolves (insert_audit rows)
unfolding insert_audit
Keeps-insert_audit rows = Keeps-statement DbEvolves-preorder _ λ d a e p.
    landed d e a _ (record d { audit = d.audit ++ rows d })
      (only_audit d _ (Evolves-appended ◌≡◌ ≡-preorder d.audit (rows d))) p
