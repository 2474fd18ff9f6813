-- ===== src/Store/Statements.antt =====
-- The SQL statements that the repositories are made of, one kind for each table, with the
-- constraints of internal/store/migrations that bear on them.
use mathlib.Core.Bool.{Bool, false, ◌&&◌, ◌||◌, not}
use mathlib.Core.Option.{Option, none, some}
use mathlib.Core.List.{List, map, ◌++◌}
use Prim.Native.Nat.{ℕ}
use agent_key_vault_jit_acce.Prelude.Tests.{if◌then◌else◌, ◌==◌, ltb, is_some, is_none}
use agent_key_vault_jit_acce.Prelude.Rows.{length, any_row, select_rows, update_rows, insert_row}
use agent_key_vault_jit_acce.Domain.Task.{is_active, can_transition_to, TaskStatus}
use agent_key_vault_jit_acce.Store.Tables.{
  Db, Task, Request, Approval, Grant, Execution, Reclaim, Incident, AuditEvent, Decision,
}
use agent_key_vault_jit_acce.Store.Action.{Action, statement}

-- The `CHECK` of `tasks`: a known status, and an end time exactly when the task has ended.
unfoldable pub task_check : Task → Bool
unfolding can_transition_to
task_check t =
    is_active t.status && is_none t.ended_at
    || can_transition_to TaskStatus.active t.status && is_some t.ended_at

-- The number of affected rows.
abbrev pub affected {ℓ} : {A : Type ℓ} → Db → List A → ℕ
affected d rows = length rows

module _ {A : Type 0} where
  -- `UPDATE tasks … RETURNING …`: `result` reads the changed rows.
  unfoldable pub update_tasks : (Db → Task → Bool) → (Task → Task) → (Db → List Task → A) → Action A
  update_tasks test change result = statement λ d.
      let tasks = update_rows (test d) change d.tasks in
      if any_row (λ t. not (task_check t)) tasks
      then none
      else some (result d (map change (select_rows (test d) d.tasks)), record d { tasks = tasks })

  unfoldable pub update_requests :
      (Db → Request → Bool) → (Request → Request) → (Db → List Request → A) → Action A
  update_requests test change result = statement λ d. some (
    result d (map change (select_rows (test d) d.requests)),
    record d { requests = update_rows (test d) change d.requests },
  )

  unfoldable pub update_grants :
      (Db → Grant → Bool) → (Grant → Grant) → (Db → List Grant → A) → Action A
  update_grants test change result = statement λ d. some (
    result d (map change (select_rows (test d) d.grants)),
    record d { grants = update_rows (test d) change d.grants },
  )

  unfoldable pub update_executions :
      (Db → Execution → Bool) → (Execution → Execution) → (Db → List Execution → A) → Action A
  update_executions test change result = statement λ d. some (
    result d (map change (select_rows (test d) d.executions)),
    record d { executions = update_rows (test d) change d.executions },
  )

  unfoldable pub update_reclaims :
      (Db → Reclaim → Bool) → (Reclaim → Reclaim) → (Db → List Reclaim → A) → Action A
  update_reclaims test change result = statement λ d. some (
    result d (map change (select_rows (test d) d.reclaims)),
    record d { reclaims = update_rows (test d) change d.reclaims },
  )

unfoldable pub update_incidents : (Db → Incident → Bool) → (Incident → Incident) → Action (Unit {0})
update_incidents test change =
    statement λ d. some (tt, record d { incidents = update_rows (test d) change d.incidents })

-- `INSERT INTO tasks`: a primary key, and the agent must exist.
unfoldable pub insert_task : Task → Action (Unit {0})
insert_task t = statement λ d.
    if any_row (λ u. u.id == t.id) d.tasks
      || not (any_row (λ a. a.id == t.agent_id) d.accounts.agents)
      || not (task_check t)
    then none
    else some (tt, record d { tasks = insert_row t d.tasks })

-- `INSERT INTO authorization_requests … SELECT`: one row where `test` has a match, else none.
unfoldable pub insert_request : (Db → Bool) → Request → Action ℕ
insert_request test r = statement λ d.
    if not (test d)
    then some (0, d)
    else if any_row (λ q. q.id == r.id) d.requests || not (ltb r.created_at r.approval_deadline)
    then none
    else some (1, record d { requests = insert_row r d.requests })

-- The `CHECK` of `approvals`: an approval has an expiry for its grant, a rejection has none.
unfoldable pub decision_check : Decision → Option ℕ → Bool
decision_check Decision.approve expiry = is_some expiry
decision_check Decision.reject expiry = is_none expiry
decision_check Decision.other expiry = false

-- One approval for a request.
unfoldable pub insert_approval : Approval → Action (Unit {0})
insert_approval a = statement λ d.
    if any_row (λ b. b.id == a.id || b.request_id == a.request_id) d.approvals
      || not (any_row (λ r. r.id == a.request_id) d.requests)
      || not (decision_check a.decision a.grant_expires_at)
    then none
    else some (tt, record d { approvals = insert_row a d.approvals })

-- One grant for a request, and it expires after its approval.
unfoldable pub insert_grant : Grant → Action (Unit {0})
insert_grant g = statement λ d.
    if any_row (λ h. h.id == g.id || h.request_id == g.request_id) d.grants
      || not (any_row (λ r. r.id == g.request_id) d.requests)
      || not (ltb g.approved_at g.expires_at)
    then none
    else some (tt, record d { grants = insert_row g d.grants })

-- One execution for a grant; inserted where `test` has a match.
unfoldable pub insert_execution : (Db → Bool) → Execution → Action ℕ
insert_execution test e = statement λ d.
    if not (test d)
    then some (0, d)
    else if any_row (λ x. x.id == e.id || x.grant_id == e.grant_id) d.executions
    then none
    else some (1, record d { executions = insert_row e d.executions })

-- The attempts of one execution are numbered; `row` computes the new row from the table.
unfoldable pub insert_reclaim : (Db → Reclaim) → Action (Unit {0})
insert_reclaim row = statement λ d.
    let r = row d in
    if any_row (λ x. x.id == r.id || x.execution_id == r.execution_id && x.attempt == r.attempt)
        d.reclaims
      || not (any_row (λ e. e.id == r.execution_id) d.executions)
    then none
    else some (tt, record d { reclaims = insert_row r d.reclaims })

unfoldable pub insert_incident : Incident → Action (Unit {0})
insert_incident i = statement λ d.
    if any_row (λ x. x.id == i.id) d.incidents
      || not (any_row (λ r. r.id == i.reclaim_id) d.reclaims)
    then none
    else some (tt, record d { incidents = insert_row i d.incidents })

-- `INSERT INTO audit_events … SELECT`: a row for each match.
unfoldable pub insert_audit : (Db → List AuditEvent) → Action (Unit {0})
insert_audit rows = statement λ d. some (tt, record d { audit = d.audit ++ rows d })
