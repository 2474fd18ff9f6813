-- ===== src/Store/Evolution/Changes.antt =====
-- A database with one table changed evolves, if the table does.
use mathlib.Core.Path.{◌≡◌}
use mathlib.Core.List.{List}
use agent_key_vault_jit_acce.Prelude.Evolves.{Evolves}
use agent_key_vault_jit_acce.Store.Tables.{
  Db, Task, Request, Approval, Grant, Execution, Reclaim, Incident, AuditEvent, Accounts, Catalog,
}
use agent_key_vault_jit_acce.Store.Keys.{KeepsKeys}
use agent_key_vault_jit_acce.Store.Evolution.{DbEvolves, DbEvolves-preorder}
use agent_key_vault_jit_acce.Store.Evolution.Owned.{AccountsEvolves, CatalogEvolves}
use agent_key_vault_jit_acce.Store.Evolution.Rows.{
  TaskEvolves, RequestEvolves, GrantEvolves, ExecutionEvolves, ReclaimEvolves, IncidentEvolves,
}

module _ (d : Db) where
  pub still : DbEvolves d d
  still = DbEvolves-preorder.reflexive d

  pub only_tasks :
      (rows : List Task)
      → Evolves TaskEvolves d.tasks rows
      → DbEvolves d (record d { tasks = rows })
  only_tasks rows h = record {
    accounts = still.accounts;
    catalog = still.catalog;
    tasks = h;
    requests = still.requests;
    approvals = still.approvals;
    grants = still.grants;
    grant_keys = still.grant_keys;
    executions = still.executions;
    reclaims = still.reclaims;
    incidents = still.incidents;
    audit = still.audit;
  }

  pub only_requests :
      (rows : List Request)
      → Evolves RequestEvolves d.requests rows
      → DbEvolves d (record d { requests = rows })
  only_requests rows h = record {
    accounts = still.accounts;
    catalog = still.catalog;
    tasks = still.tasks;
    requests = h;
    approvals = still.approvals;
    grants = still.grants;
    grant_keys = still.grant_keys;
    executions = still.executions;
    reclaims = still.reclaims;
    incidents = still.incidents;
    audit = still.audit;
  }

  pub only_approvals :
      (rows : List Approval)
      → Evolves ◌≡◌ d.approvals rows
      → DbEvolves d (record d { approvals = rows })
  only_approvals rows h = record {
    accounts = still.accounts;
    catalog = still.catalog;
    tasks = still.tasks;
    requests = still.requests;
    approvals = h;
    grants = still.grants;
    grant_keys = still.grant_keys;
    executions = still.executions;
    reclaims = still.reclaims;
    incidents = still.incidents;
    audit = still.audit;
  }

  pub only_grants :
      (rows : List Grant)
      → Evolves GrantEvolves d.grants rows
      → KeepsKeys d.grants rows
      → DbEvolves d (record d { grants = rows })
  only_grants rows h k = record {
    accounts = still.accounts;
    catalog = still.catalog;
    tasks = still.tasks;
    requests = still.requests;
    approvals = still.approvals;
    grants = h;
    grant_keys = k;
    executions = still.executions;
    reclaims = still.reclaims;
    incidents = still.incidents;
    audit = still.audit;
  }

  pub only_executions :
      (rows : List Execution)
      → Evolves ExecutionEvolves d.executions rows
      → DbEvolves d (record d { executions = rows })
  only_executions rows h = record {
    accounts = still.accounts;
    catalog = still.catalog;
    tasks = still.tasks;
    requests = still.requests;
    approvals = still.approvals;
    grants = still.grants;
    grant_keys = still.grant_keys;
    executions = h;
    reclaims = still.reclaims;
    incidents = still.incidents;
    audit = still.audit;
  }

  pub only_reclaims :
      (rows : List Reclaim)
      → Evolves ReclaimEvolves d.reclaims rows
      → DbEvolves d (record d { reclaims = rows })
  only_reclaims rows h = record {
    accounts = still.accounts;
    catalog = still.catalog;
    tasks = still.tasks;
    requests = still.requests;
    approvals = still.approvals;
    grants = still.grants;
    grant_keys = still.grant_keys;
    executions = still.executions;
    reclaims = h;
    incidents = still.incidents;
    audit = still.audit;
  }

  pub only_incidents :
      (rows : List Incident)
      → Evolves IncidentEvolves d.incidents rows
      → DbEvolves d (record d { incidents = rows })
  only_incidents rows h = record {
    accounts = still.accounts;
    catalog = still.catalog;
    tasks = still.tasks;
    requests = still.requests;
    approvals = still.approvals;
    grants = still.grants;
    grant_keys = still.grant_keys;
    executions = still.executions;
    reclaims = still.reclaims;
    incidents = h;
    audit = still.audit;
  }

  pub only_audit :
      (rows : List AuditEvent) → Evolves ◌≡◌ d.audit rows → DbEvolves d (record d { audit = rows })
  only_audit rows h = record {
    accounts = still.accounts;
    catalog = still.catalog;
    tasks = still.tasks;
    requests = still.requests;
    approvals = still.approvals;
    grants = still.grants;
    grant_keys = still.grant_keys;
    executions = still.executions;
    reclaims = still.reclaims;
    incidents = still.incidents;
    audit = h;
  }

  pub only_accounts :
      (s : Accounts) → AccountsEvolves d.accounts s → DbEvolves d (record d { accounts = s })
  only_accounts s h = record {
    accounts = h;
    catalog = still.catalog;
    tasks = still.tasks;
    requests = still.requests;
    approvals = still.approvals;
    grants = still.grants;
    grant_keys = still.grant_keys;
    executions = still.executions;
    reclaims = still.reclaims;
    incidents = still.incidents;
    audit = still.audit;
  }

  pub only_catalog :
      (c : Catalog) → CatalogEvolves d.catalog c → DbEvolves d (record d { catalog = c })
  only_catalog c h = record {
    accounts = still.accounts;
    catalog = h;
    tasks = still.tasks;
    requests = still.requests;
    approvals = still.approvals;
    grants = still.grants;
    grant_keys = still.grant_keys;
    executions = still.executions;
    reclaims = still.reclaims;
    incidents = still.incidents;
    audit = still.audit;
  }
