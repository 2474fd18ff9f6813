-- ===== src/Store/Evolution.antt =====
-- How the database may change: each table as its rows may, and the grants keep their keys.
pub mod Rows
pub mod Revoked
pub mod Owned
pub mod Changes
pub mod Catalogs
pub mod CatalogStatements
pub mod CatalogMethods
pub mod Logins
pub mod AccountMethods
pub mod Statements
pub mod Rules
pub mod Tasks
pub mod Decisions
pub mod Executions
pub mod Reclaims
pub mod Revocations
use mathlib.Core.Path.{◌≡◌}
use agent_key_vault_jit_acce.Prelude.Evolves.{Evolves, IsPreorder, Evolves-refl, Evolves-trans}
use agent_key_vault_jit_acce.Store.Tables.{Db}
use agent_key_vault_jit_acce.Store.Keys.{KeepsKeys, KeepsKeys-preorder}
use agent_key_vault_jit_acce.Store.Evolution.Owned.{
  CatalogEvolves, AccountsEvolves, CatalogEvolves-preorder, AccountsEvolves-preorder, ≡-preorder,
}
use agent_key_vault_jit_acce.Store.Evolution.Rows.{
  TaskEvolves, RequestEvolves, GrantEvolves, ExecutionEvolves, ReclaimEvolves, TaskEvolves-preorder,
  RequestEvolves-preorder, GrantEvolves-preorder, ExecutionEvolves-preorder,
  ReclaimEvolves-preorder, IncidentEvolves, IncidentEvolves-preorder,
}

-- Approvals and audit events are never changed.
pub record DbEvolves (d e : Db) : Type 0 where
  pub accounts : AccountsEvolves d.accounts e.accounts
  pub catalog : CatalogEvolves d.catalog e.catalog
  pub tasks : Evolves TaskEvolves d.tasks e.tasks
  pub requests : Evolves RequestEvolves d.requests e.requests
  pub approvals : Evolves ◌≡◌ d.approvals e.approvals
  pub grants : Evolves GrantEvolves d.grants e.grants
  pub grant_keys : KeepsKeys d.grants e.grants
  pub executions : Evolves ExecutionEvolves d.executions e.executions
  pub reclaims : Evolves ReclaimEvolves d.reclaims e.reclaims
  pub incidents : Evolves IncidentEvolves d.incidents e.incidents
  pub audit : Evolves ◌≡◌ d.audit e.audit

pub DbEvolves-preorder : IsPreorder DbEvolves
DbEvolves-preorder = record {
  reflexive = λ d. record {
    accounts = AccountsEvolves-preorder.reflexive d.accounts;
    catalog = CatalogEvolves-preorder.reflexive d.catalog;
    tasks = Evolves-refl TaskEvolves TaskEvolves-preorder d.tasks;
    requests = Evolves-refl RequestEvolves RequestEvolves-preorder d.requests;
    approvals = Evolves-refl ◌≡◌ ≡-preorder d.approvals;
    grants = Evolves-refl GrantEvolves GrantEvolves-preorder d.grants;
    grant_keys = KeepsKeys-preorder.reflexive d.grants;
    executions = Evolves-refl ExecutionEvolves ExecutionEvolves-preorder d.executions;
    reclaims = Evolves-refl ReclaimEvolves ReclaimEvolves-preorder d.reclaims;
    incidents = Evolves-refl IncidentEvolves IncidentEvolves-preorder d.incidents;
    audit = Evolves-refl ◌≡◌ ≡-preorder d.audit;
  };
  transitive = λ {x} {y} {z} a b. record {
    accounts = AccountsEvolves-preorder.transitive a.accounts b.accounts;
    catalog = CatalogEvolves-preorder.transitive a.catalog b.catalog;
    tasks = Evolves-trans TaskEvolves TaskEvolves-preorder x.tasks y.tasks z.tasks a.tasks b.tasks;
    requests =
        Evolves-trans RequestEvolves RequestEvolves-preorder x.requests y.requests z.requests
          a.requests b.requests;
    approvals =
        Evolves-trans ◌≡◌ ≡-preorder x.approvals y.approvals z.approvals a.approvals b.approvals;
    grants =
        Evolves-trans GrantEvolves GrantEvolves-preorder x.grants y.grants z.grants a.grants
          b.grants;
    grant_keys = KeepsKeys-preorder.transitive a.grant_keys b.grant_keys;
    executions =
        Evolves-trans ExecutionEvolves ExecutionEvolves-preorder x.executions y.executions
          z.executions a.executions b.executions;
    reclaims =
        Evolves-trans ReclaimEvolves ReclaimEvolves-preorder x.reclaims y.reclaims z.reclaims
          a.reclaims b.reclaims;
    incidents =
        Evolves-trans IncidentEvolves IncidentEvolves-preorder x.incidents y.incidents z.incidents
          a.incidents b.incidents;
    audit = Evolves-trans ◌≡◌ ≡-preorder x.audit y.audit z.audit a.audit b.audit;
  };
}
