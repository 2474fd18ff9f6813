-- ===== src/Store/Evolution/Catalogs.antt =====
-- A statement on the catalog evolves the database, if the catalog evolves.
use mathlib.Core.Path.{◌≡◌, subst}
use mathlib.Core.Bool.{Bool, true, false}
use mathlib.Core.Option.{Option, none, some}
use mathlib.Core.List.{List}
use agent_key_vault_jit_acce.Prelude.Tests.{if◌then◌else◌}
use agent_key_vault_jit_acce.Prelude.Evolves.{Evolves, Evolves-update_rows}
use agent_key_vault_jit_acce.Prelude.Rows.{update_rows}
use agent_key_vault_jit_acce.Store.Tables.{
  Db, Target, Credential, OperationSet, SafeOperation, OperationVersion, TargetOperationBinding,
  Catalog,
}
use agent_key_vault_jit_acce.Store.Action.Keeps.{Keeps, Keeps-statement}
use agent_key_vault_jit_acce.Store.Evolution.{DbEvolves, DbEvolves-preorder}
use agent_key_vault_jit_acce.Store.Evolution.Owned.{
  TargetEvolves, CredentialEvolves, OperationSetEvolves, OperationEvolves, BindingEvolves,
  CatalogEvolves, TargetEvolves-preorder, CatalogEvolves-preorder,
}
use agent_key_vault_jit_acce.Store.Evolution.Changes.{only_catalog}
use agent_key_vault_jit_acce.Store.Catalog.Statements.{with_catalog, catalog_statement}

-- What a statement may answer: nothing, or a catalog that has evolved.
abbrev pub Allowed : {A : Type 0} → Catalog → Option (A × Catalog) → Type 0
Allowed c none = Unit
Allowed c (some (a, e)) = CatalogEvolves c e

catalog_result :
    {A : Type 0} (d : Db) (p : Option (A × Catalog)) (a : A) (e : Db)
    → Allowed d.catalog p
    → with_catalog d p ≡ some (a, e)
    → DbEvolves d e
catalog_result d none a e k h = absurd (cc)
catalog_result d (some (x, c)) a e k h =
    let same : record d { catalog = c } ≡ e = cc in subst (DbEvolves d) same (only_catalog d c k)

pub by_catalog :
    {A : Type 0} (f : Db → Option (A × Catalog))
    → ((d : Db) → Allowed d.catalog (f d))
    → Keeps DbEvolves (catalog_statement f)
unfolding catalog_statement
by_catalog f h = Keeps-statement DbEvolves-preorder _ λ d a e p. catalog_result d (f d) a e (h d) p

-- The answer of a statement that checks its constraints.
pub Allowed-unless :
    {A : Type 0} (c : Catalog) (b : Bool) (a : A) (e : Catalog)
    → CatalogEvolves c e
    → Allowed {A = A} c (if b then none else some (a, e))
Allowed-unless c true a e k = tt
Allowed-unless c false a e k = k

module _ (c : Catalog) where
  pub unchanged : CatalogEvolves c c
  unchanged = CatalogEvolves-preorder.reflexive c

  pub only_targets :
      (rows : List Target)
      → Evolves TargetEvolves c.targets rows
      → CatalogEvolves c (record c { targets = rows })
  only_targets rows h = record {
    targets = h;
    credentials = unchanged.credentials;
    operation_sets = unchanged.operation_sets;
    bindings = unchanged.bindings;
    operations = unchanged.operations;
    operation_versions = unchanged.operation_versions;
  }

  pub only_credentials :
      (rows : List Credential)
      → Evolves CredentialEvolves c.credentials rows
      → CatalogEvolves c (record c { credentials = rows })
  only_credentials rows h = record {
    targets = unchanged.targets;
    credentials = h;
    operation_sets = unchanged.operation_sets;
    bindings = unchanged.bindings;
    operations = unchanged.operations;
    operation_versions = unchanged.operation_versions;
  }

  pub only_operation_sets :
      (rows : List OperationSet)
      → Evolves OperationSetEvolves c.operation_sets rows
      → CatalogEvolves c (record c { operation_sets = rows })
  only_operation_sets rows h = record {
    targets = unchanged.targets;
    credentials = unchanged.credentials;
    operation_sets = h;
    bindings = unchanged.bindings;
    operations = unchanged.operations;
    operation_versions = unchanged.operation_versions;
  }

  pub only_operations :
      (rows : List SafeOperation)
      → Evolves OperationEvolves c.operations rows
      → CatalogEvolves c (record c { operations = rows })
  only_operations rows h = record {
    targets = unchanged.targets;
    credentials = unchanged.credentials;
    operation_sets = unchanged.operation_sets;
    bindings = unchanged.bindings;
    operations = h;
    operation_versions = unchanged.operation_versions;
  }

  pub only_operation_versions :
      (rows : List OperationVersion)
      → Evolves ◌≡◌ c.operation_versions rows
      → CatalogEvolves c (record c { operation_versions = rows })
  only_operation_versions rows h = record {
    targets = unchanged.targets;
    credentials = unchanged.credentials;
    operation_sets = unchanged.operation_sets;
    bindings = unchanged.bindings;
    operations = unchanged.operations;
    operation_versions = h;
  }

  pub only_bindings :
      (rows : List TargetOperationBinding)
      → Evolves BindingEvolves c.bindings rows
      → CatalogEvolves c (record c { bindings = rows })
  only_bindings rows h = record {
    targets = unchanged.targets;
    credentials = unchanged.credentials;
    operation_sets = unchanged.operation_sets;
    bindings = h;
    operations = unchanged.operations;
    operation_versions = unchanged.operation_versions;
  }

  pub targets-evolve :
      (test : Target → Bool) (change : Target → Target)
      → ((t : Target) → TargetEvolves t (change t))
      → CatalogEvolves c (record c { targets = update_rows test change c.targets })
  targets-evolve test change h =
      only_targets _
        (Evolves-update_rows TargetEvolves TargetEvolves-preorder test change c.targets λ t e. h t)
