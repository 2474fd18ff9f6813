-- ===== src/Store/Evolution/CatalogStatements.antt =====
-- The statements on the catalog evolve the database.
use mathlib.Core.Path.{◌≡◌, refl, sym}
use mathlib.Core.Logic.{inl, inr}
use mathlib.Core.Bool.{Bool, true, false}
use mathlib.Core.List.{List}
use mathlib.Core.Option.{Option, some}
use Prim.Native.Nat.{ℕ}
use native.Mathlib.Omega.{arith}
use agent_key_vault_jit_acce.Prelude.Tests.{Bool-cases}
use agent_key_vault_jit_acce.Prelude.Rows.{any_row}
use agent_key_vault_jit_acce.Prelude.Evolves.{Evolves, Evolves-insert_row, Evolves-update_rows}
use agent_key_vault_jit_acce.Store.Tables.{
  Db, Uuid, Target, Credential, OperationSet, SafeOperation, OperationVersion,
  TargetOperationBinding, Catalog,
}
use agent_key_vault_jit_acce.Store.Action.Keeps.{Keeps}
use agent_key_vault_jit_acce.Store.Evolution.{DbEvolves}
use agent_key_vault_jit_acce.Store.Evolution.Owned.{
  TargetEvolves, CredentialEvolves, OperationSetEvolves, OperationEvolves, TargetEvolves-preorder,
  CredentialEvolves-preorder, OperationSetEvolves-preorder, OperationEvolves-preorder,
  BindingEvolves, BindingEvolves-preorder, ≡-preorder,
}
use agent_key_vault_jit_acce.Store.Evolution.Catalogs.{
  Allowed, by_catalog, Allowed-unless, unchanged, only_targets, only_credentials,
  only_operation_sets, only_operations, only_operation_versions, only_bindings, targets-evolve,
}
use agent_key_vault_jit_acce.Store.Catalog.Same.{same_config→≡}
use agent_key_vault_jit_acce.Store.Catalog.Statements.{
  refused, same_config, reconfigured, update_target_row, update_target_status,
  update_credential_status, insert_target, insert_credential, update_default_credential,
}
use agent_key_vault_jit_acce.Store.Catalog.Operations.{
  create_operation_set, insert_operation, insert_operation_version, update_operations,
  update_operation_sets, same_binding, merge_binding, upsert_binding,
}

-- A target in place: the configuration and its number change together.
reconfigured-evolves : (target t : Target) → TargetEvolves t (reconfigured target t)
reconfigured-evolves target t =
    elim (Bool-cases (same_config t.connection_config target.connection_config)) [
      | inl e ↦ rw e (record {
        identity = (refl, refl, refl);
        numbered = omega arith;
        configured = λ k. sym (same_config→≡ _ _ e);
      })
      | inr e ↦ rw e (record {
        identity = (refl, refl, refl);
        numbered = omega arith;
        configured = λ k. absurd (omega arith);
      })
    ]

-- The rest of a target may change freely.
kept-target :
    (t : Target) (credential : Option Uuid) (active : Bool)
    → TargetEvolves t (record t { default_credential_id = credential; active = active })
kept-target t credential active = record {
  identity = (refl, refl, refl);
  numbered = omega arith;
  configured = λ k. refl;
}

pub update_target_row-Keeps : (t : Target) → Keeps DbEvolves (update_target_row t)
unfolding update_target_row
update_target_row-Keeps t =
    by_catalog _
      λ d. Allowed-unless d.catalog _ _ _ (targets-evolve d.catalog _ _ (reconfigured-evolves t))

pub update_target_status-Keeps : (i : Uuid) (b : Bool) → Keeps DbEvolves (update_target_status i b)
unfolding update_target_status
update_target_status-Keeps i b =
    by_catalog _ λ d. targets-evolve d.catalog _ _ λ t. kept-target t t.default_credential_id b

pub update_default_credential-Keeps : (i j : Uuid) → Keeps DbEvolves (update_default_credential i j)
unfolding update_default_credential
update_default_credential-Keeps i j = by_catalog _ λ d.
    Allowed-unless d.catalog _ _ _
      (targets-evolve d.catalog _ _ λ t. kept-target t (some j) t.active)

pub update_credential_status-Keeps :
    (i : Uuid) (b : Bool) → Keeps DbEvolves (update_credential_status i b)
unfolding update_credential_status
update_credential_status-Keeps i b = by_catalog _ λ d. only_credentials d.catalog _ (
    Evolves-update_rows CredentialEvolves CredentialEvolves-preorder _ _ d.catalog.credentials
      λ c e. record { snapshot = refl })

pub insert_target-Keeps : (t : Target) → Keeps DbEvolves (insert_target t)
unfolding insert_target
insert_target-Keeps t = by_catalog _ λ d. Allowed-unless d.catalog _ _ _ (
    only_targets d.catalog _
      (Evolves-insert_row TargetEvolves TargetEvolves-preorder _ d.catalog.targets))

pub insert_credential-Keeps : (c : Credential) → Keeps DbEvolves (insert_credential c)
unfolding insert_credential
insert_credential-Keeps c = by_catalog _ λ d. Allowed-unless d.catalog _ _ _ (
    only_credentials d.catalog _
      (Evolves-insert_row CredentialEvolves CredentialEvolves-preorder _ d.catalog.credentials))

pub create_operation_set-Keeps : (s : OperationSet) → Keeps DbEvolves (create_operation_set s)
unfolding create_operation_set
create_operation_set-Keeps s = by_catalog _ λ d. Allowed-unless d.catalog _ _ _ (
    only_operation_sets d.catalog _ (
      Evolves-insert_row OperationSetEvolves OperationSetEvolves-preorder _
        d.catalog.operation_sets))

pub insert_operation-Keeps : (o : SafeOperation) → Keeps DbEvolves (insert_operation o)
unfolding insert_operation
insert_operation-Keeps o = by_catalog _ λ d. Allowed-unless d.catalog _ _ _ (
    only_operations d.catalog _
      (Evolves-insert_row OperationEvolves OperationEvolves-preorder _ d.catalog.operations))

pub insert_operation_version-Keeps :
    (v : OperationVersion) → Keeps DbEvolves (insert_operation_version v)
unfolding insert_operation_version
insert_operation_version-Keeps v = by_catalog _ λ d. Allowed-unless d.catalog _ _ _ (
    only_operation_versions d.catalog _
      (Evolves-insert_row ◌≡◌ ≡-preorder _ d.catalog.operation_versions))

pub update_operations-Keeps :
    (valid : Db → Bool) (test : SafeOperation → Bool) (change : SafeOperation → SafeOperation)
    → ((o : SafeOperation) → OperationEvolves o (change o))
    → Keeps DbEvolves (update_operations valid test change)
unfolding update_operations
update_operations-Keeps valid test change h = by_catalog _ λ d. Allowed-unless d.catalog _ _ _ (
    only_operations d.catalog _ (
      Evolves-update_rows OperationEvolves OperationEvolves-preorder test change
        d.catalog.operations λ o e. h o))

pub update_operation_sets-Keeps :
    (valid : Db → Bool) (test : OperationSet → Bool) (change : OperationSet → OperationSet)
    → ((s : OperationSet) → OperationSetEvolves s (change s))
    → Keeps DbEvolves (update_operation_sets valid test change)
unfolding update_operation_sets
update_operation_sets-Keeps valid test change h = by_catalog _ λ d. Allowed-unless d.catalog _ _ _ (
    only_operation_sets d.catalog _ (
      Evolves-update_rows OperationSetEvolves OperationSetEvolves-preorder test change
        d.catalog.operation_sets λ s e. h s))

merge_binding-Evolves :
    (b : TargetOperationBinding) (bs : List TargetOperationBinding)
    → Evolves BindingEvolves bs (merge_binding b bs)
unfolding merge_binding
merge_binding-Evolves b bs = elim (Bool-cases (any_row (same_binding b) bs)) [
  | inl e ↦
      rw (e, merge_binding)
        (Evolves-update_rows BindingEvolves BindingEvolves-preorder (same_binding b) _ bs
          λ x k. record { snapshot = refl })
  | inr e ↦ rw (e, merge_binding) (Evolves-insert_row BindingEvolves BindingEvolves-preorder _ bs)
]

bound-Allowed :
    (c : Catalog) (b : TargetOperationBinding) (can can_not : Bool)
    → Allowed {A = ℕ} c (elim can [
      | false ↦ some (0, c)
      | true ↦ refused can_not (1, record c { bindings = merge_binding b c.bindings })
    ])
bound-Allowed c b false n = unchanged c
bound-Allowed c b true n =
    Allowed-unless c n _ _ (only_bindings c _ (merge_binding-Evolves b c.bindings))

pub upsert_binding-Keeps : (b : TargetOperationBinding) → Keeps DbEvolves (upsert_binding b)
unfolding upsert_binding
upsert_binding-Keeps b = by_catalog _ λ d. bound-Allowed d.catalog b _ _
