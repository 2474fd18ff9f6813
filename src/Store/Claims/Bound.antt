-- ===== src/Store/Claims/Bound.antt =====
-- The `EXISTS` of a claim on the bound operation, said without the SQL that tests it.
use mathlib.Core.Path.{◌≡◌}
use mathlib.Core.Bool.{true, ◌&&◌}
use agent_key_vault_jit_acce.Prelude.Same.{bytes_eq→≡}
use agent_key_vault_jit_acce.Prelude.Tests.{◌==◌, ==→eq, and-eq-true}
use agent_key_vault_jit_acce.Prelude.Rows.{any_row, bytes_eq}
use agent_key_vault_jit_acce.Prelude.Evolves.{Any, Any-map, any_row-Any}
use agent_key_vault_jit_acce.Store.Tables.{
  Db, Catalog, Target, OperationSet, SafeOperation, OperationVersion, TargetOperationBinding,
  Request,
}
use agent_key_vault_jit_acce.Store.Authorization.{is_bound}

-- An active operation of an active set.
pub record OperationHolds (c : Catalog) (b : TargetOperationBinding) (o : SafeOperation)
    : Type 0 where
  pub operation : o.id ≡ b.operation_id
  pub active : o.active ≡ true
  pub operation_set :
      Any (λ (s : OperationSet). (s.id ≡ o.operation_set_id) × (s.active ≡ true)) c.operation_sets

-- The binding of the request's operation to its target is in force, at the requested version, whose
-- definition is the one that was requested.
pub record BindingHolds (c : Catalog) (r : Request) (t : Target) (b : TargetOperationBinding)
    : Type 0 where
  pub target : b.target_id ≡ t.id
  pub operation : b.operation_id ≡ r.operation_id
  pub version : b.version ≡ r.operation_version
  pub active : b.active ≡ true
  pub offered : Any (OperationHolds c b) c.operations
  pub definition :
      Any
        (λ (v : OperationVersion).
          (v.operation_id ≡ b.operation_id)
          × (v.version ≡ b.version)
          × (v.definition_hash ≡ r.definition_hash))
        c.operation_versions

module _ (d : Db) where
  set-row :
      (s : OperationSet) (o : SafeOperation)
      → (s.id == o.operation_set_id && s.active) ≡ true
      → (s.id ≡ o.operation_set_id) × (s.active ≡ true)
  set-row s o h = let (a, b) = and-eq-true _ _ h in (==→eq _ _ a, b)

  operation-row :
      (b : TargetOperationBinding) (o : SafeOperation)
      → (o.id == b.operation_id
          && o.active
          && any_row (λ s. s.id == o.operation_set_id && s.active) d.catalog.operation_sets)
        ≡ true
      → OperationHolds d.catalog b o
  operation-row b o h₁ =
      let (h₂, sets) = and-eq-true _ _ h₁ in
      let (id, active) = and-eq-true _ _ h₂ in
      record {
        operation = ==→eq _ _ id;
        active = active;
        operation_set =
            Any-map _ _ (λ s. set-row s o) d.catalog.operation_sets (any_row-Any _ _ sets);
      }

  version-row :
      (b : TargetOperationBinding) (r : Request) (v : OperationVersion)
      → (v.operation_id == b.operation_id
          && v.version == b.version
          && bytes_eq v.definition_hash r.definition_hash)
        ≡ true
      → (v.operation_id ≡ b.operation_id)
        × (v.version ≡ b.version)
        × (v.definition_hash ≡ r.definition_hash)
  version-row b r v h₁ =
      let (h₂, hash) = and-eq-true _ _ h₁ in
      let (id, version) = and-eq-true _ _ h₂ in
      (==→eq _ _ id, ==→eq _ _ version, bytes_eq→≡ _ _ hash)

  binding-row :
      (r : Request) (t : Target) (b : TargetOperationBinding)
      → (b.target_id == t.id
          && b.operation_id == r.operation_id
          && b.version == r.operation_version
          && b.active
          && any_row
              (λ o.
                o.id == b.operation_id
                && o.active
                && any_row (λ s. s.id == o.operation_set_id && s.active) d.catalog.operation_sets)
              d.catalog.operations
          && any_row
              (λ v.
                v.operation_id == b.operation_id
                && v.version == b.version
                && bytes_eq v.definition_hash r.definition_hash)
              d.catalog.operation_versions)
        ≡ true
      → BindingHolds d.catalog r t b
  binding-row r t b h₁ =
      let (h₂, versions) = and-eq-true _ _ h₁ in
      let (h₃, operations) = and-eq-true _ _ h₂ in
      let (h₄, active) = and-eq-true _ _ h₃ in
      let (h₅, version) = and-eq-true _ _ h₄ in
      let (target, operation) = and-eq-true _ _ h₅ in
      record {
        target = ==→eq _ _ target;
        operation = ==→eq _ _ operation;
        version = ==→eq _ _ version;
        active = active;
        offered = Any-map _ _ (operation-row b) d.catalog.operations (any_row-Any _ _ operations);
        definition =
            Any-map _ _ (version-row b r) d.catalog.operation_versions (any_row-Any _ _ versions);
      }

  pub bound-Any :
      (r : Request) (t : Target)
      → is_bound d.catalog t.id r.operation_id r.operation_version r.definition_hash ≡ true
      → Any (BindingHolds d.catalog r t) d.catalog.bindings
  unfolding is_bound
  bound-Any r t h = Any-map _ _ (binding-row r t) d.catalog.bindings (any_row-Any _ _ h)
