-- ===== src/Store/Catalog/Operations.antt =====
-- internal/store/operation_postgres.go: operation sets, operations, their versions and bindings.
use mathlib.Core.Bool.{Bool, true, false, not, ◌&&◌, ◌||◌}
use mathlib.Core.Option.{none, some}
use mathlib.Core.List.{List, [], ◌∷◌}
use Prim.Native.Nat.{ℕ}
use agent_key_vault_jit_acce.Prelude.Tests.{◌==◌, ltb, leb, is_none, holds_value}
use agent_key_vault_jit_acce.Prelude.Rows.{
  length, any_row, count_rows, update_rows, insert_row, bytes_eq,
}
use agent_key_vault_jit_acce.Domain.Catalog.{ConnectorType, CredentialType, ExecutorType}
use agent_key_vault_jit_acce.Store.Tables.{
  Db, Uuid, Time, Bytes, Request, OperationSet, SafeOperation, OperationVersion,
  TargetOperationBinding, Catalog,
}
use agent_key_vault_jit_acce.Store.Action.{
  Action, unavailable, ◌>>=◌, ◌>>◌, pure, when_raise, transaction,
}
use agent_key_vault_jit_acce.Store.Catalog.Statements.{
  catalog_statement, refused, is_blank, known_executor, known_risk, revoke_requested,
}

abbrev pub hash_size : ℕ
hash_size = 32

unfoldable pub is_user : Db → Uuid → Bool
is_user d id = any_row (λ u. u.id == id) d.accounts.users

unfoldable pub create_operation_set : OperationSet → Action (Unit {0})
create_operation_set s = catalog_statement λ d.
    refused
      (any_row (λ x. x.id == s.id || bytes_eq x.name s.name) d.catalog.operation_sets
        || is_blank s.name
        || not (known_executor s.executor_type)
        || not (is_user d s.created_by))
      (
        tt,
        record d.catalog {
          operation_sets =
              insert_row (record s { updated_by = s.created_by; updated_at = s.created_at })
                d.catalog.operation_sets;
        },
      )

-- `[a-z0-9_]`
abbrev pub key_character : ℕ → Bool
key_character c = leb 97 c && leb c 122 || leb 48 c && leb c 57 || c == 95

-- `operation_key ~ '^[a-z][a-z0-9_]{0,63}$'`
unfoldable pub is_operation_key : Bytes → Bool
is_operation_key [] = false
is_operation_key (c ∷ cs) =
    leb 97 c && leb c 122 && leb (length cs) 63 && not (any_row (λ x. not (key_character x)) cs)

-- `INSERT INTO operations … current_version … NULL`
unfoldable pub insert_operation : SafeOperation → Action (Unit {0})
insert_operation o = catalog_statement λ d.
    refused
      (any_row
          (λ x. x.id == o.id || x.operation_set_id == o.operation_set_id && bytes_eq x.key o.key)
          d.catalog.operations
        || not (any_row (λ s. s.id == o.operation_set_id) d.catalog.operation_sets)
        || not (is_operation_key o.key)
        || not (is_user d o.created_by))
      (
        tt,
        record d.catalog {
          operations =
              insert_row
                (record o {
                  current_version = none;
                  updated_by = o.created_by;
                  updated_at = o.created_at;
                })
                d.catalog.operations;
        },
      )

-- The key and the checks of `operation_versions`.
unfoldable pub insert_operation_version : OperationVersion → Action (Unit {0})
insert_operation_version v = catalog_statement λ d.
    refused
      (any_row (λ x. x.operation_id == v.operation_id && x.version == v.version)
          d.catalog.operation_versions
        || not (any_row (λ o. o.id == v.operation_id) d.catalog.operations)
        || not (ltb 0 v.version)
        || is_blank v.name
        || not (known_risk v.risk_level)
        || not (length v.definition_hash == hash_size)
        || not (is_user d v.created_by))
      (tt, record d.catalog { operation_versions = insert_row v d.catalog.operation_versions })

-- `UPDATE operations SET … WHERE id=$1 AND …`; `valid` says that the users it names exist.
unfoldable pub update_operations :
    (Db → Bool) → (SafeOperation → Bool) → (SafeOperation → SafeOperation) → Action ℕ
update_operations valid test change = catalog_statement λ d.
    refused (any_row test d.catalog.operations && not (valid d)) (
      count_rows test d.catalog.operations,
      record d.catalog { operations = update_rows test change d.catalog.operations },
    )

unfoldable pub update_operation_sets :
    (Db → Bool) → (OperationSet → Bool) → (OperationSet → OperationSet) → Action ℕ
update_operation_sets valid test change = catalog_statement λ d.
    refused (any_row test d.catalog.operation_sets && not (valid d)) (
      count_rows test d.catalog.operation_sets,
      record d.catalog { operation_sets = update_rows test change d.catalog.operation_sets },
    )

unfoldable pub create_operation_with_version : SafeOperation → OperationVersion → Action (Unit {0})
create_operation_with_version item version = transaction do
  insert_operation item
  insert_operation_version version
  rows ←
      update_operations (λ d. true) (λ o. o.id == item.id && is_none o.current_version)
        (λ o. record o { current_version = some version.version })
  when_raise (not (rows == 1)) unavailable

unfoldable pub publish_operation_version : OperationVersion → ℕ → Uuid → Time → Action (Unit {0})
publish_operation_version version expected_current actor_id at = transaction do
  insert_operation_version version
  rows ←
      update_operations (λ d. is_user d actor_id)
        (λ o. o.id == version.operation_id && holds_value o.current_version expected_current)
        (λ o. record o {
          current_version = some version.version;
          updated_by = actor_id;
          updated_at = at;
        })
  when_raise (not (rows == 1)) unavailable

-- `if !active { … }`
unfoldable pub unless_active : Bool → Action ℕ → Action ℕ
unless_active true revoke = pure 0
unless_active false revoke = revoke

-- The request is for an operation of the set.
abbrev pub of_set : Uuid → Db → Request → Bool
of_set id d r =
    r.request_format == 2
    && any_row (λ o. r.operation_id == o.id && o.operation_set_id == id) d.catalog.operations

unfoldable pub set_operation_set_active : Uuid → Bool → Uuid → Time → Action ℕ
set_operation_set_active id active actor_id at = transaction do
  rows ←
      update_operation_sets (λ d. is_user d actor_id) (λ s. s.id == id)
        (λ s. record s { active = active; updated_by = actor_id; updated_at = at })
  when_raise (not (rows == 1)) unavailable
  unless_active active (revoke_requested (of_set id) at)

unfoldable pub set_operation_active : Uuid → Bool → Uuid → Time → Action ℕ
set_operation_active id active actor_id at = transaction do
  rows ←
      update_operations (λ d. is_user d actor_id) (λ o. o.id == id)
        (λ o. record o { active = active; updated_by = actor_id; updated_at = at })
  when_raise (not (rows == 1)) unavailable
  unless_active active (revoke_requested (λ d r. r.operation_id == id && r.request_format == 2) at)

-- Which credentials an executor can use on which connectors.
unfoldable pub can_execute : ExecutorType → ConnectorType → CredentialType → Bool
can_execute ExecutorType.http ConnectorType.http CredentialType.api_key = true
can_execute ExecutorType.http ConnectorType.http CredentialType.access_token = true
can_execute ExecutorType.http ConnectorType.http CredentialType.username_password = true
can_execute ExecutorType.postgresql ConnectorType.postgresql CredentialType.username_password = true
can_execute ExecutorType.postgresql ConnectorType.postgresql CredentialType.postgresql_dynamic =
    true
can_execute ExecutorType.sign connector CredentialType.transit_key = true
can_execute _ _ _ = false

-- The `SELECT` that a binding is inserted from has a row.
unfoldable pub can_bind : Catalog → TargetOperationBinding → Bool
unfolding can_execute
can_bind c b =
    any_row
      (λ t.
        t.id == b.target_id
        && any_row
            (λ k.
              holds_value t.default_credential_id k.id
              && any_row
                  (λ o.
                    o.id == b.operation_id
                    && any_row
                        (λ s.
                          s.id == o.operation_set_id
                          && can_execute s.executor_type t.connector_type k.credential_type)
                        c.operation_sets
                    && any_row (λ v. v.operation_id == o.id && v.version == b.version)
                        c.operation_versions)
                  c.operations)
            c.credentials)
      c.targets

abbrev pub same_binding : TargetOperationBinding → TargetOperationBinding → Bool
same_binding b x = x.target_id == b.target_id && x.operation_id == b.operation_id

-- `ON CONFLICT (target_id,operation_id) DO UPDATE`, else a new row.
unfoldable pub merge_binding :
    TargetOperationBinding → List TargetOperationBinding → List TargetOperationBinding
merge_binding b bs = elim (any_row (same_binding b) bs) [
  | true ↦
      update_rows (same_binding b)
        (λ x. record x {
          version = b.version;
          active = b.active;
          policy = b.policy;
          updated_by = b.updated_by;
          updated_at = b.updated_at;
        })
        bs
  | false ↦ insert_row (record b { created_by = b.updated_by; created_at = b.updated_at }) bs
]

unfoldable pub upsert_binding : TargetOperationBinding → Action ℕ
upsert_binding b = catalog_statement λ d. elim (can_bind d.catalog b) [
  | false ↦ some (0, d.catalog)
  | true ↦
      refused (not (is_user d b.updated_by))
        (1, record d.catalog { bindings = merge_binding b d.catalog.bindings })
]

-- The request is for the bound operation, at a version that is not bound any more.
abbrev pub outdated : TargetOperationBinding → Db → Request → Bool
outdated b d r =
    r.request_format == 2
    && r.target_id == b.target_id
    && r.operation_id == b.operation_id
    && (not (b.version == r.operation_version) || not b.active)

unfoldable pub upsert_target_operation_binding : TargetOperationBinding → Action ℕ
upsert_target_operation_binding b = transaction do
  rows ← upsert_binding b
  when_raise (not (rows == 1)) unavailable
  revoke_requested (outdated b) b.updated_at
