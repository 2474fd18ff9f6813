-- ===== src/Store/Catalog/Finds.antt =====
-- internal/store/operation_postgres.go: the finders. The order of a listing is the database's: a
-- parameter, which sorts the rows.
use mathlib.Core.Bool.{not, ◌&&◌}
use mathlib.Core.Option.{bind}
use mathlib.Core.List.{List}
use Prim.Native.Nat.{ℕ}
use agent_key_vault_jit_acce.Prelude.Tests.{◌==◌, is_none}
use agent_key_vault_jit_acce.Prelude.Rows.{length, find_row, select_rows, collect}
use agent_key_vault_jit_acce.Store.Tables.{
  Uuid, OperationSet, SafeOperation, OperationVersion, Catalog,
}
use agent_key_vault_jit_acce.Store.Action.{
  Action, unavailable, internal, ◌>>=◌, ◌>>◌, pure, when_raise, or_raise, query,
}
use agent_key_vault_jit_acce.Store.Catalog.Joins.{
  ResolvedOperation, PublicOperation, version_row, public_row, active_row,
}

abbrev pub hash_size : ℕ
hash_size = 32

-- A null `current_version` cannot be scanned.
unfoldable pub find_operation_version :
    Uuid → ℕ → Action (OperationSet × SafeOperation × OperationVersion)
find_operation_version operation_id version = do
  found ← query (λ d. version_row d.catalog operation_id version)
  row ← or_raise found unavailable
  when_raise (is_none row.1.current_version) internal
  when_raise (not (length row.2.definition_hash == hash_size)) unavailable
  pure row

unfoldable pub public_operations : Uuid → Catalog → List PublicOperation
public_operations target_id c =
    collect (public_row c) (select_rows (λ b. b.target_id == target_id && b.active) c.bindings)

unfoldable pub list_active_target_operations :
    (List PublicOperation → List PublicOperation) → Uuid → Action (List PublicOperation)
list_active_target_operations order target_id =
    query (λ d. order (public_operations target_id d.catalog))

unfoldable pub find_active_operation_for_request : Uuid → Uuid → ℕ → Action ResolvedOperation
find_active_operation_for_request target_id operation_id version = do
  found ← query (λ d.
      bind
        (find_row
          (λ b.
            b.target_id == target_id
            && b.operation_id == operation_id
            && b.version == version
            && b.active)
          d.catalog.bindings)
        (active_row d.catalog))
  resolved ← or_raise found unavailable
  when_raise (is_none resolved.operation.current_version) internal
  when_raise (not (length resolved.version.definition_hash == hash_size)) unavailable
  pure resolved
