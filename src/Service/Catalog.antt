-- ===== src/Service/Catalog.antt =====
-- internal/catalog/service.go and operation_service.go: the changes of the catalog, and what an
-- agent's request is resolved to. The repository of operations is there. A version that is not
-- positive is 0, and the method of an HTTP template is decoded by a parameter.
pub mod Connections
pub mod Bindings
pub mod Sound
pub mod Accepted
use mathlib.Core.Bool.{Bool, true, false, not, ◌&&◌, ◌||◌}
use mathlib.Core.Option.{Option, none, some}
use mathlib.Core.List.{List, [], ◌∷◌}
use Prim.Native.Nat.{ℕ}
use agent_key_vault_jit_acce.Prelude.Tests.{◌==◌, is_none, is_some, holds_value}
use agent_key_vault_jit_acce.Domain.Values.{Uuid, Time, Bytes, OperationKind, text}
use agent_key_vault_jit_acce.Domain.Accounts.{User}
use agent_key_vault_jit_acce.Domain.Catalog.{
  ConnectorType, CredentialType, ExecutorType, ConnectionConfig, Target, Credential,
  OperationVersion, TargetOperationBinding,
}
use agent_key_vault_jit_acce.Store.Action.{
  Action, forbidden, invalid_input, unavailable, ◌>>=◌, ◌>>◌, pure, when_raise, or_raise, mask,
}
use agent_key_vault_jit_acce.Store.Catalog.{
  find_target_with_default_credential, find_active_target_and_default_credential,
}
use agent_key_vault_jit_acce.Store.Catalog
use agent_key_vault_jit_acce.Store.Catalog.Operations.{upsert_target_operation_binding}
use agent_key_vault_jit_acce.Store.Catalog.Operations
use agent_key_vault_jit_acce.Store.Catalog.Joins.{ResolvedOperation}
use agent_key_vault_jit_acce.Store.Catalog.Finds.{
  find_operation_version, find_active_operation_for_request,
}
use agent_key_vault_jit_acce.Service.Identity.{can_manage_users_and_targets}
use agent_key_vault_jit_acce.Service.Catalog.Connections.{
  NetLibrary, is_one_of, validate_connection,
}

unfoldable pub compatible_kind : ExecutorType → OperationKind → Bool
compatible_kind ExecutorType.http OperationKind.http = true
compatible_kind ExecutorType.postgresql OperationKind.postgresql_statement = true
compatible_kind ExecutorType.postgresql OperationKind.postgresql_transaction = true
compatible_kind ExecutorType.sign OperationKind.sign = true
compatible_kind _ _ = false

unfoldable pub compatible_types : ExecutorType → ConnectorType → CredentialType → Bool
compatible_types ExecutorType.http ConnectorType.http CredentialType.api_key = true
compatible_types ExecutorType.http ConnectorType.http CredentialType.access_token = true
compatible_types ExecutorType.http ConnectorType.http CredentialType.username_password = true
compatible_types ExecutorType.postgresql ConnectorType.postgresql CredentialType.username_password =
    true
compatible_types ExecutorType.postgresql ConnectorType.postgresql
      CredentialType.postgresql_dynamic =
    true
compatible_types ExecutorType.sign _ CredentialType.transit_key = true
compatible_types _ _ _ = false

abbrev pub compatible_target : ExecutorType → Target → Credential → Bool
compatible_target executor target credential =
    compatible_types executor target.connector_type credential.credential_type

abbrev pub allows_method : Target → Option Bytes → Bool
allows_method target none = false
allows_method target (some method) = is_one_of target.connection_config.allowed_http_methods method

unfoldable pub fits_by_kind :
    (Bytes → Option Bytes) → OperationKind → OperationVersion → Target → Bool
fits_by_kind method_of OperationKind.http definition target =
    allows_method target (method_of definition.execution_template)
fits_by_kind method_of _ definition target = true

abbrev pub definition_fits_target : (Bytes → Option Bytes) → OperationVersion → Target → Bool
definition_fits_target method_of definition target =
    fits_by_kind method_of definition.operation_kind definition target

abbrev pub refuses_change : User → Uuid → Bool
refuses_change actor id = not (can_manage_users_and_targets actor) || id == 0

unfoldable pub update_target :
    NetLibrary → User → Uuid → Bytes → ConnectionConfig → Time → Action (Unit {0})
update_target net actor target_id description configuration now = do
  when_raise (refuses_change actor target_id) forbidden
  found ← mask (λ e. invalid_input) (find_target_with_default_credential target_id)
  config ←
      or_raise
        (validate_connection net found.0.connector_type configuration found.1.credential_type)
        invalid_input
  Catalog.update_target (record found.0 { description = description; connection_config = config })
      now
  pure tt

unfoldable pub set_target_active : User → Uuid → Bool → Time → Action (Unit {0})
set_target_active actor target_id active now = do
  when_raise (refuses_change actor target_id) forbidden
  Catalog.set_target_active target_id active now
  pure tt

unfoldable pub set_credential_active : User → Uuid → Bool → Time → Action (Unit {0})
set_credential_active actor credential_id active now = do
  when_raise (refuses_change actor credential_id) forbidden
  Catalog.set_credential_active credential_id active now
  pure tt

unfoldable pub set_operation_set_active : User → Uuid → Bool → Time → Action (Unit {0})
set_operation_set_active actor id active now = do
  when_raise (refuses_change actor id) forbidden
  Operations.set_operation_set_active id active actor.id now
  pure tt

unfoldable pub set_operation_active : User → Uuid → Bool → Time → Action (Unit {0})
set_operation_active actor id active now = do
  when_raise (refuses_change actor id) forbidden
  Operations.set_operation_active id active actor.id now
  pure tt

unfoldable pub bind_operation :
    (Bytes → Option Bytes) → User → Uuid → Uuid → ℕ → Bool → Time → Action TargetOperationBinding
bind_operation method_of actor target_id operation_id version active now = do
  when_raise (refuses_change actor target_id || operation_id == 0 || version == 0) forbidden
  found ← mask (λ e. unavailable) (find_target_with_default_credential target_id)
  operation ← mask (λ e. invalid_input) (find_operation_version operation_id version)
  when_raise
      (not (compatible_target operation.0.executor_type found.0 found.1)
        || not (compatible_kind operation.0.executor_type operation.2.operation_kind)
        || not (definition_fits_target method_of operation.2 found.0))
      invalid_input
  let binding : TargetOperationBinding = record {
    target_id = target_id;
    operation_id = operation_id;
    version = version;
    active = active;
    policy = text "{}";
    created_by = actor.id;
    updated_by = actor.id;
    created_at = now;
    updated_at = now;
  }
  upsert_target_operation_binding binding
  pure binding

unfoldable pub resolve_for_request : Uuid → Action (Target × Credential)
resolve_for_request target_id = do
  when_raise (target_id == 0) invalid_input
  found ← mask (λ e. unavailable) (find_active_target_and_default_credential target_id)
  when_raise
      (not found.0.active
        || not found.1.active
        || not (holds_value found.0.default_credential_id found.1.id)
        || not (found.1.target_id == found.0.id))
      unavailable
  pure found

unfoldable pub resolve_operation_for_request : Uuid → Uuid → ℕ → Action ResolvedOperation
resolve_operation_for_request target_id operation_id version = do
  when_raise (target_id == 0 || operation_id == 0 || version == 0) invalid_input
  r ← mask (λ e. unavailable) (find_active_operation_for_request target_id operation_id version)
  when_raise
      (not r.target.active
        || not r.credential.active
        || not r.operation_set.active
        || not r.operation.active
        || not (r.version.version == version)
        || not (holds_value r.target.default_credential_id r.credential.id))
      unavailable
  when_raise
      (not (compatible_target r.operation_set.executor_type r.target r.credential)
        || not (compatible_kind r.operation_set.executor_type r.version.operation_kind))
      unavailable
  pure r
