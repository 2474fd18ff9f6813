-- ===== src/Examples/Changes.antt =====
-- Runs of the catalog's services.
use mathlib.Core.Path.{◌≡◌, refl}
use mathlib.Core.Bool.{true, false}
use mathlib.Core.Option.{Option, some, bind}
use mathlib.Core.List.{[], ◌∷◌}
use Prim.Native.Nat.{◌*◌}
use agent_key_vault_jit_acce.Prelude.Rows.{any_row, bytes_eq, find_row, select_rows, update_rows}
use agent_key_vault_jit_acce.Domain.Accounts.{User}
use agent_key_vault_jit_acce.Domain.Catalog.{
  ConnectorType, CredentialType, ConnectionConfig, TargetOperationBinding,
}
use agent_key_vault_jit_acce.Store.Tables.{Bytes, text}
use agent_key_vault_jit_acce.Store.Action.{
  ok, ◌>>=◌, when_raise, mask, query, or_raise, pure, go_on, land, next_fails, rest_faults, settle,
  spend, statement, transaction, with_error,
}
use agent_key_vault_jit_acce.Operation.Text.{is_space}
use agent_key_vault_jit_acce.Operation.Text.Runes.{
  trim_space, runes, runes_behind, decode_rune, leading_space,
}
use agent_key_vault_jit_acce.Service.Identity.{can_manage_users_and_targets}
use agent_key_vault_jit_acce.Service.Catalog.Connections.{
  NetLibrary, check_methods, is_web_uri, fits_http, validate_connection,
}
use agent_key_vault_jit_acce.Service.Catalog.{
  bind_operation, compatible_types, compatible_kind, fits_by_kind,
}
use agent_key_vault_jit_acce.Store.Statements.{update_grants}
use agent_key_vault_jit_acce.Store.Catalog.{default_credential, find_target_with_default_credential}
use agent_key_vault_jit_acce.Store.Catalog.Joins.{find_version, version_row}
use agent_key_vault_jit_acce.Store.Catalog.Finds.{find_operation_version}
use agent_key_vault_jit_acce.Store.Catalog.Statements.{catalog_statement, revoke_requested}
use agent_key_vault_jit_acce.Store.Catalog.Operations.{
  can_bind, can_execute, is_user, merge_binding, upsert_binding, upsert_target_operation_binding,
}
use agent_key_vault_jit_acce.Service.Catalog.Bindings.{IsBound, bind_operation-IsBound}
use agent_key_vault_jit_acce.Service.Catalog.Accepted.{IsStored, validate_connection-IsStored}
use agent_key_vault_jit_acce.Examples.{connection_config, approved_db, approved_world, minute}

-- Every URI is the same one, and texts are in capitals already.
abbrev net : NetLibrary
net = record {
  parse_request_uri =
      λ u. some (record { scheme = text "https"; host = text "api.example.com"; has_user = false });
  is_ip = λ h. false;
  to_upper = λ b. b;
}

-- The only user, as an actor.
abbrev admin : User
admin = record {
  id = 21;
  username = text "owner";
  is_admin = true;
  approve_all = false;
  owner_active = true;
}

abbrev new_binding : TargetOperationBinding
new_binding = record {
  target_id = 31;
  operation_id = 51;
  version = 2;
  active = false;
  policy = text "{}";
  created_by = 21;
  updated_by = 21;
  created_at = 2 * minute;
  updated_at = 2 * minute;
}

-- Every template is of a GET.
abbrev method_of : Bytes → Option Bytes
method_of template = some (text "GET")

bound :
    (bind_operation method_of admin 31 51 2 false (2 * minute) approved_world).0 ≡ ok new_binding
unfolding bind_operation ◌>>=◌ when_raise can_manage_users_and_targets mask
    find_target_with_default_credential query or_raise default_credential find_row
    find_operation_version version_row bind find_version pure compatible_types compatible_kind
    fits_by_kind any_row bytes_eq select_rows update_rows go_on land next_fails rest_faults settle
    spend statement transaction with_error can_bind can_execute is_user merge_binding upsert_binding
    upsert_target_operation_binding catalog_statement revoke_requested update_grants
bound = refl

bind_operation-IsBound_example :
    IsBound method_of admin 31 51 2 false
      (2 * minute)
      approved_db
      new_binding
      (bind_operation method_of admin 31 51 2 false (2 * minute) approved_world).1.db
bind_operation-IsBound_example =
    bind_operation-IsBound method_of admin 31 51 2 false (2 * minute) approved_world new_binding
      bound

abbrev spaced_config : ConnectionConfig
spaced_config = record connection_config { allowed_http_methods = text " GET" ∷ [] }

accepted :
    validate_connection net ConnectorType.http spaced_config CredentialType.api_key
    ≡ some connection_config
unfolding validate_connection fits_http is_web_uri check_methods any_row bytes_eq trim_space runes
    runes_behind decode_rune leading_space is_space
accepted = refl

validate_connection-IsStored_example :
    IsStored net ConnectorType.http CredentialType.api_key spaced_config connection_config
validate_connection-IsStored_example =
    validate_connection-IsStored net ConnectorType.http spaced_config connection_config
      CredentialType.api_key accepted
