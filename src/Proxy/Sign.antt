-- ===== src/Proxy/Sign.antt =====
-- internal/proxy/sign.go: `SignProxy.Execute`.
use mathlib.Core.Bool.{Bool, true, false, ◌&&◌}
use mathlib.Core.Option.{Option, none, some}
use mathlib.Core.List.{[]}
use agent_key_vault_jit_acce.Prelude.Tests.{is_some}
use agent_key_vault_jit_acce.Domain.Catalog.{CredentialType}
use agent_key_vault_jit_acce.Domain.Execution.{ExecutionStatus}
use agent_key_vault_jit_acce.Domain.Values.{Uuid, Bytes, OperationKind, text, same_kind}
use agent_key_vault_jit_acce.Proxy.Plan.{Plan, Operation}
use agent_key_vault_jit_acce.Proxy.Machine.{
  Proxy, execution_denied, ContextState, cancelled, signs, pure, or_fail, perform, ◌>>=◌, ◌>>◌,
}
use agent_key_vault_jit_acce.Proxy.Vault.{ExecutionClient}
use agent_key_vault_jit_acce.Proxy.Prepare.{Draws, Begun, prepare, finalize_execution, give_up}

abbrev pub is_kind : OperationKind → Option OperationKind → Bool
is_kind k none = false
is_kind k (some l) = same_kind k l

abbrev pub is_transit : CredentialType → Bool
is_transit CredentialType.transit_key = true
is_transit _ = false

unfoldable pub accepts_sign : Plan → Operation → Bool
accepts_sign plan operation =
    is_transit plan.credential.credential_type
    && is_kind OperationKind.sign operation.kind
    && is_some operation.signing

abbrev pub sign_failure : ContextState → ExecutionStatus × Bytes
sign_failure cancelled = (ExecutionStatus.cancelled, text "SIGN_CANCELLED")
sign_failure _ = (ExecutionStatus.failed, text "SIGN_FAILED")

unfoldable pub signed : Draws → Uuid → Option Bytes × ContextState → Proxy Bytes
signed draws execution_id (none, state) =
    let (status, code) = sign_failure state in
    give_up draws execution_id status code (text "SIGN_FAILED") (pure true)
signed draws execution_id (some signature, state) = do
  finalize_execution draws execution_id ExecutionStatus.succeeded [] (pure true)
  pure signature

unfoldable pub sign_with : ExecutionClient → Draws → Begun → Proxy Bytes
unfolding signed
sign_with client draws begun = do
  parameters ← or_fail begun.operation.signing execution_denied
  answer ←
      perform
        (client.sign begun.plan.credential.vault_path parameters.digest_algorithm parameters.digest)
        (signs begun.plan.credential.vault_path parameters.digest_algorithm parameters.digest)
  signed draws begun.execution_id answer

unfoldable pub execute_sign :
    (Bytes → Option Operation) → ExecutionClient → Draws → Uuid → Uuid → Uuid → Proxy Bytes
execute_sign decode client draws request_id agent_id task_id =
    prepare decode accepts_sign request_id agent_id task_id draws >>= sign_with client draws
