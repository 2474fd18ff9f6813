-- ===== src/Proxy/Postgres.antt =====
-- internal/proxy/postgres.go: `PostgreSQLProxy.Execute`, a statement or a transaction of several.
-- The connection of pgx.go is a parameter.
use mathlib.Core.Bool.{Bool, true, false, not, ◌&&◌, ◌||◌}
use mathlib.Core.Option.{Option, none, some}
use mathlib.Core.List.{List, [], ◌∷◌, ◌++◌}
use Prim.Native.Nat.{ℕ, ◌*◌}
use agent_key_vault_jit_acce.Prelude.Tests.{is_empty, is_some}
use agent_key_vault_jit_acce.Domain.Catalog.{ConnectionConfig, ConnectorType, CredentialType}
use agent_key_vault_jit_acce.Domain.Execution.{ExecutionStatus}
use agent_key_vault_jit_acce.Domain.Values.{Uuid, Time, Bytes, OperationKind, text}
use agent_key_vault_jit_acce.Store.Execution.{record_lease}
use agent_key_vault_jit_acce.Store.Recovery.{second}
use agent_key_vault_jit_acce.Proxy.Plan.{Plan, Operation, SqlStatement}
use agent_key_vault_jit_acce.Proxy.Machine.{
  Proxy, Answer, execution_denied, ContextState, connects, begins, executes, commits, rolls_back,
  disconnects, pure, or_fail, try_store, perform, ◌>>=◌, ◌>>◌,
}
use agent_key_vault_jit_acce.Proxy.Vault.{
  ExecutionClient, Values, Handle, Reference, ReferenceKind, acquire, close,
}
use agent_key_vault_jit_acce.Proxy.Prepare.{
  Draws, Begun, prepare, finalize_execution, give_up_as, target_failure,
}
use agent_key_vault_jit_acce.Proxy.Sign.{is_kind}

-- `ExecContext`, then `RowsAffected`.
pub data Executed : Type 0 where
  not_executed : ContextState → Executed
  uncounted : Executed
  affected : ℕ → Executed

-- `SQLConnectionFactory`, `SQLDatabase` and `SQLTransaction`; `false` where they fail.
pub record SqlConnection : Type 0 where
  pub connect : ConnectionConfig → Values → Answer Bool
  pub begin : Answer Bool
  pub execute : Bytes → List Bytes → Answer Executed
  pub commit : Answer Bool
  pub rollback : Answer Bool
  pub disconnect : Answer Bool

abbrev pub statement_timeout : Time
statement_timeout = 60 * second

abbrev pub batch_timeout : Time
batch_timeout = 300 * second

abbrev pub is_postgresql : ConnectorType → Bool
is_postgresql ConnectorType.postgresql = true
is_postgresql _ = false

abbrev pub is_dynamic : CredentialType → Bool
is_dynamic CredentialType.postgresql_dynamic = true
is_dynamic _ = false

abbrev pub has_statements : Option (List SqlStatement) → Bool
has_statements none = false
has_statements (some statements) = not (is_empty statements)

unfoldable pub accepts_postgresql : Plan → Operation → Bool
accepts_postgresql plan operation =
    (is_kind OperationKind.postgresql_statement operation.kind
      || is_kind OperationKind.postgresql_transaction operation.kind)
    && has_statements operation.postgresql
    && is_postgresql plan.target.connector_type

unfoldable pub database_failure : ContextState → ExecutionStatus × Bytes
unfolding target_failure
database_failure state = target_failure state (text "TARGET_OPERATION_FAILED")

abbrev pub join_cleanup : Bool → Proxy Bool → Proxy Bool
join_cleanup prior cleanup = do cleaned ← cleanup; pure (prior && cleaned)

module _ (sql : SqlConnection) (draws : Draws) where
  abbrev pub run : SqlStatement → Proxy Executed
  run statement =
      perform (sql.execute statement.sql statement.arguments)
        (executes statement.sql statement.arguments)

  -- The rows of each statement.
  unfoldable pub counted : Uuid → Proxy Bool → Executed → Proxy (List ℕ)
  unfolding database_failure
  counted execution_id cleanup (not_executed state) =
      give_up_as draws execution_id (database_failure state) cleanup
  counted execution_id cleanup uncounted =
      give_up_as draws execution_id (ExecutionStatus.failed, text "TARGET_RESULT_INVALID") cleanup
  counted execution_id cleanup (affected rows) = do
    finalize_execution draws execution_id ExecutionStatus.succeeded [] cleanup
    pure (rows ∷ [])

  unfoldable pub execute_statement : Uuid → SqlStatement → Proxy Bool → Proxy (List ℕ)
  unfolding counted
  execute_statement execution_id statement cleanup = do
    executed ← run statement
    counted execution_id cleanup executed

  -- A statement of a transaction: it goes on with the rows, or rolls back.
  unfoldable pub counted_in : Uuid → Proxy Bool → (ℕ → Proxy (List ℕ)) → Executed → Proxy (List ℕ)
  unfolding database_failure
  counted_in execution_id cleanup next (not_executed state) = do
    rolled_back ← perform sql.rollback rolls_back
    give_up_as draws execution_id (database_failure state) (join_cleanup rolled_back cleanup)
  counted_in execution_id cleanup next uncounted = do
    rolled_back ← perform sql.rollback rolls_back
    give_up_as draws execution_id (ExecutionStatus.failed, text "TARGET_RESULT_INVALID")
        (join_cleanup rolled_back cleanup)
  counted_in execution_id cleanup next (affected rows) = next rows

  unfoldable pub committed : Uuid → Proxy Bool → List ℕ → Bool → Proxy (List ℕ)
  committed execution_id cleanup rows false =
      give_up_as draws execution_id (ExecutionStatus.failed, text "TARGET_COMMIT_FAILED") cleanup
  committed execution_id cleanup rows true = do
    finalize_execution draws execution_id ExecutionStatus.succeeded [] cleanup
    pure rows

  unfoldable pub run_statements : Uuid → Proxy Bool → List SqlStatement → List ℕ → Proxy (List ℕ)
  unfolding counted_in committed
  run_statements execution_id cleanup [] rows = do
    done ← perform sql.commit commits
    committed execution_id cleanup rows done
  run_statements execution_id cleanup (statement ∷ rest) rows = do
    executed ← run statement
    counted_in execution_id cleanup
        (λ count. run_statements execution_id cleanup rest (rows ++ (count ∷ []))) executed

  unfoldable pub begun_batch : Uuid → List SqlStatement → Proxy Bool → Bool → Proxy (List ℕ)
  unfolding run_statements
  begun_batch execution_id statements cleanup false =
      give_up_as draws execution_id (ExecutionStatus.failed, text "TARGET_UNAVAILABLE") cleanup
  begun_batch execution_id statements cleanup true =
      run_statements execution_id cleanup statements []

  unfoldable pub execute_batch : Uuid → List SqlStatement → Proxy Bool → Proxy (List ℕ)
  unfolding begun_batch
  execute_batch execution_id statements cleanup = do
    begun ← perform sql.begin begins
    begun_batch execution_id statements cleanup begun

  -- A statement runs the first one, a transaction all of them.
  unfoldable pub execute_kind :
      Uuid → Option OperationKind → List SqlStatement → Proxy Bool → Proxy (List ℕ)
  unfolding execute_statement execute_batch
  execute_kind execution_id (some OperationKind.postgresql_statement) (statement ∷ rest) cleanup =
      execute_statement execution_id statement cleanup
  execute_kind execution_id _ statements cleanup = execute_batch execution_id statements cleanup

  module _ (client : ExecutionClient) where
    abbrev pub disconnect_and_close : Handle → Proxy Bool
    disconnect_and_close handle = do
      disconnected ← perform sql.disconnect disconnects
      closed ← close client handle
      pure (disconnected && closed)

    unfoldable pub connected : Begun → List SqlStatement → Handle → Bool → Proxy (List ℕ)
    unfolding execute_kind
    connected begun statements handle false =
        give_up_as draws begun.execution_id (ExecutionStatus.failed, text "TARGET_UNAVAILABLE")
          (close client handle)
    connected begun statements handle true =
        execute_kind begun.execution_id begun.operation.kind statements
          (disconnect_and_close handle)

    unfoldable pub after_lease : Begun → List SqlStatement → Handle → Bool → Proxy (List ℕ)
    unfolding connected
    after_lease begun statements handle false =
        give_up_as draws begun.execution_id (ExecutionStatus.failed, text "EXECUTION_STATE_FAILED")
          (close client handle)
    after_lease begun statements handle true = do
      opened ← perform (sql.connect begun.plan.target.connection_config handle.values) connects
      connected begun statements handle opened

    -- Is the lease on record, if there is one?
    unfoldable pub note_lease : Uuid → Bytes → Proxy Bool
    note_lease execution_id [] = pure true
    note_lease execution_id (c ∷ cs) = do
      noted ← try_store (record_lease execution_id (c ∷ cs))
      pure (is_some noted)

    unfoldable pub with_lease : Begun → List SqlStatement → Option Handle → Proxy (List ℕ)
    unfolding after_lease note_lease
    with_lease begun statements none =
        give_up_as draws begun.execution_id (ExecutionStatus.failed, text "VAULT_UNAVAILABLE")
          (pure true)
    with_lease begun statements (some handle) = do
      noted ← note_lease begun.execution_id handle.lease_id
      after_lease begun statements handle noted

    abbrev pub time_to_live : Option OperationKind → Time
    time_to_live (some OperationKind.postgresql_transaction) = batch_timeout
    time_to_live _ = statement_timeout

    abbrev pub reference : ReferenceKind → Begun → Reference
    reference kind begun = record {
      kind = kind;
      path = begun.plan.credential.vault_path;
      version = begun.plan.credential.vault_version;
      ttl = time_to_live begun.operation.kind;
    }

    -- The way to the credential, if the target allows one for its kind.
    unfoldable pub reference_kind : Plan → Option ReferenceKind
    reference_kind plan = elim (is_dynamic plan.credential.credential_type) [
      | true ↦ some ReferenceKind.postgresql_dynamic
      | false ↦ elim plan.target.connection_config.require_dynamic [
        | true ↦ none
        | false ↦ some ReferenceKind.static_kv
      ]
    ]

    unfoldable pub by_reference : Begun → List SqlStatement → Option ReferenceKind → Proxy (List ℕ)
    unfolding with_lease
    by_reference begun statements none =
        give_up_as draws begun.execution_id
          (ExecutionStatus.failed, text "DYNAMIC_CREDENTIAL_REQUIRED") (pure true)
    by_reference begun statements (some kind) = do
      handle ← acquire client (reference kind begun)
      with_lease begun statements handle

    unfoldable pub postgresql_with : Begun → Proxy (List ℕ)
    unfolding by_reference reference_kind
    postgresql_with begun = do
      statements ← or_fail begun.operation.postgresql execution_denied
      by_reference begun statements (reference_kind begun.plan)

unfoldable pub execute_postgresql :
    SqlConnection
    → (Bytes → Option Operation)
    → ExecutionClient
    → Draws
    → Uuid
    → Uuid
    → Uuid
    → Proxy (List ℕ)
execute_postgresql sql decode client draws request_id agent_id task_id =
    prepare decode accepts_postgresql request_id agent_id task_id draws
    >>= postgresql_with sql draws client
