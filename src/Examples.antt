-- ===== src/Examples.antt =====
-- Runs of the theorems on a small database: one agent, one target, one operation. Here the data,
-- and histories of the store.
pub mod Services
pub mod Paths
pub mod Inputs
pub mod Logins
pub mod Catalogs
pub mod Proxies
pub mod Transactions
pub mod Changes
use mathlib.Core.Path.{◌≡◌, refl}
use mathlib.Core.Bool.{true, false}
use mathlib.Core.Option.{Option, none, some}
use mathlib.Core.List.{List, [], ◌∷◌}
use Prim.Native.Nat.{ℕ, ◌+◌, ◌-◌, ◌*◌, ◌≤◌}
use agent_key_vault_jit_acce.Prelude.Rows.{any_row, select_rows, update_rows, collect, bytes_eq}
use agent_key_vault_jit_acce.Prelude.Evolves.{All, Any}
use agent_key_vault_jit_acce.Domain.Task.{TaskStatus}
use agent_key_vault_jit_acce.Domain.Task
use agent_key_vault_jit_acce.Domain.Request.{RequestStatus}
use agent_key_vault_jit_acce.Domain.Grant.{GrantStatus}
use agent_key_vault_jit_acce.Domain.Catalog.{
  ConnectorType, CredentialType, ExecutorType, RiskLevel, ConnectionConfig,
}
use agent_key_vault_jit_acce.Store.Tables.{
  Db, Bytes, OperationKind, Task, Request, Grant, Catalog, Accounts, text,
}
use agent_key_vault_jit_acce.Store.Action.{
  World, ok, err, internal, next_fails, rest_faults, spend, pure, go_on, ◌>>=◌, when_raise,
  with_error, mask, land, statement, settle, transaction,
}
use agent_key_vault_jit_acce.Store.Statements.{
  task_check, update_tasks, update_requests, update_grants,
}
use agent_key_vault_jit_acce.Store.Authorization.{
  ClaimContext, has_active_task, is_bound, is_current,
}
use agent_key_vault_jit_acce.Store.Claims.{claimable, claim_grant, claim_result, claim_approved}
use agent_key_vault_jit_acce.Store.Claims.Authorized.{Authorizes}
use agent_key_vault_jit_acce.Store.Tasks.{
  active_task_of, executions_of, end_active_task, silent_since,
}
use agent_key_vault_jit_acce.Store.Lifecycle.{
  SweepResult, is_one_of, revoke_lost, sweep_expired_and_lost,
}
use agent_key_vault_jit_acce.Store.History.{Call, claims, ends_task, perform}
use agent_key_vault_jit_acce.Store.History.Claims.{claim_count, claim_count-le_one}
use agent_key_vault_jit_acce.Service.Approvals.{claim}
use agent_key_vault_jit_acce.Service.Approvals.Claims.{claim-Authorizes}
use agent_key_vault_jit_acce.Service.Tasks.{end_task}
use agent_key_vault_jit_acce.Service.Tasks.Ends.{TaskOver, GrantStopped, end_task-stops}
use agent_key_vault_jit_acce.Service.Lifecycle.{agent_lost_after, sweep}
use agent_key_vault_jit_acce.Service.Lifecycle.Sweeps.{
  RequestTimely, GrantTimely, TaskAlive, sweep-leaves,
}
use agent_key_vault_jit_acce.Prelude.Rows.{find_row, insert_ordered, order_rows}
use agent_key_vault_jit_acce.Prelude.Int.{pos}
use agent_key_vault_jit_acce.Domain.Execution.{ExecutionStatus}
use agent_key_vault_jit_acce.Store.Tables.{Decision, Approval, Execution}
use agent_key_vault_jit_acce.Store.Action.{query, or_raise}
use agent_key_vault_jit_acce.Store.Statements.{
  insert_grant, insert_approval, decision_check, update_executions,
}
use agent_key_vault_jit_acce.Store.Authorization.{
  context_row, scanned, find_decision_context, decide_pending, lock_active_task, decidable,
  insert_grant_if,
}
use agent_key_vault_jit_acce.Store.Recovery.{
  RecoveryItem, is_stuck, is_recoverable, recovery_items, mark_stuck_and_list_recovery,
}
use agent_key_vault_jit_acce.Service.Identity.{User, can_approve}
use agent_key_vault_jit_acce.Service.Approvals.{decide, make_grant, refuse_expired}
use agent_key_vault_jit_acce.Service.Approvals.Decides.{DecisionOutcome, decide-ok}
use agent_key_vault_jit_acce.Service.Lifecycle.{Turn, RecoveryResult, recovery_batch, recover}
use agent_key_vault_jit_acce.Service.Lifecycle.Recovers.{recover-counts}
use agent_key_vault_jit_acce.Operation.Text.{
  Text, codes, text_eq, is_member, contains, contains_any, utf8, split, join, escapes, escape_bytes,
  path_escape,
}
use agent_key_vault_jit_acce.Operation.Path.{
  PathSegment, literal, placeholder, slash, starts_with, starts_with_two, ends_with, drop_first,
  drop_last, braced, braces, is_last, path_refused, unsafe_segment, validate_placeholder,
  validate_literal, validate_part, validate_parts, validate_split, validate_path,
  forbidden_in_argument, any_forbidden, unsafe_path_argument, path_parts, resolve_path,
}
use agent_key_vault_jit_acce.Operation.Path.Resolves.{Matches, resolve_path-segments}

-- Thirty-two bytes.
abbrev hash : Bytes
hash =
    1 ∷ 2 ∷ 3 ∷ 4 ∷ 5 ∷ 6 ∷ 7 ∷ 8 ∷ 1 ∷ 2 ∷ 3 ∷ 4 ∷ 5 ∷ 6 ∷ 7 ∷ 8 ∷ 1 ∷ 2 ∷ 3 ∷ 4 ∷ 5 ∷ 6 ∷ 7 ∷ 8
    ∷ 1 ∷ 2 ∷ 3 ∷ 4 ∷ 5 ∷ 6 ∷ 7 ∷ 8 ∷ []

abbrev minute : ℕ
minute = 60000000000

abbrev accounts : Accounts
accounts = record {
  users =
      record {
        id = 21;
        username = text "owner";
        password_hash = text "secret";
        is_admin = true;
        approve_all = false;
        active = true;
        created_at = 0;
      }
      ∷ [];
  web_sessions = [];
  agents =
      record { id = 11; owner_user_id = 21; name = text "agent"; active = true; created_at = 0 }
      ∷ [];
  agent_tokens = [];
}

abbrev connection_config : ConnectionConfig
connection_config = record {
  base_url = text "https://api.example.com";
  allowed_http_methods = text "GET" ∷ [];
  host = [];
  port = 0;
  database = [];
  tls_mode = [];
  require_dynamic = false;
}

abbrev catalog : Catalog
catalog = record {
  targets =
      record {
        id = 31;
        name = text "api";
        description = [];
        connector_type = ConnectorType.http;
        connection_config = connection_config;
        config_version = 3;
        default_credential_id = some 41;
        active = true;
        created_at = 0;
      }
      ∷ [];
  credentials =
      record {
        id = 41;
        alias = text "key";
        credential_type = CredentialType.api_key;
        target_id = 31;
        active = true;
        vault_provider = text "OPENBAO";
        vault_path = text "akv/data/key";
        vault_version = none;
        created_at = 0;
      }
      ∷ [];
  bindings =
      record {
        target_id = 31;
        operation_id = 51;
        version = 2;
        active = true;
        policy = [];
        created_by = 21;
        updated_by = 21;
        created_at = 0;
        updated_at = 0;
      }
      ∷ [];
  operations =
      record {
        id = 51;
        operation_set_id = 61;
        key = text "read";
        current_version = some 2;
        active = true;
        created_by = 21;
        updated_by = 21;
        created_at = 0;
        updated_at = 0;
      }
      ∷ [];
  operation_sets =
      record {
        id = 61;
        name = text "reads";
        description = [];
        executor_type = ExecutorType.http;
        active = true;
        created_by = 21;
        updated_by = 21;
        created_at = 0;
        updated_at = 0;
      }
      ∷ [];
  operation_versions =
      record {
        operation_id = 51;
        version = 2;
        name = text "read";
        description = [];
        operation_kind = OperationKind.http;
        risk_level = RiskLevel.low;
        arguments_schema = [];
        execution_template = [];
        definition_hash = hash;
        created_by = 21;
        created_at = 0;
      }
      ∷ [];
}

abbrev task : Task
task = record {
  id = 71;
  agent_id = 11;
  status = TaskStatus.active;
  created_at = minute;
  last_heartbeat_at = minute;
  ended_at = none;
}

abbrev request_with : RequestStatus → Request
request_with status = record {
  id = 81;
  agent_id = 11;
  task_id = 71;
  target_id = 31;
  credential_id = 41;
  request_format = 2;
  operation_id = 51;
  operation_version = 2;
  arguments_snapshot = 0 ∷ [];
  definition_hash = hash;
  target_config_version = 3;
  operation_kind = OperationKind.http;
  operation_snapshot = 0 ∷ [];
  operation_hash = hash;
  reason = 1 ∷ [];
  status = status;
  created_at = minute;
  approval_deadline = 5 * minute;
}

abbrev grant : Grant
grant = record {
  id = 91;
  request_id = 81;
  agent_id = 11;
  task_id = 71;
  target_id = 31;
  credential_id = 41;
  operation_hash = hash;
  approved_at = minute;
  expires_at = 3 * minute;
  status = GrantStatus.approved;
  claimed_at = none;
  completed_at = none;
  revoked_at = none;
}

abbrev approved_db : Db
approved_db = record {
  accounts = accounts;
  catalog = catalog;
  tasks = task ∷ [];
  requests = request_with RequestStatus.approved ∷ [];
  approvals = [];
  grants = grant ∷ [];
  executions = [];
  reclaims = [];
  incidents = [];
  audit = [];
}

abbrev approved_world : World
approved_world = record { db = approved_db; faults = [] }

abbrev claim_context : ClaimContext
claim_context = record {
  grant_id = 91;
  agent_id = 11;
  task_id = 71;
  target_id = 31;
  credential_id = 41;
  operation_hash = hash;
}

abbrev claim_twice : List Call
claim_twice = claims claim_context (2 * minute) ∷ claims claim_context (2 * minute) ∷ []

claim_count-le_one_example : claim_count 91 claim_twice approved_world ≤ 1
claim_count-le_one_example = claim_count-le_one 91 claim_twice approved_world (tt, tt)

claimed : (claim claim_context (2 * minute) approved_world).0 ≡ ok (claim_grant (2 * minute) grant)
unfolding claim claim_approved claim_result claimable has_active_task is_current is_bound any_row
    select_rows update_rows bytes_eq update_grants statement land spend next_fails rest_faults ◌>>=◌
    go_on when_raise mask with_error pure
claimed = refl

claim-Authorizes_example :
    Any
      (λ x.
        Authorizes claim_context (2 * minute) approved_db x
        × (claim_grant (2 * minute) grant ≡ claim_grant (2 * minute) x))
      (grant ∷ [])
claim-Authorizes_example =
    claim-Authorizes claim_context (2 * minute) approved_world (claim_grant (2 * minute) grant)
      claimed
