-- ===== src/Proxy/Plan.antt =====
-- internal/proxy/http.go `Plan` and internal/store/execution_postgres.go `LoadPlan`. The frozen
-- operation is decoded by json.Unmarshal: a parameter.
use mathlib.Core.Bool.{not, ◌&&◌}
use mathlib.Core.Option.{Option, some, bind}
use mathlib.Core.List.{List}
use Prim.Native.Nat.{ℕ}
use agent_key_vault_jit_acce.Prelude.Tests.{◌==◌, is_none}
use agent_key_vault_jit_acce.Prelude.Rows.{length, find_row}
use agent_key_vault_jit_acce.Store.Tables.{Db, Uuid, Bytes, OperationKind, Target, Credential}
use agent_key_vault_jit_acce.Store.Action.{
  Action, internal, ◌>>=◌, ◌>>◌, pure, when_raise, or_raise, query,
}

abbrev pub hash_size : ℕ
hash_size = 32

-- `operation.HTTPParameters`, `operation.SQLStatement` and `operation.SignParameters`.
pub record HttpParameters : Type 0 where
  pub method : Bytes
  pub path : Bytes
  pub query_values : List (Bytes × List Bytes)
  pub headers : List (Bytes × Bytes)
  pub body : Bytes

pub record SqlStatement : Type 0 where
  pub sql : Bytes
  pub arguments : List Bytes

pub record SignParameters : Type 0 where
  pub digest_algorithm : Bytes
  pub digest : Bytes

-- `operation.Operation`: the parameters that are there; `kind` may be any string, `none` if it is
-- no known one.
pub record Operation : Type 0 where
  pub kind : Option OperationKind
  pub http : Option HttpParameters
  pub postgresql : Option (List SqlStatement)
  pub signing : Option SignParameters

pub record Plan : Type 0 where
  pub request_id : Uuid
  pub grant_id : Uuid
  pub agent_id : Uuid
  pub task_id : Uuid
  pub target : Target
  pub credential : Credential
  pub operation_hash : Bytes
  pub operation_snapshot : Bytes

-- The joins on keys of the request, its grant, its target and its credential.
unfoldable pub plan_row : Db → Uuid → Option Plan
plan_row d request_id =
    bind (find_row (λ r. r.id == request_id && r.request_format == 2) d.requests) λ r.
      bind (find_row (λ g. g.request_id == r.id) d.grants) λ g.
        bind (find_row (λ t. t.id == r.target_id) d.catalog.targets) λ t.
          bind (find_row (λ c. c.id == r.credential_id) d.catalog.credentials) λ c. some (record {
            request_id = r.id;
            grant_id = g.id;
            agent_id = r.agent_id;
            task_id = r.task_id;
            target = t;
            credential = record c { target_id = t.id };
            operation_hash = r.operation_hash;
            operation_snapshot = r.operation_snapshot;
          })

-- A null default credential cannot be scanned.
unfoldable pub load_plan : (Bytes → Option Operation) → Uuid → Action (Plan × Operation)
load_plan decode request_id = do
  found ← query (λ d. plan_row d request_id)
  plan ← or_raise found internal
  when_raise (is_none plan.target.default_credential_id) internal
  when_raise (not (length plan.operation_hash == hash_size)) internal
  operation ← or_raise (decode plan.operation_snapshot) internal
  pure (plan, operation)
