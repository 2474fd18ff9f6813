-- ===== src/Proxy/Server.antt =====
-- internal/proxy/server.go: `authenticateAndDecode`, `Runtime.execute` and `writeExecutionError`.
-- Every part of the runtime is there. The reader of the JSON body, its limit of 4096 bytes
-- included, is a parameter; it gives the two identifiers, and an empty one is 0.
use mathlib.Core.Bool.{Bool, true, false, not, ◌||◌}
use mathlib.Core.Option.{Option, none, some, bind}
use mathlib.Core.List.{List, [], ◌∷◌}
use Prim.Native.Nat.{ℕ}
use agent_key_vault_jit_acce.Prelude.Tests.{is_empty, if◌then◌else◌, ◌==◌}
use agent_key_vault_jit_acce.Domain.Values.{Uuid, Time, Bytes, OperationKind, text}
use agent_key_vault_jit_acce.Service.Agents.{Principal, authenticate}
use agent_key_vault_jit_acce.Proxy.Plan.{Plan, Operation, load_plan}
use agent_key_vault_jit_acce.Proxy.Machine.{
  Proxy, Machine, Outcome, done, failed, Failure, execution_denied, public_error, pure, fail,
  when_fail, store, try_store, ◌>>=◌, ◌>>◌,
}
use agent_key_vault_jit_acce.Proxy.Vault.{ExecutionClient}
use agent_key_vault_jit_acce.Proxy.Prepare.{Draws}
use agent_key_vault_jit_acce.Proxy.Http.{HttpLibrary, HttpResponse, execute_http}
use agent_key_vault_jit_acce.Proxy.Postgres.{SqlConnection, execute_postgresql}
use agent_key_vault_jit_acce.Proxy.Sign.{execute_sign}

pub data Body : Type 0 where
  error : Bytes → Body
  http_result : HttpResponse → Body
  rows_affected : List ℕ → Body
  signature : Bytes → Body

pub record Response : Type 0 where
  pub status_code : ℕ
  pub body : Body

pub record ExecuteRequest : Type 0 where
  pub request_id : Uuid
  pub task_id : Uuid

abbrev pub ok_status : ℕ
ok_status = 200

-- `strings.TrimPrefix` where there is the prefix.
unfoldable pub after_prefix : Bytes → Bytes → Option Bytes
after_prefix [] xs = some xs
after_prefix (p ∷ ps) [] = none
after_prefix (p ∷ ps) (x ∷ xs) = if p == x then after_prefix ps xs else none

-- The token of the header, if there is one that is not empty.
unfoldable pub bearer_token : Bytes → Option Bytes
bearer_token header =
    bind (after_prefix (text "Bearer ") header) λ token. if is_empty token then none else some token

abbrev pub answer_error : ℕ → Bytes → Response
answer_error status code = record { status_code = status; body = Body.error code }

-- `writeExecutionError`
unfoldable pub execution_error : Failure → Response
execution_error execution_denied = answer_error 403 (text "EXECUTION_DENIED")
execution_error (public_error code) = answer_error 403 code

unfoldable pub respond : Outcome Body × Machine → Response × Machine
unfolding execution_error
respond (done body, m) = (record { status_code = ok_status; body = body }, m)
respond (failed f, m) = (execution_error f, m)

pub record Runtime : Type 1 where
  pub sha256 : Bytes → Bytes
  pub decode : Bytes → Option Operation
  pub client : ExecutionClient
  pub http : HttpLibrary
  pub sql : SqlConnection
  pub read_request : Bytes → Option ExecuteRequest

module _ (runtime : Runtime) (draws : Draws) where
  -- The switch on the plan's kind.
  unfoldable pub dispatch : Option OperationKind → Uuid → Uuid → Uuid → Proxy Body
  dispatch (some OperationKind.http) request_id agent_id task_id = do
    result ←
        execute_http runtime.http runtime.decode runtime.client draws request_id agent_id task_id
    pure (Body.http_result result)
  dispatch (some OperationKind.sign) request_id agent_id task_id = do
    result ← execute_sign runtime.decode runtime.client draws request_id agent_id task_id
    pure (Body.signature result)
  dispatch (some _) request_id agent_id task_id = do
    result ←
        execute_postgresql runtime.sql runtime.decode runtime.client draws request_id agent_id
          task_id
    pure (Body.rows_affected result)
  dispatch none request_id agent_id task_id = fail execution_denied

  -- The plan is the agent's, for the task that it names.
  unfoldable pub run_loaded : Uuid → ExecuteRequest → Plan × Operation → Proxy Body
  run_loaded agent_id input loaded = do
    when_fail (not (loaded.0.agent_id == agent_id) || not (loaded.0.task_id == input.task_id))
        execution_denied
    dispatch loaded.1.kind input.request_id agent_id input.task_id

  unfoldable pub run_request : Uuid → ExecuteRequest → Proxy Body
  run_request agent_id input =
      store execution_denied (load_plan runtime.decode input.request_id)
      >>= run_loaded agent_id input

  abbrev pub refuses_input : ExecuteRequest → Bool
  refuses_input input = input.request_id == 0 || input.task_id == 0

  unfoldable pub decoded : Uuid → Option ExecuteRequest → Machine → Response × Machine
  unfolding run_request respond
  decoded agent_id none m = (answer_error 400 (text "INVALID_REQUEST"), m)
  decoded agent_id (some input) m = elim (refuses_input input) [
    | true ↦ (answer_error 400 (text "INVALID_REQUEST"), m)
    | false ↦ respond (run_request agent_id input m)
  ]

  unfoldable pub authenticated : Bytes → Outcome (Option Principal) × Machine → Response × Machine
  unfolding decoded
  authenticated body (done (some principal), m) =
      decoded principal.agent_id (runtime.read_request body) m
  authenticated body (_, m) = (answer_error 401 (text "UNAUTHORIZED"), m)

  unfoldable pub with_token : Bytes → Time → Option Bytes → Machine → Response × Machine
  unfolding authenticated
  with_token body now none m = (answer_error 401 (text "UNAUTHORIZED"), m)
  with_token body now (some token) m =
      authenticated body (try_store (authenticate runtime.sha256 token now) m)

  unfoldable pub execute : Bytes → Bytes → Time → Machine → Response × Machine
  unfolding with_token bearer_token
  execute header body now m = with_token body now (bearer_token header) m
