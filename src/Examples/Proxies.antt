-- ===== src/Examples/Proxies.antt =====
-- A run of the execution plane: an agent's HTTP request, at a vault and a target that answer.
use mathlib.Core.Path.{◌≡◌, refl}
use mathlib.Core.Bool.{true, false}
use mathlib.Core.Option.{Option, none, some, bind}
use mathlib.Core.List.{[], ◌∷◌, ◌++◌}
use Prim.Native.Nat.{◌*◌}
use agent_key_vault_jit_acce.Prelude.Rows.{
  any_row, find_row, select_rows, count_rows, update_rows, bytes_eq,
}
use agent_key_vault_jit_acce.Domain.Values.{OperationKind, same_kind}
use agent_key_vault_jit_acce.Domain.Execution.{ExecutionStatus}
use agent_key_vault_jit_acce.Domain.Execution
use agent_key_vault_jit_acce.Domain.Accounts.{Accounts}
use agent_key_vault_jit_acce.Store.Tables.{Bytes, text}
use agent_key_vault_jit_acce.Store.Action.{
  World, ok, next_fails, rest_faults, spend, when_raise, or_raise, with_error, mask, land,
  statement, query, settle, transaction,
}
use agent_key_vault_jit_acce.Store.Action
use agent_key_vault_jit_acce.Store.Statements.{
  update_grants, update_executions, update_reclaims, insert_execution, insert_reclaim,
  update_incidents,
}
use agent_key_vault_jit_acce.Store.Authorization.{has_active_task, is_bound, is_current}
use agent_key_vault_jit_acce.Store.Claims.{claimable, claim_result, claim_approved}
use agent_key_vault_jit_acce.Store.Execution.{
  null_if_empty, is_claimed, start, runs, finish, reclaimable, last_attempt, start_reclaim,
  reclaims_grant, close_reclaim, finish_reclaim,
}
use agent_key_vault_jit_acce.Store.Accounts.Agents.{token_agent, find_agent_by_token_hash}
use agent_key_vault_jit_acce.Service.Approvals.{claim}
use agent_key_vault_jit_acce.Service.Agents.{refuses, authenticate}
use agent_key_vault_jit_acce.Proxy.Plan.{Operation, plan_row, load_plan}
use agent_key_vault_jit_acce.Proxy.Machine.{
  Machine, HttpRequest, reads_secret, sends, pure, fail, go_on, ◌>>=◌, when_fail, or_fail, stored,
  store, attempted, try_store, perform, live,
}
use agent_key_vault_jit_acce.Proxy.Vault.{ExecutionClient, acquire_by, acquire, close_lease, close}
use agent_key_vault_jit_acce.Proxy.Prepare.{
  Draws, refuses_plan, begin_with, prepare, finalize_execution, give_up,
}
use agent_key_vault_jit_acce.Proxy.Redactor.{Encodings, value_of}
use agent_key_vault_jit_acce.Proxy.Http.{
  HttpLibrary, Reply, set_header, set_headers, add_queries, set_from_value, inject, build_request,
  accepts_http, received, sent, with_handle, http_with, execute_http,
}
use agent_key_vault_jit_acce.Proxy.Postgres.{SqlConnection, Executed}
use agent_key_vault_jit_acce.Proxy.Server.{
  Runtime, after_prefix, bearer_token, respond, dispatch, run_loaded, run_request, decoded,
  authenticated, with_token, execute,
}
use agent_key_vault_jit_acce.Proxy.Answers.{IsServed, execute-IsServed}
use agent_key_vault_jit_acce.Examples.{accounts, approved_db, hash, minute}

abbrev token_accounts : Accounts
token_accounts = record accounts {
  agent_tokens =
      record {
        id = 111;
        agent_id = 11;
        token_hash = hash;
        created_at = 0;
        expires_at = none;
        revoked_at = none;
      }
      ∷ [];
}

abbrev idle : Machine
idle = record {
  world = record { db = record approved_db { accounts = token_accounts }; faults = [] };
  trace = [];
}

abbrev pub draws : Draws
draws = record {
  claimed_at = 2 * minute;
  started_at = 2 * minute;
  finished_at = 2 * minute;
  reclaiming_at = 2 * minute;
  released_at = 2 * minute;
  execution_id = some 201;
  reclaim_id = some 202;
  incident_id = some 203;
}

-- Every operation is the same GET.
abbrev get_ping : Bytes → Option Operation
get_ping snapshot = some (record {
  kind = some OperationKind.http;
  http = some (record {
    method = text "GET";
    path = text "/ping";
    query_values = [];
    headers = [];
    body = [];
  });
  postgresql = none;
  signing = none;
})

-- A vault with one key, which issues and signs nothing.
abbrev pub vault : ExecutionClient
vault = record {
  read_kv = λ path version seen. some ((text "api_key", text "key") ∷ []);
  issue_database = λ path ttl seen. none;
  revoke_lease = λ lease seen. false;
  sign = λ path algorithm digest seen. (none, live);
}

abbrev pub unchanged : Encodings
unchanged = record {
  standard = λ b. b;
  raw_standard = λ b. b;
  url_safe = λ b. b;
  query_escape = λ b. b;
}

-- A URL is its text, and a reference is appended to its base.
abbrev http : HttpLibrary
http = record {
  Url = Bytes;
  parse_url = λ b. some b;
  is_abs = λ u. false;
  host = λ u. [];
  resolve = λ base u. base ++ u;
  query_of = λ u. [];
  url_with = λ u query. u;
  canonical = λ b. b;
  sendable = λ method u. true;
  encodings = unchanged;
  send =
      λ request seen. Reply.answered (record { status_code = 200; headers = []; body = text "ok" });
}

abbrev sql : SqlConnection
sql = record {
  connect = λ config values seen. false;
  begin = λ seen. false;
  execute = λ s arguments seen. Executed.uncounted;
  commit = λ seen. false;
  rollback = λ seen. false;
  disconnect = λ seen. false;
}

abbrev runtime : Runtime
runtime = record {
  sha256 = λ b. hash;
  decode = get_ping;
  client = vault;
  http = http;
  sql = sql;
  read_request = λ body. some (record { request_id = 81; task_id = 71 });
}

abbrev sent_request : HttpRequest
sent_request = record {
  method = text "GET";
  url = text "https://api.example.com/ping";
  headers = (text "X-API-Key", text "key") ∷ [];
  body = [];
}

-- The key is read, and the request is sent with it.
acted :
    (execute runtime draws (text "Bearer token") [] (2 * minute) idle).1.trace
    ≡ sends sent_request ∷ reads_secret (text "akv/data/key") none ∷ []
unfolding execute with_token authenticated decoded run_request run_loaded dispatch respond
    bearer_token after_prefix execute_http http_with with_handle sent received accepts_http
    build_request inject set_from_value set_headers set_header add_queries value_of prepare
    begin_with refuses_plan finalize_execution give_up acquire acquire_by close close_lease perform
    try_store attempted store stored or_fail when_fail ◌>>=◌ go_on fail pure load_plan plan_row
    authenticate refuses find_agent_by_token_hash token_agent claim claim_approved claim_result
    claimable has_active_task is_current is_bound start is_claimed finish runs start_reclaim
    reclaimable last_attempt finish_reclaim close_reclaim reclaims_grant null_if_empty update_grants
    update_executions update_reclaims insert_execution insert_reclaim any_row find_row select_rows
    count_rows update_rows bytes_eq same_kind transaction settle query statement land mask
    with_error or_raise when_raise spend rest_faults next_fails Action.◌>>=◌ Action.go_on
    Action.pure bind Execution.can_transition_to update_incidents
acted = refl

execute-IsServed_example : IsServed runtime draws (text "Bearer token") [] (2 * minute) idle.world
execute-IsServed_example =
    execute-IsServed runtime draws (text "Bearer token") [] (2 * minute) idle
      (λ same. absurd (cc (acted, same)))
