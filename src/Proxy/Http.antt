-- ===== src/Proxy/Http.antt =====
-- internal/proxy/http.go: `HTTPProxy.Execute` and `buildHTTPRequest`. net/url, net/http and the
-- encodings are parameters. An empty identifier is 0.
use mathlib.Core.Bool.{Bool, true, false, not, ◌&&◌, ◌||◌}
use mathlib.Core.Option.{Option, none, some, bind}
use mathlib.Core.List.{List, [], ◌∷◌, ◌++◌}
use Prim.Native.Nat.{ℕ}
use agent_key_vault_jit_acce.Prelude.Tests.{◌==◌, is_empty, if◌then◌else◌, is_some, ltb}
use agent_key_vault_jit_acce.Prelude.Rows.{length, select_rows, bytes_eq}
use agent_key_vault_jit_acce.Domain.Catalog.{ConnectorType, CredentialType}
use agent_key_vault_jit_acce.Domain.Execution.{ExecutionStatus}
use agent_key_vault_jit_acce.Domain.Values.{Uuid, Bytes, OperationKind, text}
use agent_key_vault_jit_acce.Proxy.Plan.{Plan, Operation, HttpParameters}
use agent_key_vault_jit_acce.Proxy.Machine.{
  Proxy, Answer, HttpRequest, execution_denied, ContextState, sends, pure, when_fail, or_fail,
  perform, ◌>>=◌, ◌>>◌,
}
use agent_key_vault_jit_acce.Proxy.Vault.{
  ExecutionClient, Values, Handle, ReferenceKind, acquire, close,
}
use agent_key_vault_jit_acce.Proxy.Prepare.{
  Draws, Begun, prepare, finalize_execution, give_up_as, target_failure,
}
use agent_key_vault_jit_acce.Proxy.Sign.{is_kind}
use agent_key_vault_jit_acce.Proxy.Redactor.{
  Encodings, value_of, basic_credentials, new_redactor, redact, redact_headers,
}

abbrev pub Headers : Type 0
Headers = List (Bytes × Bytes)

abbrev pub Query : Type 0
Query = List (Bytes × List Bytes)

pub record HttpResponse : Type 0 where
  pub status_code : ℕ
  pub headers : Headers
  pub body : Bytes

-- What a target answers; `unreadable` if reading the body fails.
pub data Reply : Type 0 where
  unanswered : ContextState → Reply
  unreadable : Reply
  answered : HttpResponse → Reply

-- net/url, net/http and the target. `canonical` is `http.CanonicalHeaderKey`, `url_with` sets
-- `RawQuery` to the encoded query, and `sendable` says if `http.NewRequest` takes the method and
-- the URL.
pub record HttpLibrary : Type 1 where
  pub Url : Type 0
  pub parse_url : Bytes → Option Url
  pub is_abs : Url → Bool
  pub host : Url → Bytes
  pub resolve : Url → Url → Url
  pub query_of : Url → Query
  pub url_with : Url → Query → Bytes
  pub canonical : Bytes → Bytes
  pub sendable : Bytes → Bytes → Bool
  pub encodings : Encodings
  pub send : HttpRequest → Answer Reply

abbrev pub max_response_body : ℕ
max_response_body = 1048576

-- `http.Header.Set`
unfoldable pub set_header : (Bytes → Bytes) → Bytes → Bytes → Headers → Headers
set_header canonical name value headers =
    (canonical name, value) ∷ select_rows (λ h. not (bytes_eq h.0 (canonical name))) headers

unfoldable pub set_headers : (Bytes → Bytes) → Headers → Headers → Headers
set_headers canonical [] headers = headers
set_headers canonical ((name, value) ∷ rest) headers =
    set_headers canonical rest (set_header canonical name value headers)

-- `url.Values.Add`
unfoldable pub add_query : Bytes → Bytes → Query → Query
add_query name entry [] = (name, entry ∷ []) ∷ []
add_query name entry ((n, entries) ∷ rest) =
    let added = add_query name entry rest in
    if bytes_eq n name then (n, entries ++ (entry ∷ [])) ∷ rest else (n, entries) ∷ added

unfoldable pub add_entries : Bytes → List Bytes → Query → Query
add_entries name [] query = query
add_entries name (e ∷ es) query = add_entries name es (add_query name e query)

unfoldable pub add_queries : Query → Query → Query
add_queries [] query = query
add_queries ((name, entries) ∷ rest) query = add_queries rest (add_entries name entries query)

-- `setHeaderFromValue`
unfoldable pub set_from_value :
    (Bytes → Bytes) → Bytes → Option Bytes → Bytes → Headers → Option Headers
set_from_value canonical name none prefix headers = none
set_from_value canonical name (some secret) prefix headers =
    some (set_header canonical name (prefix ++ secret) headers)

abbrev pub set_basic_auth : HttpLibrary → Option Bytes → Option Bytes → Headers → Option Headers
set_basic_auth http (some username) (some password) headers = some (
    set_header http.canonical (text "Authorization")
      (text "Basic " ++ http.encodings.standard (basic_credentials username password)) headers)
set_basic_auth http _ _ headers = none

unfoldable pub inject : HttpLibrary → CredentialType → Values → Headers → Option Headers
inject http CredentialType.api_key values headers =
    set_from_value http.canonical (text "X-API-Key") (value_of (text "api_key") values) [] headers
inject http CredentialType.access_token values headers =
    set_from_value http.canonical (text "Authorization") (value_of (text "access_token") values)
      (text "Bearer ") headers
inject http CredentialType.username_password values headers =
    set_basic_auth http (value_of (text "username") values) (value_of (text "password") values)
      headers
inject http _ values headers = none

abbrev pub guarded : {A : Type 0} → Bool → A → Option A
guarded true a = some a
guarded false a = none

unfoldable pub build_request : HttpLibrary → Plan → HttpParameters → Values → Option HttpRequest
build_request http plan parameters values =
    bind (http.parse_url plan.target.connection_config.base_url) λ base.
      bind (http.parse_url parameters.path) λ relative.
        bind (guarded (not (http.is_abs relative) && is_empty (http.host relative)) relative) λ _.
          let destination = http.resolve base relative in
          let url =
            http.url_with destination
              (add_queries parameters.query_values (http.query_of destination)) in
          bind (guarded (http.sendable parameters.method url) url) λ _.
            bind
              (inject http plan.credential.credential_type values
                (set_headers http.canonical parameters.headers []))
              λ headers. some (record {
                method = parameters.method;
                url = url;
                headers = headers;
                body = parameters.body;
              })

abbrev pub is_http : ConnectorType → Bool
is_http ConnectorType.http = true
is_http _ = false

unfoldable pub accepts_http : Plan → Operation → Bool
accepts_http plan operation =
    is_http plan.target.connector_type
    && is_kind OperationKind.http operation.kind
    && is_some operation.http

unfoldable pub received :
    HttpLibrary → ExecutionClient → Draws → Uuid → Handle → Reply → Proxy HttpResponse
received http client draws execution_id handle (Reply.unanswered state) =
    give_up_as draws execution_id (target_failure state (text "TARGET_UNAVAILABLE"))
      (close client handle)
received http client draws execution_id handle Reply.unreadable =
    give_up_as draws execution_id (ExecutionStatus.failed, text "RESPONSE_INVALID")
      (close client handle)
received http client draws execution_id handle (Reply.answered response) =
    if ltb max_response_body (length response.body)
    then give_up_as draws execution_id (ExecutionStatus.failed, text "RESPONSE_INVALID")
        (close client handle)
    else finalize_execution draws execution_id ExecutionStatus.succeeded [] (close client handle)
      >> (let patterns : List Bytes = new_redactor http.encodings handle.values in
          pure (record {
            status_code = response.status_code;
            headers = redact_headers patterns response.headers;
            body = redact patterns response.body;
          }))

unfoldable pub sent :
    HttpLibrary → ExecutionClient → Draws → Uuid → Handle → Option HttpRequest → Proxy HttpResponse
unfolding received
sent http client draws execution_id handle none =
    give_up_as draws execution_id (ExecutionStatus.failed, text "INVALID_EXECUTION_PLAN")
      (close client handle)
sent http client draws execution_id handle (some request) = do
  reply ← perform (http.send request) (sends request)
  received http client draws execution_id handle reply

unfoldable pub with_handle :
    HttpLibrary
    → ExecutionClient
    → Draws
    → Begun
    → HttpParameters
    → Option Handle
    → Proxy HttpResponse
unfolding sent build_request
with_handle http client draws begun parameters none =
    give_up_as draws begun.execution_id (ExecutionStatus.failed, text "VAULT_UNAVAILABLE")
      (pure true)
with_handle http client draws begun parameters (some handle) =
    sent http client draws begun.execution_id handle
      (build_request http begun.plan parameters handle.values)

unfoldable pub http_with : HttpLibrary → ExecutionClient → Draws → Begun → Proxy HttpResponse
unfolding with_handle
http_with http client draws begun = do
  parameters ← or_fail begun.operation.http execution_denied
  handle ← acquire client (record {
    kind = ReferenceKind.static_kv;
    path = begun.plan.credential.vault_path;
    version = begun.plan.credential.vault_version;
    ttl = 0;
  })
  with_handle http client draws begun parameters handle

unfoldable pub execute_http :
    HttpLibrary
    → (Bytes → Option Operation)
    → ExecutionClient
    → Draws
    → Uuid
    → Uuid
    → Uuid
    → Proxy HttpResponse
execute_http http decode client draws request_id agent_id task_id =
    when_fail (request_id == 0 || agent_id == 0 || task_id == 0) execution_denied
    >> (prepare decode accepts_http request_id agent_id task_id draws
        >>= http_with http client draws)
