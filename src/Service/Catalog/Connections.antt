-- ===== src/Service/Catalog/Connections.antt =====
-- internal/catalog/service.go: `validateConnection` and `validHostname`. net/url, net and
-- strings.ToUpper are parameters. The slice of methods is shared with the caller, so what is
-- accepted is returned with its methods as they are stored.
use mathlib.Core.Bool.{Bool, true, false, not, ◌&&◌, ◌||◌}
use mathlib.Core.Option.{Option, none, some}
use mathlib.Core.List.{List, [], ◌∷◌}
use Prim.Native.Nat.{ℕ}
use agent_key_vault_jit_acce.Prelude.Tests.{is_empty, ltb, leb, ◌==◌}
use agent_key_vault_jit_acce.Prelude.Rows.{length, any_row, bytes_eq}
use agent_key_vault_jit_acce.Domain.Values.{Bytes, text}
use agent_key_vault_jit_acce.Domain.Catalog.{ConnectorType, CredentialType, ConnectionConfig}
use agent_key_vault_jit_acce.Operation.Text.{split}
use agent_key_vault_jit_acce.Operation.Text.Runes.{trim_space}

-- `url.URL`
pub record Uri : Type 0 where
  pub scheme : Bytes
  pub host : Bytes
  pub has_user : Bool

pub record NetLibrary : Type 0 where
  pub parse_request_uri : Bytes → Option Uri
  pub is_ip : Bytes → Bool
  pub to_upper : Bytes → Bytes

abbrev pub is_one_of : List Bytes → Bytes → Bool
is_one_of words word = any_row (λ w. bytes_eq w word) words

abbrev pub http_methods : List Bytes
http_methods = text "GET" ∷ text "POST" ∷ text "PUT" ∷ text "PATCH" ∷ text "DELETE" ∷ []

abbrev pub tls_modes : List Bytes
tls_modes = text "disable" ∷ text "require" ∷ text "verify-ca" ∷ text "verify-full" ∷ []

abbrev pub for_http : CredentialType → Bool
for_http CredentialType.postgresql_dynamic = false
for_http CredentialType.other = false
for_http _ = true

abbrev pub for_postgresql : CredentialType → Bool
for_postgresql CredentialType.username_password = true
for_postgresql CredentialType.postgresql_dynamic = true
for_postgresql _ = false

abbrev pub is_dynamic : CredentialType → Bool
is_dynamic CredentialType.postgresql_dynamic = true
is_dynamic _ = false

abbrev pub is_host_character : ℕ → Bool
is_host_character c =
    (leb 97 c && leb c 122) || (leb 65 c && leb c 90) || (leb 48 c && leb c 57) || c == 45

abbrev pub is_hyphen : ℕ → Bool
is_hyphen c = c == 45

abbrev pub starts_with_hyphen : Bytes → Bool
starts_with_hyphen [] = false
starts_with_hyphen (c ∷ cs) = is_hyphen c

abbrev pub ends_with_hyphen : Bytes → Bool
ends_with_hyphen [] = false
ends_with_hyphen (c ∷ []) = is_hyphen c
ends_with_hyphen (c ∷ d ∷ cs) = ends_with_hyphen (d ∷ cs)

unfoldable pub bad_label : Bytes → Bool
bad_label label =
    is_empty label
    || ltb 63 (length label)
    || starts_with_hyphen label
    || ends_with_hyphen label
    || any_row (λ c. not (is_host_character c)) label

-- The labels are between full stops.
unfoldable pub valid_hostname : Bytes → Bool
valid_hostname value =
    not (is_empty value) && leb (length value) 253 && not (any_row bad_label (split 46 value))

module _ (net : NetLibrary) where
  abbrev pub normal_method : Bytes → Bytes
  normal_method method = net.to_upper (trim_space method)

  abbrev pub take_method : Bool → Bytes → Option (List Bytes) → Option (List Bytes)
  take_method true method (some rest) = some (method ∷ rest)
  take_method _ method rest = none

  unfoldable pub check_methods : List Bytes → Option (List Bytes)
  check_methods [] = some []
  check_methods (method ∷ methods) =
      take_method (is_one_of http_methods (normal_method method)) (normal_method method)
        (check_methods methods)

  unfoldable pub is_web_uri : Option Uri → Bool
  is_web_uri none = false
  is_web_uri (some uri) =
      (bytes_eq uri.scheme (text "http") || bytes_eq uri.scheme (text "https"))
      && not (is_empty uri.host)
      && not uri.has_user

  unfoldable pub fits_http : ConnectionConfig → CredentialType → Bool
  fits_http config credential_type =
      for_http credential_type
      && is_web_uri (net.parse_request_uri config.base_url)
      && is_empty config.host
      && config.port == 0
      && is_empty config.database
      && is_empty config.tls_mode
      && not config.require_dynamic
      && not (is_empty config.allowed_http_methods)

  unfoldable pub fits_postgresql : ConnectionConfig → CredentialType → Bool
  fits_postgresql config credential_type =
      for_postgresql credential_type
      && is_empty config.base_url
      && is_empty config.allowed_http_methods
      && (net.is_ip config.host || valid_hostname config.host)
      && not (config.port == 0)
      && not (is_empty (trim_space config.database))
      && is_one_of tls_modes config.tls_mode
      && (not config.require_dynamic || is_dynamic credential_type)

  abbrev pub with_methods : ConnectionConfig → Option (List Bytes) → Option ConnectionConfig
  with_methods config none = none
  with_methods config (some methods) = some (record config { allowed_http_methods = methods })

  unfoldable pub validate_connection :
      ConnectorType → ConnectionConfig → CredentialType → Option ConnectionConfig
  validate_connection ConnectorType.http config credential_type =
      elim (fits_http config credential_type) [
        | true ↦ with_methods config (check_methods config.allowed_http_methods)
        | false ↦ none
      ]
  validate_connection ConnectorType.postgresql config credential_type =
      elim (fits_postgresql config credential_type) [ true ↦ some config | false ↦ none ]
  validate_connection ConnectorType.other config credential_type = none
