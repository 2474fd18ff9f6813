-- ===== src/Store/Catalog/Statements.antt =====
-- The SQL statements of the catalog, with the constraints of internal/store/migrations: each one
-- changes the catalog alone.
use mathlib.Core.Bool.{Bool, true, false, not, ◌&&◌, ◌||◌}
use mathlib.Core.Option.{Option, none, some}
use mathlib.Core.List.{List, [], ◌∷◌}
use Prim.Native.Nat.{ℕ, suc}
use agent_key_vault_jit_acce.Prelude.Tests.{if◌then◌else◌, ◌==◌, ltb}
use agent_key_vault_jit_acce.Prelude.Rows.{
  any_row, find_row, count_rows, update_rows, insert_row, bytes_eq,
}
use agent_key_vault_jit_acce.Domain.Grant.{is_approved}
use agent_key_vault_jit_acce.Domain.Catalog.{
  ConnectorType, CredentialType, ExecutorType, RiskLevel, ConnectionConfig,
}
use agent_key_vault_jit_acce.Store.Tables.{
  Db, Uuid, Time, Bytes, Request, Target, Credential, Catalog, text,
}
use agent_key_vault_jit_acce.Store.Action.{Action, statement}
use agent_key_vault_jit_acce.Store.Statements.{affected, update_grants}
use agent_key_vault_jit_acce.Store.Tasks.{revoke_grant}

abbrev pub with_catalog : {A : Type 0} → Db → Option (A × Catalog) → Option (A × Db)
with_catalog d none = none
with_catalog d (some (a, c)) = some (a, record d { catalog = c })

-- A statement that writes the catalog; `none` is a violated constraint.
unfoldable pub catalog_statement : {A : Type 0} → (Db → Option (A × Catalog)) → Action A
catalog_statement f = statement λ d. with_catalog d (f d)

-- The value, if no constraint is violated.
abbrev pub refused : {A : Type 0} → Bool → A → Option A
refused b a = if b then none else some a

-- `length(trim(t)) > 0`: a text with something but spaces.
unfoldable pub is_blank : Bytes → Bool
is_blank [] = true
is_blank (c ∷ cs) = c == 32 && is_blank cs

unfoldable pub same_methods : List Bytes → List Bytes → Bool
same_methods [] [] = true
same_methods (x ∷ xs) (y ∷ ys) = let rest = same_methods xs ys in bytes_eq x y && rest
same_methods _ _ = false

abbrev pub same_flag : Bool → Bool → Bool
same_flag true b = b
same_flag false b = not b

-- `NOT (connection_config IS DISTINCT FROM $3)`: the JSON of a configuration holds its fields.
unfoldable pub same_config : ConnectionConfig → ConnectionConfig → Bool
same_config a b =
    bytes_eq a.base_url b.base_url
    && same_methods a.allowed_http_methods b.allowed_http_methods
    && bytes_eq a.host b.host
    && a.port == b.port
    && bytes_eq a.database b.database
    && bytes_eq a.tls_mode b.tls_mode
    && same_flag a.require_dynamic b.require_dynamic

-- The largest value of an `integer` column.
abbrev pub max_integer : ℕ
max_integer = 2147483647

-- The update of a target in place: a new configuration has the next number.
abbrev pub reconfigured : Target → Target → Target
reconfigured target t = record t {
  description = target.description;
  connection_config = target.connection_config;
  config_version =
      if same_config t.connection_config target.connection_config
      then t.config_version
      else suc t.config_version;
}

-- `RETURNING previous.connection_config IS DISTINCT FROM $3`; no row where there is no target.
unfoldable pub update_target_row : Target → Action (Option Bool)
unfolding same_config
update_target_row target = catalog_statement λ d.
    let targets = update_rows (λ t. t.id == target.id) (reconfigured target) d.catalog.targets in
    refused (any_row (λ t. ltb max_integer t.config_version) targets) (
      elim (find_row (λ t. t.id == target.id) d.catalog.targets) [
        | none ↦ none
        | some t ↦ some (not (same_config t.connection_config target.connection_config))
      ],
      record d.catalog { targets = targets },
    )

-- `UPDATE targets SET status=…`
unfoldable pub update_target_status : Uuid → Bool → Action ℕ
update_target_status id active = catalog_statement λ d. some (
  count_rows (λ t. t.id == id) d.catalog.targets,
  record d.catalog {
    targets = update_rows (λ t. t.id == id) (λ t. record t { active = active }) d.catalog.targets;
  },
)

unfoldable pub update_credential_status : Uuid → Bool → Action ℕ
update_credential_status id active = catalog_statement λ d. some (
  count_rows (λ c. c.id == id) d.catalog.credentials,
  record d.catalog {
    credentials =
        update_rows (λ c. c.id == id) (λ c. record c { active = active }) d.catalog.credentials;
  },
)

abbrev pub known_connector : ConnectorType → Bool
known_connector ConnectorType.other = false
known_connector _ = true

abbrev pub known_credential : CredentialType → Bool
known_credential CredentialType.other = false
known_credential _ = true

abbrev pub known_executor : ExecutorType → Bool
known_executor ExecutorType.other = false
known_executor _ = true

abbrev pub known_risk : RiskLevel → Bool
known_risk RiskLevel.other = false
known_risk _ = true

-- `INSERT INTO targets`: an active target with the first configuration and no credential yet.
unfoldable pub insert_target : Target → Action (Unit {0})
insert_target t = catalog_statement λ d.
    refused
      (any_row (λ x. x.id == t.id || bytes_eq x.name t.name) d.catalog.targets
        || not (known_connector t.connector_type))
      (
        tt,
        record d.catalog {
          targets =
              insert_row
                (record t { config_version = 1; default_credential_id = none; active = true })
                d.catalog.targets;
        },
      )

unfoldable pub insert_credential : Credential → Action (Unit {0})
insert_credential c = catalog_statement λ d.
    refused
      (any_row (λ x. x.id == c.id || x.target_id == c.target_id && bytes_eq x.alias c.alias)
          d.catalog.credentials
        || not (any_row (λ t. t.id == c.target_id) d.catalog.targets)
        || not (known_credential c.credential_type)
        || not (bytes_eq c.vault_provider (text "OPENBAO")))
      (
        tt,
        record d.catalog {
          credentials = insert_row (record c { active = true }) d.catalog.credentials;
        },
      )

-- `UPDATE targets SET default_credential_id=…`
unfoldable pub update_default_credential : Uuid → Uuid → Action (Unit {0})
update_default_credential target_id credential_id = catalog_statement λ d.
    refused (not (any_row (λ c. c.id == credential_id) d.catalog.credentials)) (
      tt,
      record d.catalog {
        targets =
            update_rows (λ t. t.id == target_id)
              (λ t. record t { default_credential_id = some credential_id }) d.catalog.targets;
      },
    )

-- The grants of the requests that `test` holds of can be claimed no more.
unfoldable pub revoke_requested : (Db → Request → Bool) → Time → Action ℕ
revoke_requested test at =
    update_grants
      (λ d g. any_row (λ r. g.request_id == r.id && test d r) d.requests && is_approved g.status)
      (revoke_grant at) affected
