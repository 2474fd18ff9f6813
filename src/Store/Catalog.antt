-- ===== src/Store/Catalog.antt =====
-- internal/store/catalog_postgres.go: targets and credentials.
pub mod Statements
pub mod Same
pub mod Operations
pub mod Joins
pub mod Finds
pub mod Closed
pub mod Selected
pub mod Merged
use mathlib.Core.Bool.{Bool, true, false, not, ◌&&◌}
use mathlib.Core.Option.{Option, none, some}
use Prim.Native.Nat.{ℕ}
use agent_key_vault_jit_acce.Prelude.Tests.{◌==◌}
use agent_key_vault_jit_acce.Prelude.Rows.{find_row}
use agent_key_vault_jit_acce.Store.Tables.{Uuid, Time, Target, Credential, Catalog}
use agent_key_vault_jit_acce.Store.Action.{
  Action, unavailable, ◌>>=◌, ◌>>◌, pure, when_raise, or_raise, query, transaction,
}
use agent_key_vault_jit_acce.Store.Catalog.Statements.{
  update_target_row, update_target_status, update_credential_status, insert_target,
  insert_credential, update_default_credential, revoke_requested,
}

unfoldable pub find_credential : Uuid → Action Credential
find_credential id = do
  found ← query (λ d. find_row (λ c. c.id == id) d.catalog.credentials)
  or_raise found unavailable

-- `targets t JOIN credentials c ON c.id=t.default_credential_id`, for one target.
unfoldable pub default_credential : Catalog → Option Target → Option (Target × Credential)
default_credential c none = none
default_credential c (some t) = elim t.default_credential_id [
  | none ↦ none
  | some id ↦ elim (find_row (λ k. k.id == id) c.credentials) [ none ↦ none | some k ↦ some (t, k) ]
]

unfoldable pub find_target_with_default_credential : Uuid → Action (Target × Credential)
find_target_with_default_credential id = do
  found ← query (λ d. default_credential d.catalog (find_row (λ t. t.id == id) d.catalog.targets))
  or_raise found unavailable

-- The rows of `… AND t.status='ACTIVE' AND c.status='ACTIVE'`.
unfoldable pub both_active : Option (Target × Credential) → Option (Target × Credential)
both_active none = none
both_active (some (t, k)) = elim (t.active && k.active) [ true ↦ some (t, k) | false ↦ none ]

unfoldable pub find_active_target_and_default_credential : Uuid → Action (Target × Credential)
find_active_target_and_default_credential id = do
  found ← query (λ d.
      both_active (default_credential d.catalog (find_row (λ t. t.id == id) d.catalog.targets)))
  (t, k) ← or_raise found unavailable
  pure (t, record k { target_id = t.id })

-- `if configurationChanged { … }`, and the same for `if !active { … }`.
unfoldable pub revoke_if : Bool → Action ℕ → Action ℕ
revoke_if true revoke = revoke
revoke_if false revoke = pure 0

unfoldable pub update_target : Target → Time → Action ℕ
update_target target at = transaction do
  row ← update_target_row target
  configuration_changed ← or_raise row unavailable
  revoke_if configuration_changed (revoke_requested (λ d r. r.target_id == target.id) at)

unfoldable pub set_target_active : Uuid → Bool → Time → Action ℕ
set_target_active id active at = transaction do
  rows ← update_target_status id active
  when_raise (not (rows == 1)) unavailable
  revoke_if (not active) (revoke_requested (λ d r. r.target_id == id) at)

unfoldable pub set_credential_active : Uuid → Bool → Time → Action ℕ
set_credential_active id active at = transaction do
  rows ← update_credential_status id active
  when_raise (not (rows == 1)) unavailable
  revoke_if (not active) (revoke_requested (λ d r. r.credential_id == id) at)

unfoldable pub create_target_with_default_credential : Target → Credential → Action (Unit {0})
create_target_with_default_credential target credential = transaction do
  insert_target target
  insert_credential (record credential { target_id = target.id })
  update_default_credential target.id credential.id
