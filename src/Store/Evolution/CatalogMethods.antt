-- ===== src/Store/Evolution/CatalogMethods.antt =====
-- The methods of the catalog's repository keep the lifecycles, and published versions.
use mathlib.Core.Path.{refl}
use mathlib.Core.Bool.{Bool, true, false}
use Prim.Native.Nat.{ℕ}
use agent_key_vault_jit_acce.Prelude.Tests.{and-eq-true}
use agent_key_vault_jit_acce.Store.Tables.{
  Db, Uuid, Time, Request, Target, Credential, SafeOperation, OperationVersion,
  TargetOperationBinding,
}
use agent_key_vault_jit_acce.Store.Action.{Action}
use agent_key_vault_jit_acce.Store.Action.Keeps.{Keeps}
use agent_key_vault_jit_acce.Store.Evolution.{DbEvolves}
use agent_key_vault_jit_acce.Store.Evolution.Rules.{
  by_pure, by_bind, by_or_raise, by_when_raise, by_transaction,
}
use agent_key_vault_jit_acce.Store.Evolution.Statements.{Keeps-update_grants}
use agent_key_vault_jit_acce.Store.Evolution.Tasks.{revoke_grant-evolves}
use agent_key_vault_jit_acce.Store.Evolution.CatalogStatements.{
  update_target_row-Keeps, update_target_status-Keeps, update_default_credential-Keeps,
  update_credential_status-Keeps, insert_target-Keeps, insert_credential-Keeps,
  insert_operation-Keeps, insert_operation_version-Keeps, update_operations-Keeps,
  update_operation_sets-Keeps, upsert_binding-Keeps,
}
use agent_key_vault_jit_acce.Store.Catalog.{
  revoke_if, update_target, set_target_active, set_credential_active,
  create_target_with_default_credential,
}
use agent_key_vault_jit_acce.Store.Catalog.Statements.{revoke_requested}
use agent_key_vault_jit_acce.Store.Catalog.Operations.{
  create_operation_with_version, publish_operation_version, unless_active, set_operation_set_active,
  set_operation_active, upsert_target_operation_binding,
}

revoke_requested-Keeps :
    (test : Db → Request → Bool) (at : Time) → Keeps DbEvolves (revoke_requested test at)
unfolding revoke_requested
revoke_requested-Keeps test at =
    Keeps-update_grants _ _ _ λ d g h. revoke_grant-evolves at g (and-eq-true _ _ h).1

revoke_if-Keeps : (b : Bool) (m : Action ℕ) → Keeps DbEvolves m → Keeps DbEvolves (revoke_if b m)
unfolding revoke_if
revoke_if-Keeps true m h = h
revoke_if-Keeps false m h = by_pure 0

unless_active-Keeps :
    (b : Bool) (m : Action ℕ) → Keeps DbEvolves m → Keeps DbEvolves (unless_active b m)
unfolding unless_active
unless_active-Keeps true m h = by_pure 0
unless_active-Keeps false m h = h

pub update_target-Keeps : (t : Target) (at : Time) → Keeps DbEvolves (update_target t at)
unfolding update_target
update_target-Keeps t at = by_transaction _ (
    by_bind _ _ (update_target_row-Keeps t) λ row.
      by_bind _ _ (by_or_raise _ _)
        λ changed. revoke_if-Keeps changed _ (revoke_requested-Keeps _ at))

pub set_target_active-Keeps :
    (i : Uuid) (b : Bool) (at : Time) → Keeps DbEvolves (set_target_active i b at)
unfolding set_target_active
set_target_active-Keeps i b at = by_transaction _ (
    by_bind _ _ (update_target_status-Keeps i b) λ rows.
      by_bind _ _ (by_when_raise _ _) λ u. revoke_if-Keeps _ _ (revoke_requested-Keeps _ at))

pub set_credential_active-Keeps :
    (i : Uuid) (b : Bool) (at : Time) → Keeps DbEvolves (set_credential_active i b at)
unfolding set_credential_active
set_credential_active-Keeps i b at = by_transaction _ (
    by_bind _ _ (update_credential_status-Keeps i b) λ rows.
      by_bind _ _ (by_when_raise _ _) λ u. revoke_if-Keeps _ _ (revoke_requested-Keeps _ at))

pub create_target-Keeps :
    (t : Target) (c : Credential) → Keeps DbEvolves (create_target_with_default_credential t c)
unfolding create_target_with_default_credential
create_target-Keeps t c = by_transaction _ (
    by_bind _ _ (insert_target-Keeps t)
      λ u. by_bind _ _ (insert_credential-Keeps _) λ v. update_default_credential-Keeps _ _)

pub create_operation_with_version-Keeps :
    (o : SafeOperation) (v : OperationVersion) → Keeps DbEvolves (create_operation_with_version o v)
unfolding create_operation_with_version
create_operation_with_version-Keeps o v = by_transaction _ (
    by_bind _ _ (insert_operation-Keeps o) λ u. by_bind _ _ (insert_operation_version-Keeps v) λ w.
      by_bind _ _ (update_operations-Keeps _ _ _ λ x. record { snapshot = refl })
        λ rows. by_when_raise _ _)

pub publish_operation_version-Keeps :
    (v : OperationVersion) (expected : ℕ) (actor : Uuid) (at : Time)
    → Keeps DbEvolves (publish_operation_version v expected actor at)
unfolding publish_operation_version
publish_operation_version-Keeps v expected actor at = by_transaction _ (
    by_bind _ _ (insert_operation_version-Keeps v) λ w.
      by_bind _ _ (update_operations-Keeps _ _ _ λ x. record { snapshot = refl })
        λ rows. by_when_raise _ _)

pub set_operation_set_active-Keeps :
    (i : Uuid) (b : Bool) (actor : Uuid) (at : Time)
    → Keeps DbEvolves (set_operation_set_active i b actor at)
unfolding set_operation_set_active
set_operation_set_active-Keeps i b actor at = by_transaction _ (
    by_bind _ _ (update_operation_sets-Keeps _ _ _ λ s. record { snapshot = refl }) λ rows.
      by_bind _ _ (by_when_raise _ _) λ u. unless_active-Keeps _ _ (revoke_requested-Keeps _ at))

pub set_operation_active-Keeps :
    (i : Uuid) (b : Bool) (actor : Uuid) (at : Time)
    → Keeps DbEvolves (set_operation_active i b actor at)
unfolding set_operation_active
set_operation_active-Keeps i b actor at = by_transaction _ (
    by_bind _ _ (update_operations-Keeps _ _ _ λ s. record { snapshot = refl }) λ rows.
      by_bind _ _ (by_when_raise _ _) λ u. unless_active-Keeps _ _ (revoke_requested-Keeps _ at))

pub upsert_target_operation_binding-Keeps :
    (b : TargetOperationBinding) → Keeps DbEvolves (upsert_target_operation_binding b)
unfolding upsert_target_operation_binding
upsert_target_operation_binding-Keeps b = by_transaction _ (
    by_bind _ _ (upsert_binding-Keeps b)
      λ rows. by_bind _ _ (by_when_raise _ _) λ u. revoke_requested-Keeps _ _)
