-- ===== src/Examples/Catalogs.antt =====
-- Runs of the catalog's repository: a target is disabled.
use mathlib.Core.Path.{◌≡◌, refl}
use mathlib.Core.Logic.{inl}
use mathlib.Core.Bool.{true, false}
use mathlib.Core.Option.{none}
use mathlib.Core.List.{List, [], ◌∷◌}
use Prim.Native.Nat.{◌*◌}
use agent_key_vault_jit_acce.Prelude.Rows.{any_row, select_rows, count_rows, update_rows}
use agent_key_vault_jit_acce.Store.Action.{
  ok, next_fails, rest_faults, spend, pure, go_on, ◌>>=◌, when_raise, land, statement, settle,
  transaction,
}
use agent_key_vault_jit_acce.Store.Statements.{update_grants}
use agent_key_vault_jit_acce.Store.Catalog.{revoke_if, set_target_active}
use agent_key_vault_jit_acce.Store.Catalog.Statements.{
  catalog_statement, update_target_status, revoke_requested,
}
use agent_key_vault_jit_acce.Store.Catalog.Closed.{is_for}
use agent_key_vault_jit_acce.Store.History.{Call, sets_target, claims, perform}
use agent_key_vault_jit_acce.Store.History.Claims.{claim_count}
use agent_key_vault_jit_acce.Store.History.Withdraws.{withdraws, Withdrawn, Withdrawn-claim_count}
use agent_key_vault_jit_acce.Examples.{approved_world, claim_context, minute}

abbrev disabling : Call
disabling = sets_target 31 false (2 * minute)

-- The target is enabled again, and an agent claims.
abbrev afterwards : List Call
afterwards = sets_target 31 true (2 * minute) ∷ claims claim_context (2 * minute) ∷ []

disables : (perform disabling approved_world).0 ≡ ok none
unfolding perform set_target_active update_target_status catalog_statement revoke_if
    revoke_requested update_grants any_row select_rows count_rows update_rows statement land spend
    next_fails rest_faults ◌>>=◌ go_on when_raise transaction settle pure
disables = refl

concerned : Withdrawn disabling approved_world 91 (perform disabling approved_world).1.db
unfolding perform set_target_active update_target_status catalog_statement revoke_if
    revoke_requested update_grants any_row select_rows count_rows update_rows statement land spend
    next_fails rest_faults ◌>>=◌ go_on when_raise transaction settle pure withdraws is_for
concerned = record { present = inl refl; concerned = ((λ e. refl), tt) }

Withdrawn-claim_count_example : claim_count 91 afterwards (perform disabling approved_world).1 ≡ 0
unfolding perform set_target_active update_target_status catalog_statement revoke_if
    revoke_requested update_grants any_row select_rows count_rows update_rows statement land spend
    next_fails rest_faults ◌>>=◌ go_on when_raise transaction settle pure
Withdrawn-claim_count_example =
    Withdrawn-claim_count disabling approved_world none 91 afterwards disables (tt, tt) concerned
