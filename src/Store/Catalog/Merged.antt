-- ===== src/Store/Catalog/Merged.antt =====
-- A binding that is written stands in the table.
use mathlib.Core.Path.{◌≡◌, refl, subst}
use mathlib.Core.Logic.{inl, inr}
use mathlib.Core.Bool.{Bool, true, false}
use mathlib.Core.Option.{some}
use mathlib.Core.List.{List, [], ◌∷◌}
use Prim.Native.Nat.{ℕ}
use native.Mathlib.Omega.{arith}
use agent_key_vault_jit_acce.Prelude.Tests.{Bool-cases, and-eq-true, ◌==◌, ==→eq}
use agent_key_vault_jit_acce.Prelude.Rows.{any_row, update_rows}
use agent_key_vault_jit_acce.Prelude.Evolves.{Any, Any-insert_row}
use agent_key_vault_jit_acce.Store.Tables.{Db, Time, Request, TargetOperationBinding}
use agent_key_vault_jit_acce.Store.Action.Ensures.{
  Ensures, statement-Ensures, transaction-Ensures, bind-Ensures, guard-Ensures,
  update_grants-Ensures,
}
use agent_key_vault_jit_acce.Store.Catalog.Statements.{
  with_catalog, catalog_statement, refused, revoke_requested,
}
use agent_key_vault_jit_acce.Store.Catalog.Operations.{
  same_binding, merge_binding, upsert_binding, upsert_target_operation_binding,
}

-- A row that binds what `b` binds.
pub record IsWritten (b x : TargetOperationBinding) : Type 0 where
  pub target : x.target_id ≡ b.target_id
  pub operation : x.operation_id ≡ b.operation_id
  pub version : x.version ≡ b.version
  pub active : x.active ≡ b.active

module _ (b : TargetOperationBinding) where
  updated-IsWritten :
      (change : TargetOperationBinding → TargetOperationBinding) (bs : List TargetOperationBinding)
      → ((x : TargetOperationBinding) → same_binding b x ≡ true → IsWritten b (change x))
      → any_row (same_binding b) bs ≡ true
      → Any (IsWritten b) (update_rows (same_binding b) change bs)
  unfolding any_row update_rows
  updated-IsWritten change [] f h = cc
  updated-IsWritten change (x ∷ bs) f h = elim (Bool-cases (same_binding b x)) [
    | inl e ↦ rw (e, update_rows) (inl (f x e))
    | inr e ↦ inr (updated-IsWritten change bs f (rw (e, any_row) at h))
  ]

  merge_binding-IsWritten :
      (bs : List TargetOperationBinding) → Any (IsWritten b) (merge_binding b bs)
  unfolding merge_binding
  merge_binding-IsWritten bs = elim (Bool-cases (any_row (same_binding b) bs)) [
    | inl e ↦
        rw (e, merge_binding)
          (updated-IsWritten _ bs
            (λ x k.
              let (target, operation) = and-eq-true _ _ k in
              record {
                target = ==→eq _ _ target;
                operation = ==→eq _ _ operation;
                version = refl;
                active = refl;
              })
            e)
    | inr e ↦
        rw (e, merge_binding)
          (Any-insert_row (IsWritten b) _ bs
            (record { target = refl; operation = refl; version = refl; active = refl }))
  ]

  abbrev pub HasWritten : Db → Type 0
  HasWritten d = Any (IsWritten b) d.catalog.bindings

  upsert-HasWritten :
      (can can_not : Bool) (d : Db) (n : ℕ) (e : Db)
      → with_catalog d (elim can [
        | false ↦ some (0, d.catalog)
        | true ↦
            refused can_not (1, record d.catalog { bindings = merge_binding b d.catalog.bindings })
      ])
        ≡ some (n, e)
      → (n == 1) ≡ true
      → HasWritten e
  upsert-HasWritten false can_not d n e h k = absurd (cc)
  upsert-HasWritten true true d n e h k = absurd (cc)
  upsert-HasWritten true false d n e h k =
      let same : record d {
        catalog = record d.catalog { bindings = merge_binding b d.catalog.bindings };
      }
          ≡ e =
        cc in
      subst HasWritten same (merge_binding-IsWritten d.catalog.bindings)

  upsert_binding-HasWritten :
      (P : Db → Type 0) → Ensures P (upsert_binding b) (λ n d. (n == 1) ≡ true → HasWritten d)
  unfolding upsert_binding catalog_statement
  upsert_binding-HasWritten P = statement-Ensures _ _ _ λ d n e p h. upsert-HasWritten _ _ d n e h

  revoke_requested-HasWritten :
      (P : Db → Type 0) (test : Db → Request → Bool) (at : Time)
      → ((d : Db) → P d → HasWritten d)
      → Ensures P (revoke_requested test at) (λ n d. HasWritten d)
  unfolding revoke_requested
  revoke_requested-HasWritten P test at f = update_grants-Ensures _ _ _ _ _ f

  pub upsert_target_operation_binding-HasWritten :
      (P : Db → Type 0) → Ensures P (upsert_target_operation_binding b) (λ n d. HasWritten d)
  unfolding upsert_target_operation_binding
  upsert_target_operation_binding-HasWritten P = transaction-Ensures _ _ _ (
      bind-Ensures _ (λ n d. (n == 1) ≡ true → HasWritten d) _ _ _ (upsert_binding-HasWritten P)
        λ n.
          guard-Ensures _ _ _ _ _ λ one. revoke_requested-HasWritten _ _ _ λ d p. p (ground arith))
