-- ===== src/Proxy/Loads.antt =====
-- What a loaded plan is.
use mathlib.Core.Path.{◌≡◌, ◌∙◌, ap, sym}
use mathlib.Core.Option.{Option, some}
use agent_key_vault_jit_acce.Domain.Values.{Uuid, Bytes}
use agent_key_vault_jit_acce.Store.Tables.{Db}
use agent_key_vault_jit_acce.Store.Action.Ensures.{
  Ensures, reads-Ensures, bind-Ensures, or_raise-Ensures, guard-Ensures, pure-Ensures,
}
use agent_key_vault_jit_acce.Proxy.Plan.{Plan, Operation, load_plan, plan_row}

-- It is the plan of the request, and its operation is the frozen one.
abbrev pub IsLoaded : (Bytes → Option Operation) → Uuid → Db → Plan × Operation → Type 0
IsLoaded decode request_id d loaded =
    (plan_row d request_id ≡ some loaded.0) × (decode loaded.0.operation_snapshot ≡ some loaded.1)

pub load_plan-IsLoaded :
    (decode : Bytes → Option Operation) (request_id : Uuid) (before : Db)
    → Ensures
        (λ d. d ≡ before)
        (load_plan decode request_id)
        (λ loaded d. (d ≡ before) × IsLoaded decode request_id before loaded)
unfolding load_plan
load_plan-IsLoaded decode request_id before = reads-Ensures _ _ _ _ λ found.
    bind-Ensures _ _ _ _ _ (or_raise-Ensures _ _ _) λ plan. guard-Ensures _ _ _ _ _ λ named.
      guard-Ensures _ _ _ _ _ λ hashed. bind-Ensures _ _ _ _ _ (or_raise-Ensures _ _ _) λ operation.
        pure-Ensures _ _ _ λ d p.
          let same : d ≡ before = p.0.0.0 in
          (same, (ap (λ x. plan_row x request_id) (sym same) ∙ sym p.0.0.1 ∙ p.0.1, p.1))
