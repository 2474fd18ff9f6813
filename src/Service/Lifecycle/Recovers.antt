-- ===== src/Service/Lifecycle/Recovers.antt =====
-- How a recovery counts its items.
use mathlib.Core.Path.{◌≡◌, refl, ap, ◌∙◌}
use mathlib.Core.Bool.{Bool, true, false}
use mathlib.Core.Option.{Option, none, some}
use mathlib.Core.List.{List, [], ◌∷◌, map}
use Prim.Native.Nat.{ℕ, ◌+◌, ◌≤◌}
use native.Mathlib.Omega.{arith}
use agent_key_vault_jit_acce.Prelude.Rows.{length}
use agent_key_vault_jit_acce.Prelude.Evolves.{length-take}
use agent_key_vault_jit_acce.Store.Tables.{Db, Uuid, Time}
use agent_key_vault_jit_acce.Store.Action.{World, Result, ok}
use agent_key_vault_jit_acce.Store.Action.Inversion.{
  Total, bind-Total, attempt-Total, pure-Total, bind-runs,
}
use agent_key_vault_jit_acce.Store.Action.Ensures.{
  Ensures, bind-Ensures, transaction-Ensures, pure-Ensures, any-Ensures, after-Ensures,
  query-Ensures,
}
use agent_key_vault_jit_acce.Store.Recovery.{
  RecoveryItem, recovery_items, mark_stuck_and_list_recovery,
}
use agent_key_vault_jit_acce.Service.Lifecycle.{
  Turn, RecoveryResult, recovery_batch, recover_item, recover_started, recover_items, count_item,
  recover,
}

length-map {ℓ κ} :
    {A : Type ℓ} {B : Type κ} (f : A → B) (xs : List A) → length (map f xs) ≡ length xs
length-map f [] = refl
length-map f (x ∷ xs) = omega (arith, length-map f xs)

recovery_items-length : (limit : ℕ) (d : Db) → length (recovery_items limit d) ≤ limit
unfolding recovery_items
recovery_items-length limit d = rw length-map (length-take limit _)

mark_stuck-Ensures :
    (now : Time) (limit : ℕ)
    → Ensures
        (λ d. Unit {0})
        (mark_stuck_and_list_recovery now limit)
        (λ items d. length items ≤ limit)
unfolding mark_stuck_and_list_recovery
mark_stuck-Ensures now limit = transaction-Ensures _ _ _ (
    bind-Ensures _ (λ n d. Unit {0}) _ _ _ (any-Ensures _ _)
      λ n.
        bind-Ensures _ (λ m d. Unit {0}) _ _ _ (any-Ensures _ _)
          λ m.
            after-Ensures _ _ _ _ (query-Ensures _ (recovery_items limit))
              λ items d p. rw p.1 (recovery_items-length limit d))

-- Every round counts its item once, however it ends.
abbrev Counted : RecoveryResult → ℕ → RecoveryResult → Type 0
Counted before n after =
    (after.candidates ≡ before.candidates)
    × (after.recovered + after.failed ≡ before.recovered + before.failed + n)

counts :
    (done : Bool) (before : RecoveryResult) (n : ℕ) (after : RecoveryResult)
    → Counted (count_item done before) n after
    → Counted before (n + 1) after
counts true before n after p = (p.0, omega (arith, p.1))
counts false before n after p = (p.0, omega (arith, p.1))

recover_items-Ensures :
    (turns : Uuid → Turn) (items : List RecoveryItem) (result : RecoveryResult)
    → Ensures
        (λ d. Unit {0})
        (recover_items turns items result)
        (λ after d. Counted result (length items) after)
unfolding recover_items
recover_items-Ensures turns [] result = pure-Ensures _ _ _ λ d p. (refl, omega arith)
recover_items-Ensures turns (item ∷ items) result =
    bind-Ensures _ (λ done d. Unit {0}) _ _ _ (any-Ensures _ _)
      λ done.
        after-Ensures _ _ _ _ (recover_items-Ensures turns items (count_item done result))
          λ after d p.
            let (same, total) = counts done result (length items) after p in
            (same, omega (arith, total))

recover_started-Total :
    (turn : Turn) (item : RecoveryItem) (reclaim : Option Uuid)
    → Total (recover_started turn item reclaim)
unfolding recover_started
recover_started-Total turn item none = pure-Total false
recover_started-Total turn item (some id) =
    bind-Total _ _ (attempt-Total _) λ finished. pure-Total _

recover_item-Total : (turn : Turn) (item : RecoveryItem) → Total (recover_item turn item)
unfolding recover_item
recover_item-Total turn item =
    bind-Total _ _ (attempt-Total _) λ reclaim. recover_started-Total turn item reclaim

recover_items-Total :
    (turns : Uuid → Turn) (items : List RecoveryItem) (result : RecoveryResult)
    → Total (recover_items turns items result)
unfolding recover_items
recover_items-Total turns [] result = pure-Total result
recover_items-Total turns (item ∷ items) result =
    bind-Total _ _ (recover_item-Total (turns item.execution_id) item)
      λ done. recover_items-Total turns items (count_item done result)

-- Once the candidates are listed, a recovery ends well, whatever fails on the way: it has taken the
-- listed candidates, at most a hundred, and counted each one as either recovered or failed.
pub recover-counts :
    (turns : Uuid → Turn) (now : Time) (w : World) (items : List RecoveryItem)
    → (mark_stuck_and_list_recovery now recovery_batch w).0 ≡ ok items
    → (r : RecoveryResult) × ((recover turns now w).0 ≡ ok r)
      × (r.candidates ≡ length items)
      × (r.recovered + r.failed ≡ length items)
      × (length items ≤ 100)
unfolding recover
recover-counts turns now w items listed =
    let start : RecoveryResult = record { candidates = length items; recovered = 0; failed = 0 } in
    let listing = mark_stuck_and_list_recovery now recovery_batch in
    let loop = λ (is : List RecoveryItem).
      recover_items turns is (record { candidates = length is; recovered = 0; failed = 0 }) in
    let (r, e) = recover_items-Total turns items start (listing w).1 in
    let counted = (recover_items-Ensures turns items start).holds (listing w).1 r tt e in
    (
      r,
      ap (λ (x : Result RecoveryResult × World). x.0) (bind-runs listing loop w items listed) ∙ e,
      counted.0,
      omega (arith, counted.1),
      (mark_stuck-Ensures now recovery_batch).holds w items tt listed,
    )
