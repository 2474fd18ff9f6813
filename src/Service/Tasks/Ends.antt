-- ===== src/Service/Tasks/Ends.antt =====
-- What the end of a task leaves behind.
use mathlib.Core.Path.{◌≡◌, refl}
use mathlib.Core.Bool.{Bool, true, false, not, ◌&&◌, ◌||◌}
use mathlib.Core.List.{List}
use native.Mathlib.Omega.{arith}
use agent_key_vault_jit_acce.Prelude.Tests.{◌==◌, is_some, is_none}
use agent_key_vault_jit_acce.Prelude.Evolves.{All, All-updated, All-any}
use agent_key_vault_jit_acce.Domain.Task.{TaskStatus, is_active, can_transition_to}
use agent_key_vault_jit_acce.Domain.Grant.{is_approved, is_executing}
use agent_key_vault_jit_acce.Store.Tables.{Uuid, Time, Task, Grant}
use agent_key_vault_jit_acce.Store.Action.{World, ok}
use agent_key_vault_jit_acce.Store.Action.Ensures.{
  Ensures, bind-Ensures, transaction-Ensures, mask-Ensures, guard-Ensures, when_raise-Ensures,
  update_grants-Ensures, update_tasks-Ensures,
}
use agent_key_vault_jit_acce.Store.Tasks.{active_task_of, end_active_task}
use agent_key_vault_jit_acce.Service.Tasks.{end_task}

-- Not to be claimed any more, and to be cancelled if it is being executed.
abbrev pub Stopped : Grant → Type 0
Stopped g =
    (is_approved g.status ≡ false) × (is_executing g.status ≡ true → is_some g.revoked_at ≡ true)

ended-inactive :
    (outcome : TaskStatus)
    → can_transition_to TaskStatus.active outcome ≡ true
    → is_active outcome ≡ false
unfolding can_transition_to
ended-inactive outcome h = ground arith

module _ (task_id : Uuid) where
  abbrev pub GrantStopped : Grant → Type 0
  GrantStopped g = g.task_id ≡ task_id → Stopped g

module _ (task_id agent_id : Uuid) where
  abbrev pub TaskOver : Task → Type 0
  TaskOver t = t.id ≡ task_id → t.agent_id ≡ agent_id → is_active t.status ≡ false

  abbrev GrantUnclaimable : Grant → Type 0
  GrantUnclaimable g = g.task_id ≡ task_id → is_approved g.status ≡ false

  other-TaskOver : (t : Task) → active_task_of task_id agent_id t ≡ false → TaskOver t
  unfolding active_task_of
  other-TaskOver t h same agent = ground arith

  other-GrantUnclaimable :
      (g : Grant) → (g.task_id == task_id && is_approved g.status) ≡ false → GrantUnclaimable g
  other-GrantUnclaimable g h same = ground arith

  other-GrantStopped :
      (g : Grant)
      → (g.task_id == task_id && is_executing g.status && is_none g.revoked_at) ≡ false
      → GrantUnclaimable g
      → GrantStopped task_id g
  other-GrantStopped g h u same = (u same, λ e. ground arith)

  module _ (outcome : TaskStatus) (at : Time) where
    end_active_task-Ensures :
        is_active outcome ≡ false
        → Ensures
            (λ d. Unit {0})
            (end_active_task task_id agent_id outcome at)
            (λ ids d. All TaskOver d.tasks × All (GrantStopped task_id) d.grants)
    unfolding end_active_task
    end_active_task-Ensures inactive = transaction-Ensures _ _ _ (
        bind-Ensures _ (λ rows d. All TaskOver d.tasks) _ _ _
          (update_tasks-Ensures _ _ _ _ _ λ d p.
            All-updated (λ t. Unit {0}) TaskOver _ _ d.tasks (λ t e u same agent. inactive)
              (λ t e u. other-TaskOver t e) (All-any d.tasks))
          λ rows.
            bind-Ensures _ (λ u d. All TaskOver d.tasks × _) _ _ _ (when_raise-Ensures _ _ _)
              λ u.
                bind-Ensures _ (λ n d. All TaskOver d.tasks × All GrantUnclaimable d.grants) _ _ _
                  (update_grants-Ensures _ _ _ _ _ λ d p. (
                    p.0,
                    All-updated (λ g. Unit {0}) GrantUnclaimable _ _ d.grants (λ g e v same. refl)
                        (λ g e v. other-GrantUnclaimable g e) (All-any d.grants),
                  ))
                  λ n. update_grants-Ensures _ _ _ _ _ λ d p. (
                    p.0,
                    All-updated GrantUnclaimable (GrantStopped task_id) _ _ d.grants
                        (λ g e v same. (v same, λ x. refl)) (λ g e v. other-GrantStopped g e v) p.1,
                  ))

allowed-outcome : (a b c : Bool) → (a || b || not c) ≡ false → c ≡ true
allowed-outcome a b c h = ground arith

-- A task that is ended, for any outcome, is not active any more; none of its grants can be claimed
-- again, and each one that is being executed has been asked to cancel.
pub end_task-stops :
    (agent_id task_id : Uuid) (outcome : TaskStatus) (at : Time) (w : World) (ids : List Uuid)
    → (end_task agent_id task_id outcome at w).0 ≡ ok ids
    → All (TaskOver task_id agent_id) (end_task agent_id task_id outcome at w).1.db.tasks
      × All (GrantStopped task_id) (end_task agent_id task_id outcome at w).1.db.grants
unfolding end_task
end_task-stops agent_id task_id outcome at w ids =
    (guard-Ensures (λ d. Unit {0}) _ _ _ _
        λ passed. mask-Ensures _ _ _ _ (
          end_active_task-Ensures task_id agent_id outcome at (
            ended-inactive outcome
              (allowed-outcome (agent_id == 0) (task_id == 0) _ passed)))).holds
      w ids tt
