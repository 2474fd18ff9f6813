-- ===== src/Service/Lifecycle/Sweeps.antt =====
-- What a sweep leaves behind.
use mathlib.Core.Path.{◌≡◌}
use mathlib.Core.Bool.{true, false, ◌&&◌}
use mathlib.Core.List.{List, [], ◌∷◌}
use Prim.Native.Nat.{◌-◌, ◌<◌}
use native.Mathlib.Omega.{arith}
use agent_key_vault_jit_acce.Prelude.Tests.{leb}
use agent_key_vault_jit_acce.Prelude.Evolves.{All, All-updated, All-update_rows, All-any}
use agent_key_vault_jit_acce.Domain.Task
use agent_key_vault_jit_acce.Domain.Request.{is_pending}
use agent_key_vault_jit_acce.Domain.Grant.{is_approved}
use agent_key_vault_jit_acce.Store.Tables.{Db, Uuid, Time, Task, Request, Grant}
use agent_key_vault_jit_acce.Store.Action.{World, ok}
use agent_key_vault_jit_acce.Store.Action.Ensures.{
  Ensures, bind-Ensures, transaction-Ensures, mask-Ensures, pure-Ensures, update_grants-Ensures,
  update_requests-Ensures, update_tasks-Ensures,
}
use agent_key_vault_jit_acce.Store.Tasks.{silent_since}
use agent_key_vault_jit_acce.Store.Lifecycle.{SweepResult, revoke_lost, sweep_expired_and_lost}
use agent_key_vault_jit_acce.Service.Lifecycle.{agent_lost_after, sweep}

module _ (now cutoff : Time) where
  -- A pending request is still before its deadline.
  abbrev pub RequestTimely : Request → Type 0
  RequestTimely r = is_pending r.status ≡ true → now < r.approval_deadline

  abbrev pub GrantTimely : Grant → Type 0
  GrantTimely g = is_approved g.status ≡ true → now < g.expires_at

  -- An active task has sent a heartbeat since the cutoff.
  abbrev pub TaskAlive : Task → Type 0
  TaskAlive t = Task.is_active t.status ≡ true → cutoff < t.last_heartbeat_at

  other-RequestTimely :
      (r : Request) → (is_pending r.status && leb r.approval_deadline now) ≡ false → RequestTimely r
  other-RequestTimely r h p = ground arith

  other-GrantTimely :
      (g : Grant) → (is_approved g.status && leb g.expires_at now) ≡ false → GrantTimely g
  other-GrantTimely g h p = ground arith

  other-TaskAlive : (t : Task) → silent_since cutoff t ≡ false → TaskAlive t
  unfolding silent_since
  other-TaskAlive t h p = ground arith

  abbrev Swept : Db → Type 0
  Swept d = All RequestTimely d.requests × All GrantTimely d.grants × All TaskAlive d.tasks

  revoke_lost-Ensures : (ids : List Uuid) → Ensures Swept (revoke_lost now ids) (λ r d. Swept d)
  unfolding revoke_lost
  revoke_lost-Ensures [] = pure-Ensures _ _ _ λ d p. p
  revoke_lost-Ensures (id ∷ ids) =
      bind-Ensures _ (λ n d. Swept d) _ _ _
        (update_grants-Ensures _ _ _ _ _
          λ d p. (p.0, All-update_rows GrantTimely _ _ d.grants (λ g e t a. cc) p.1, p.2))
        λ n.
          update_grants-Ensures _ _ _ _ _
            λ d p. (p.0, All-update_rows GrantTimely _ _ d.grants (λ g e t. t) p.1, p.2)

  sweep-Ensures : Ensures (λ d. Unit {0}) (sweep_expired_and_lost now cutoff) (λ result d. Swept d)
  unfolding sweep_expired_and_lost
  sweep-Ensures = transaction-Ensures _ _ _ (
      bind-Ensures _ (λ n d. All RequestTimely d.requests) _ _ _
        (update_requests-Ensures _ _ _ _ _ λ d p.
          All-updated (λ r. Unit {0}) RequestTimely _ _ d.requests (λ r e u a. cc)
            (λ r e u. other-RequestTimely r e) (All-any d.requests))
        λ n.
          bind-Ensures _ (λ m d. All RequestTimely d.requests × All GrantTimely d.grants) _ _ _
            (update_grants-Ensures _ _ _ _ _ λ d p. (
              p,
              All-updated (λ g. Unit {0}) GrantTimely _ _ d.grants (λ g e u a. cc)
                  (λ g e u. other-GrantTimely g e) (All-any d.grants),
            ))
            λ m.
              bind-Ensures _ (λ lost d. Swept d) _ _ _
                (update_tasks-Ensures _ _ _ _ _ λ d p. (
                  p.0,
                  p.1,
                  All-updated (λ t. Unit {0}) TaskAlive _ _ d.tasks (λ t e u a. cc)
                      (λ t e u. other-TaskAlive t e) (All-any d.tasks),
                ))
                λ lost.
                  bind-Ensures _ (λ r d. Swept d) _ _ _ (revoke_lost-Ensures lost)
                    λ r. pure-Ensures _ _ _ λ d p. p)

-- After a sweep no pending request is past its deadline, no approved grant has expired, and every
-- active task has sent a heartbeat within the last 45 seconds.
pub sweep-leaves :
    (now : Time) (w : World) (result : SweepResult)
    → (sweep now w).0 ≡ ok result
    → All (RequestTimely now (now - agent_lost_after)) (sweep now w).1.db.requests
      × All (GrantTimely now (now - agent_lost_after)) (sweep now w).1.db.grants
      × All (TaskAlive now (now - agent_lost_after)) (sweep now w).1.db.tasks
unfolding sweep
sweep-leaves now w result =
    (mask-Ensures _ _ _ _ (sweep-Ensures now (now - agent_lost_after))).holds w result tt
