-- ===== src/Service/Approvals/Decides.antt =====
-- What a successful decision shows, and what it writes.
use mathlib.Core.Path.{◌≡◌, refl, ap, sym, ◌∙◌}
use mathlib.Core.Bool.{Bool, true, false, not}
use mathlib.Core.Option.{Option, none, some}
use Prim.Native.Nat.{ℕ, ◌+◌, ◌<◌, ◌≤◌}
use native.Mathlib.Omega.{arith}
use agent_key_vault_jit_acce.Prelude.Tests.{◌==◌, leb}
use agent_key_vault_jit_acce.Prelude.Int.{ℤ, pos_part}
use agent_key_vault_jit_acce.Prelude.Evolves.{Any, Any-insert_row, Any-updated}
use agent_key_vault_jit_acce.Store.Tables.{Db, Uuid, Time, Decision, Request, Approval, Grant}
use agent_key_vault_jit_acce.Store.Action.{World, ok, approval_expired, internal}
use agent_key_vault_jit_acce.Store.Action.Ensures.{
  Ensures, bind-Ensures, guard-Ensures, reads-Ensures, transaction-Ensures, mask-Ensures,
  pure-Ensures, raise-Ensures, any-Ensures, frame-Ensures, after-Ensures, when_raise-Ensures,
  or_raise-Ensures, update_requests-Ensures, insert_approval-Ensures, insert_grant-Ensures,
}
use agent_key_vault_jit_acce.Store.Authorization.{
  DecisionContext, DecisionCommand, context_row, find_decision_context, lock_active_task, decidable,
  decided, granted, insert_grant_if, decide_pending, is_approve,
}
use agent_key_vault_jit_acce.Service.Identity.{User, can_approve}
use agent_key_vault_jit_acce.Service.Approvals.{
  maximum_grant_ttl, ttl_of, ttl_refused, make_grant, refuse_expired, decide,
}

-- The grant is the request's, starts now, and lasts for some time but at most ten minutes.
pub record GrantFollows (r : Request) (now : Time) (g : Grant) : Type 0 where
  pub request : g.request_id ≡ r.id
  pub agent : g.agent_id ≡ r.agent_id
  pub task : g.task_id ≡ r.task_id
  pub target : g.target_id ≡ r.target_id
  pub credential : g.credential_id ≡ r.credential_id
  pub operation : g.operation_hash ≡ r.operation_hash
  pub start : g.approved_at ≡ now
  pub lasts : now < g.expires_at
  pub bounded : g.expires_at ≤ now + maximum_grant_ttl

-- A grant comes with an approval, and only with one.
abbrev pub Follows : Request → Time → Decision → Option Grant → Type 0
Follows r now decision (some g) = (decision ≡ Decision.approve) × GrantFollows r now g
Follows r now decision none = is_approve decision ≡ false

follows-granted :
    (ttl : ℤ) (r : Request) (id : Uuid) (now : Time)
    → ttl_refused ttl ≡ false
    → (now < now + pos_part ttl) × (now + pos_part ttl ≤ now + maximum_grant_ttl)
follows-granted ttl r id now h = ground arith

module _ (P : Db → Type 0) (r : Request) (now : Time) where
  make_grant-Ensures :
      (decision : Decision) (ttl : Option ℤ) (id : Option Uuid)
      → Ensures P (make_grant decision ttl r id now) (λ g d. P d × Follows r now decision g)
  unfolding make_grant
  make_grant-Ensures Decision.approve ttl id = guard-Ensures P _ _ _ _ λ refused.
      bind-Ensures _ _ _ _ _ (or_raise-Ensures P id internal) λ i. pure-Ensures _ _ _ λ d p.
        let (lo, hi) = follows-granted (ttl_of ttl) r i now refused in
        (
          p.0,
          (
            refl,
            record {
              request = refl;
              agent = refl;
              task = refl;
              target = refl;
              credential = refl;
              operation = refl;
              start = refl;
              lasts = lo;
              bounded = hi;
            },
          ),
        )
  make_grant-Ensures Decision.reject ttl id = pure-Ensures _ _ _ λ d p. (p, refl)
  make_grant-Ensures Decision.other ttl id = pure-Ensures _ _ _ λ d p. (p, refl)

  -- An expired request does not get past this.
  refuse_expired-Ensures :
      (b : Bool) (id : Uuid) → Ensures P (refuse_expired b id now) (λ u d. P d × (b ≡ false))
  unfolding refuse_expired
  refuse_expired-Ensures false id = pure-Ensures _ _ _ λ d p. (p, refl)
  refuse_expired-Ensures true id =
      bind-Ensures P (λ a d. Unit {0}) _ _ _ (any-Ensures P _)
        λ a. raise-Ensures _ _ approval_expired

module _ (d₀ : Db) (request_id : Uuid) where
  -- The context is read from the rows as they are.
  find-Ensures :
      Ensures
        (λ d. d ≡ d₀)
        (find_decision_context request_id)
        (λ c d. (d ≡ d₀) × (context_row d₀ request_id ≡ some c))
  unfolding find_decision_context
  find-Ensures = reads-Ensures _ _ _ _ λ found.
      bind-Ensures _ _ _ _ _ (or_raise-Ensures _ found internal) λ c. guard-Ensures _ _ _ _ _ λ u.
        guard-Ensures _ _ _ _ _ λ v.
          pure-Ensures _ _ _
            λ d p. (p.0.0, sym (ap (λ x. context_row x request_id) p.0.0) ∙ sym p.0.1 ∙ p.1)

abbrev pub GrantWritten : Option Grant → Db → Type 0
GrantWritten none d = Unit
GrantWritten (some g) d = Any (λ x. x ≡ granted g) d.grants

-- The request has the decision as its status, and the approval and the grant are in their tables.
pub record Written (c : DecisionCommand) (d : Db) : Type 0 where
  pub request :
      Any
        (λ (r : Request). (r.id ≡ c.context.request.id) × (r.status ≡ decided c.approval.decision))
        d.requests
  pub approval : Any (λ a. a ≡ c.approval) d.approvals
  pub grant : GrantWritten c.grant d

not-leb : (a b : ℕ) → leb a b ≡ false → b < a
not-leb a b h = ground arith

not-false : (b : Bool) → not b ≡ false → b ≡ true
not-false b h = ground arith

module _ (c : DecisionCommand) where
  abbrev Decided : Db → Type 0
  Decided d =
      Any
        (λ (r : Request). (r.id ≡ c.context.request.id) × (r.status ≡ decided c.approval.decision))
        d.requests

  decidable-id : (d : Db) (r : Request) → decidable c d r ≡ true → r.id ≡ c.context.request.id
  unfolding decidable
  decidable-id d r h = ground arith

  lock-Ensures :
      (b : Bool) (r : Request) → Ensures (λ d. Unit {0}) (lock_active_task b r) (λ u d. Unit {0})
  lock-Ensures b r = any-Ensures _ _

  grant-Ensures :
      (g : Option Grant)
      → Ensures
          (λ d. Decided d × Any (λ a. a ≡ c.approval) d.approvals)
          (insert_grant_if g)
          (λ u d. Decided d × Any (λ a. a ≡ c.approval) d.approvals × GrantWritten g d)
  unfolding insert_grant_if
  grant-Ensures none = pure-Ensures _ _ _ λ d p. (p.0, p.1, tt)
  grant-Ensures (some g) =
      insert_grant-Ensures _ _ (granted g) λ d p. (p.0, p.1, Any-insert_row _ _ d.grants refl)

  decide_pending-Ensures : (P : Db → Type 0) → Ensures P (decide_pending c) (λ u d. Written c d)
  unfolding decide_pending
  decide_pending-Ensures P = transaction-Ensures _ _ _ (
      bind-Ensures _ (λ u d. Unit {0}) _ _ _ (any-Ensures _ _)
        λ u.
          bind-Ensures _ (λ rows d. (rows == 1) ≡ true → Decided d) _ _ _
            (update_requests-Ensures _ _ _ _ _
              λ d p h. Any-updated _ _ _ d.requests (λ r t. (decidable-id d r t, refl)) h)
            λ rows. bind-Ensures _ _ _ _ _ (when_raise-Ensures _ _ _) λ v.
              bind-Ensures _ (λ a d. Decided d × Any (λ a. a ≡ c.approval) d.approvals) _ _ _
                (insert_approval-Ensures _ _ c.approval
                  λ d p. (p.0 (not-false _ p.1), Any-insert_row _ _ d.approvals refl))
                λ a.
                  after-Ensures _ _ _ _ (grant-Ensures c.grant)
                    λ v d p. record { request = p.0; approval = p.1; grant = p.2 })

-- What was so before a decision: its request was found, in the context that it is decided in, the
-- actor may approve for the owner of the agent, and the deadline is ahead.
pub record Decidable (d : Db) (actor : User) (request_id : Uuid) (now : Time) (c : DecisionContext)
    : Type 0 where
  pub found : context_row d request_id ≡ some c
  pub permitted : can_approve actor c.agent_owner_user_id ≡ true
  pub timely : now < c.request.approval_deadline

module _ (actor : User) (request_id : Uuid) (decision : Decision) (ttl : Option ℤ) (now : Time)
    (approval_id grant_id : Option Uuid) where
  abbrev pub DecisionOutcome : Db → Approval × Option Grant → Db → Type 0
  DecisionOutcome d₀ result d =
      (c : DecisionContext) × Decidable d₀ actor request_id now c
      × Follows c.request now decision (result.1)
      × (result.0.approver_user_id ≡ actor.id)
      × (result.0.request_id ≡ request_id)
      × (result.0.decision ≡ decision)
      × Written (record { context = c; approval = result.0; grant = result.1; now = now }) d

  decide-Ensures :
      (d₀ : Db)
      → Ensures
          (λ d. d ≡ d₀)
          (decide actor request_id decision ttl now approval_id grant_id)
          (DecisionOutcome d₀)
  unfolding decide
  decide-Ensures d₀ = guard-Ensures _ _ _ _ _ λ u.
      bind-Ensures _ (λ c d. (d ≡ d₀) × (context_row d₀ request_id ≡ some c)) _ _ _
        (mask-Ensures _ _ _ _ (find-Ensures d₀ request_id))
        λ c. guard-Ensures _ _ _ _ _ λ permitted.
          bind-Ensures _ _ _ _ _ (refuse_expired-Ensures _ c.request now _ request_id) λ v.
            bind-Ensures _ _ _ _ _ (or_raise-Ensures _ approval_id internal) λ id.
              bind-Ensures _ _ _ _ _ (make_grant-Ensures _ c.request now decision ttl grant_id) λ g.
                bind-Ensures _ _ _ _ _
                  (frame-Ensures _
                    (Decidable d₀ actor request_id now c × Follows c.request now decision g) _ _
                    (λ d p. (
                      record {
                        found = p.0.0.0.1;
                        permitted = not-false _ permitted;
                        timely = not-leb _ _ p.0.0.1;
                      },
                      p.1,
                    ))
                    (mask-Ensures _ _ _ _ (decide_pending-Ensures _ _)))
                  λ x. pure-Ensures _ _ _ λ d p. (c, p.0.0, p.0.1, refl, refl, refl, p.1)

  -- A decision that succeeds was made by a user who may approve for the agent's owner, before the
  -- request's deadline, for a request that was found. It is in the tables: the request has the
  -- decision as its status, the approval names the actor, and there is a grant exactly when the
  -- decision is an approval; the grant copies the request and lasts for at most ten minutes.
  pub decide-ok :
      (w : World) (result : Approval × Option Grant)
      → (decide actor request_id decision ttl now approval_id grant_id w).0 ≡ ok result
      → DecisionOutcome w.db result
          (decide actor request_id decision ttl now approval_id grant_id w).1.db
  decide-ok w result = (decide-Ensures w.db).holds w result refl
