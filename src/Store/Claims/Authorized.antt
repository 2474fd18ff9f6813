-- ===== src/Store/Claims/Authorized.antt =====
-- What a claim is allowed by, said without the SQL that tests it.
use mathlib.Core.Path.{◌≡◌, ap}
use mathlib.Core.Bool.{true, ◌&&◌}
use mathlib.Core.Option.{Option, none, some}
use Prim.Native.Nat.{ℕ, ◌<◌}
use native.Mathlib.Omega.{arith}
use agent_key_vault_jit_acce.Prelude.Same.{bytes_eq→≡}
use agent_key_vault_jit_acce.Prelude.Tests.{◌==◌, ==→eq, ltb→lt, and-eq-true, holds_value}
use agent_key_vault_jit_acce.Prelude.Rows.{any_row, bytes_eq}
use agent_key_vault_jit_acce.Prelude.Evolves.{Any, Any-map, any_row-Any}
use agent_key_vault_jit_acce.Domain.Task.{TaskStatus}
use agent_key_vault_jit_acce.Domain.Task
use agent_key_vault_jit_acce.Domain.Grant.{GrantStatus, is_approved}
use agent_key_vault_jit_acce.Store.Tables.{
  Db, Uuid, Time, Task, Catalog, Target, Credential, Request, Grant,
}
use agent_key_vault_jit_acce.Store.Authorization.{
  ClaimContext, has_active_task, is_current, is_bound,
}
use agent_key_vault_jit_acce.Store.Claims.{claimable}
use agent_key_vault_jit_acce.Store.Claims.Bound.{BindingHolds, bound-Any}

-- The target is active, configured as when the request was made, still uses the credential, and
-- still has the operation bound to it.
pub record TargetHolds (c : Catalog) (r : Request) (t : Target) : Type 0 where
  pub target : t.id ≡ r.target_id
  pub active : t.active ≡ true
  pub configuration : t.config_version ≡ r.target_config_version
  pub default : t.default_credential_id ≡ some r.credential_id
  pub credential :
      Any (λ (k : Credential). (k.id ≡ r.credential_id) × (k.active ≡ true)) c.credentials
  pub format : r.request_format ≡ 2
  pub binding : Any (BindingHolds c r t) c.bindings

-- The grant's own request, for the same operation, with a target that holds.
pub record RequestHolds (d : Db) (g : Grant) (r : Request) : Type 0 where
  pub request : r.id ≡ g.request_id
  pub operation : r.operation_hash ≡ g.operation_hash
  pub target : Any (TargetHolds d.catalog r) d.catalog.targets

pub record Authorizes (c : ClaimContext) (now : Time) (d : Db) (g : Grant) : Type 0 where
  pub grant : g.id ≡ c.grant_id
  pub agent : g.agent_id ≡ c.agent_id
  pub task : g.task_id ≡ c.task_id
  pub target : g.target_id ≡ c.target_id
  pub credential : g.credential_id ≡ c.credential_id
  pub operation : g.operation_hash ≡ c.operation_hash
  pub status : g.status ≡ GrantStatus.approved
  pub unexpired : now < g.expires_at
  pub active_task :
      Any
        (λ (t : Task).
          (t.id ≡ c.task_id) × (t.agent_id ≡ c.agent_id) × (t.status ≡ TaskStatus.active))
        d.tasks
  pub request : Any (RequestHolds d g) d.requests

approved_status : (s : GrantStatus) → is_approved s ≡ true → s ≡ GrantStatus.approved
approved_status s h = ground arith

active_status : (s : TaskStatus) → Task.is_active s ≡ true → s ≡ TaskStatus.active
active_status s h = ground arith

holds-some : (o : Option ℕ) (n : ℕ) → holds_value o n ≡ true → o ≡ some n
holds-some none n h = absurd (cc)
holds-some (some m) n h = ap some (==→eq m n h)

module _ (d : Db) where
  active_task-row :
      (t : Task) (task_id agent_id : Uuid)
      → (t.id == task_id && t.agent_id == agent_id && Task.is_active t.status) ≡ true
      → (t.id ≡ task_id) × (t.agent_id ≡ agent_id) × (t.status ≡ TaskStatus.active)
  active_task-row t task_id agent_id h =
      let (ids, s) = and-eq-true _ _ h in
      let (a, b) = and-eq-true _ _ ids in (==→eq _ _ a, ==→eq _ _ b, active_status _ s)

  active_task-Any :
      (task_id agent_id : Uuid)
      → has_active_task d task_id agent_id ≡ true
      → Any
          (λ (t : Task).
            (t.id ≡ task_id) × (t.agent_id ≡ agent_id) × (t.status ≡ TaskStatus.active))
          d.tasks
  unfolding has_active_task
  active_task-Any task_id agent_id h =
      Any-map _ _ (λ t. active_task-row t task_id agent_id) d.tasks (any_row-Any _ d.tasks h)

  credential-row :
      (k : Credential) (r : Request)
      → (k.id == r.credential_id && k.active) ≡ true
      → (k.id ≡ r.credential_id) × (k.active ≡ true)
  credential-row k r h = let (a, b) = and-eq-true _ _ h in (==→eq _ _ a, b)

  target-row :
      (r : Request) (t : Target)
      → (t.id == r.target_id
          && t.active
          && any_row (λ k. k.id == r.credential_id && k.active) d.catalog.credentials
          && holds_value t.default_credential_id r.credential_id
          && r.request_format == 2
          && t.config_version == r.target_config_version
          && is_bound d.catalog t.id r.operation_id r.operation_version r.definition_hash)
        ≡ true
      → TargetHolds d.catalog r t
  target-row r t h₁ =
      let (h₂, b) = and-eq-true _ _ h₁ in
      let (h₃, version) = and-eq-true _ _ h₂ in
      let (h₄, format) = and-eq-true _ _ h₃ in
      let (h₅, default) = and-eq-true _ _ h₄ in
      let (h₆, k) = and-eq-true _ _ h₅ in
      let (id, active) = and-eq-true _ _ h₆ in
      record {
        target = ==→eq _ _ id;
        active = active;
        configuration = ==→eq _ _ version;
        default = holds-some _ _ default;
        credential =
            Any-map _ _ (λ x. credential-row x r) d.catalog.credentials (any_row-Any _ _ k);
        format = ==→eq _ _ format;
        binding = bound-Any d r t b;
      }

  current-Any :
      (r : Request)
      → is_current d.catalog r ≡ true
      → Any (TargetHolds d.catalog r) d.catalog.targets
  unfolding is_current
  current-Any r h = Any-map _ _ (target-row r) d.catalog.targets (any_row-Any _ _ h)

  request-row :
      (g : Grant) (r : Request)
      → (r.id == g.request_id
          && bytes_eq r.operation_hash g.operation_hash
          && is_current d.catalog r)
        ≡ true
      → RequestHolds d g r
  request-row g r h₁ =
      let (h₂, current) = and-eq-true _ _ h₁ in
      let (id, hash) = and-eq-true _ _ h₂ in
      record {
        request = ==→eq _ _ id;
        operation = bytes_eq→≡ _ _ hash;
        target = current-Any r current;
      }

  pub claimable-Authorizes :
      (c : ClaimContext) (now : Time) (g : Grant)
      → claimable c now d g ≡ true
      → Authorizes c now d g
  unfolding claimable
  claimable-Authorizes c now g h₁ =
      let (h₂, requests) = and-eq-true _ _ h₁ in
      let (h₃, tasks) = and-eq-true _ _ h₂ in
      let (h₄, time) = and-eq-true _ _ h₃ in
      let (ids, status) = and-eq-true _ _ h₄ in
      let (i₁, hash) = and-eq-true _ _ ids in
      let (i₂, credential) = and-eq-true _ _ i₁ in
      let (i₃, target) = and-eq-true _ _ i₂ in
      let (i₄, task) = and-eq-true _ _ i₃ in
      let (grant, agent) = and-eq-true _ _ i₄ in
      record {
        grant = ==→eq _ _ grant;
        agent = ==→eq _ _ agent;
        task = ==→eq _ _ task;
        target = ==→eq _ _ target;
        credential = ==→eq _ _ credential;
        operation = bytes_eq→≡ _ _ hash;
        status = approved_status _ status;
        unexpired = ltb→lt _ _ time;
        active_task =
            active_task-Any c.task_id c.agent_id (rw (==→eq _ _ task, ==→eq _ _ agent) at tasks);
        request = Any-map _ _ (request-row g) d.requests (any_row-Any _ _ requests);
      }
