-- ===== src/Proxy/Serves.antt =====
-- What a request to the proxy's server leads to.
use mathlib.Core.Path.{◌≡◌, refl, ap, sym, subst}
use mathlib.Core.Logic.{◌⊎◌, inl, inr}
use mathlib.Core.Bool.{Bool, true, false, ◌||◌}
use mathlib.Core.List.{List}
use mathlib.Core.Option.{Option, none, some}
use native.Mathlib.Omega.{arith}
use agent_key_vault_jit_acce.Domain.Values.{Uuid, Time, Bytes, OperationKind}
use agent_key_vault_jit_acce.Store.Tables.{Db}
use agent_key_vault_jit_acce.Proxy.Plan.{Plan, Operation}
use agent_key_vault_jit_acce.Proxy.Machine.{
  Proxy, Effect, Machine, Outcome, done, failed, Failure, go_on, when_fail, pure, fail,
  execution_denied, ◌>>=◌, ◌>>◌,
}
use agent_key_vault_jit_acce.Proxy.Prepare.{Draws, refuses_plan}
use agent_key_vault_jit_acce.Proxy.Authorized.{IsAuthorized, prepared-IsAuthorized}
use agent_key_vault_jit_acce.Proxy.Http.{accepts_http, http_with, execute_http}
use agent_key_vault_jit_acce.Proxy.Postgres.{accepts_postgresql, execute_postgresql}
use agent_key_vault_jit_acce.Proxy.Sign.{accepts_sign, execute_sign}
use agent_key_vault_jit_acce.Proxy.Server.{Body, Runtime, dispatch}

abbrev pub accepts_any : Plan → Operation → Bool
accepts_any plan operation =
    accepts_http plan operation || accepts_postgresql plan operation || accepts_sign plan operation

-- No effect yet, or the plan is authorized to the agent.
abbrev pub UsedFor : Runtime → Draws → Uuid → Uuid → Uuid → Machine → Machine → Type 0
UsedFor runtime draws request_id agent_id task_id m n =
    (n.trace ≡ m.trace)
    ⊎ IsAuthorized agent_id task_id draws.claimed_at runtime.decode accepts_any request_id
        m.world.db

refuses_plan-weaken :
    (accepts others : Plan → Operation → Bool) (agent_id task_id : Uuid) (p : Plan) (o : Operation)
    → (accepts p o ≡ true → others p o ≡ true)
    → refuses_plan accepts agent_id task_id p o ≡ false
    → refuses_plan others agent_id task_id p o ≡ false
unfolding refuses_plan
refuses_plan-weaken accepts others agent_id task_id p o h r = ground arith

IsAuthorized-weaken :
    {agent_id task_id : Uuid} {now : Time} {decode : Bytes → Option Operation} {request_id : Uuid}
    {d : Db} (accepts others : Plan → Operation → Bool)
    → ((p : Plan) (o : Operation) → accepts p o ≡ true → others p o ≡ true)
    → IsAuthorized agent_id task_id now decode accepts request_id d
    → IsAuthorized agent_id task_id now decode others request_id d
IsAuthorized-weaken accepts others h a = record {
  plan = a.plan;
  operation = a.operation;
  loaded = a.loaded;
  accepted = refuses_plan-weaken accepts others _ _ a.plan a.operation (h _ _) a.accepted;
  granted = a.granted;
}

go_on-pure :
    {A B : Type 0} (f : A → B) (r : Outcome A × Machine) → (go_on (λ a. pure (f a)) r).1 ≡ r.1
unfolding go_on pure
go_on-pure f (done a, m) = refl
go_on-pure f (failed e, m) = refl

map-machine :
    {A B : Type 0} (p : Proxy A) (f : A → B) (m : Machine) → ((p >>= λ a. pure (f a)) m).1 ≡ (p m).1
unfolding ◌>>=◌
map-machine p f m = go_on-pure f (p m)

-- Behind a guard.
pub guard-machine :
    {A : Type 0} (b : Bool) (f : Failure) (p : Proxy A) (m : Machine)
    → (((when_fail b f >> p) m).1 ≡ m) ⊎ ((when_fail b f >> p) m ≡ p m)
unfolding when_fail ◌>>=◌ go_on
guard-machine true f p m = inl refl
guard-machine false f p m = inr refl

module _ (runtime : Runtime) (draws : Draws) (request_id agent_id task_id : Uuid) where
  used :
      {A : Type 0} (p : Proxy A) (f : A → Body) (m : Machine)
      → UsedFor runtime draws request_id agent_id task_id m (p m).1
      → UsedFor runtime draws request_id agent_id task_id m ((p >>= λ a. pure (f a)) m).1
  used p f m u =
      subst (UsedFor runtime draws request_id agent_id task_id m) (sym (map-machine p f m)) u

  weaken :
      (t : List Effect) (m : Machine) (accepts : Plan → Operation → Bool)
      → ((p : Plan) (o : Operation) → accepts p o ≡ true → accepts_any p o ≡ true)
      → (t ≡ m.trace)
        ⊎ IsAuthorized agent_id task_id draws.claimed_at runtime.decode accepts request_id
            m.world.db
      → (t ≡ m.trace)
        ⊎ IsAuthorized agent_id task_id draws.claimed_at runtime.decode accepts_any request_id
            m.world.db
  weaken t m accepts h (inl same) = inl same
  weaken t m accepts h (inr a) = inr (IsAuthorized-weaken accepts accepts_any h a)

  execute_http-UsedFor :
      (m : Machine)
      → UsedFor runtime draws request_id agent_id task_id m
          (execute_http runtime.http runtime.decode runtime.client draws request_id agent_id task_id
            m).1
  unfolding execute_http
  execute_http-UsedFor m = elim (guard-machine _ execution_denied _ m) [
    | inl same ↦ inl (ap (λ (n : Machine). n.trace) same)
    | inr runs ↦ rw runs (
        weaken _ m accepts_http (λ p o h. ground arith)
          (prepared-IsAuthorized accepts_http agent_id task_id draws runtime.decode request_id
            (http_with runtime.http runtime.client draws) m))
  ]

  pub dispatch-UsedFor :
      (k : Option OperationKind) (m : Machine)
      → UsedFor runtime draws request_id agent_id task_id m
          (dispatch runtime draws k request_id agent_id task_id m).1
  unfolding dispatch execute_sign execute_postgresql fail
  dispatch-UsedFor (some OperationKind.http) m = used _ _ m (execute_http-UsedFor m)
  dispatch-UsedFor (some OperationKind.sign) m = used _ _ m (
      weaken _ m accepts_sign (λ p o h. ground arith)
        (prepared-IsAuthorized accepts_sign agent_id task_id draws runtime.decode request_id _ m))
  dispatch-UsedFor (some OperationKind.postgresql_statement) m = used _ _ m (
      weaken _ m accepts_postgresql (λ p o h. ground arith)
        (prepared-IsAuthorized accepts_postgresql agent_id task_id draws runtime.decode request_id _
          m))
  dispatch-UsedFor (some OperationKind.postgresql_transaction) m = used _ _ m (
      weaken _ m accepts_postgresql (λ p o h. ground arith)
        (prepared-IsAuthorized accepts_postgresql agent_id task_id draws runtime.decode request_id _
          m))
  dispatch-UsedFor none m = inl refl
