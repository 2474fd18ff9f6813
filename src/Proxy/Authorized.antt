-- ===== src/Proxy/Authorized.antt =====
-- What holds of the database when the proxies do anything outside it.
use mathlib.Core.Path.{◌≡◌, refl, ◌∙◌, ap, subst}
use mathlib.Core.Logic.{◌⊎◌, inl, inr}
use mathlib.Core.Bool.{Bool, false}
use mathlib.Core.Option.{Option}
use agent_key_vault_jit_acce.Prelude.Evolves.{Any, Any-map}
use agent_key_vault_jit_acce.Domain.Values.{Uuid, Time, Bytes}
use agent_key_vault_jit_acce.Store.Tables.{Db, Grant}
use agent_key_vault_jit_acce.Store.Action.{World}
use agent_key_vault_jit_acce.Store.Claims.Authorized.{Authorizes}
use agent_key_vault_jit_acce.Service.Approvals.{claim}
use agent_key_vault_jit_acce.Service.Approvals.Claims.{claim-Authorizes}
use agent_key_vault_jit_acce.Proxy.Plan.{Plan, Operation}
use agent_key_vault_jit_acce.Proxy.Loads.{IsLoaded, load_plan-IsLoaded}
use agent_key_vault_jit_acce.Proxy.Machine.{Proxy, Machine, done, execution_denied, store, ◌>>=◌}
use agent_key_vault_jit_acce.Proxy.Prepare.{
  Draws, Begun, claim_context, refuses_plan, begin_with, prepare,
}
use agent_key_vault_jit_acce.Proxy.Uses.{
  Quiet, Quiet-pure, Quiet-when_fail, Quiet-store, Quiet-bind, bind-trace, bind-done,
  when_fail-done, store-done,
}

module _ (agent_id task_id : Uuid) (now : Time) where
  -- A stored grant that authorizes the plan to the agent for the task.
  abbrev pub IsGranted : Db → Plan → Type 0
  IsGranted d plan = Any (Authorizes (claim_context plan agent_id task_id) now d) d.grants

  -- The plan of the request, which is the agent's for the task, runs on active rows, is of a kind
  -- that the proxy takes, and is granted.
  pub record IsAuthorized (decode : Bytes → Option Operation) (accepts : Plan → Operation → Bool)
      (request_id : Uuid) (d : Db) : Type 0 where
    pub plan : Plan
    pub operation : Operation
    pub loaded : IsLoaded decode request_id d (plan, operation)
    pub accepted : refuses_plan accepts agent_id task_id plan operation ≡ false
    pub granted : IsGranted d plan

module _ (accepts : Plan → Operation → Bool) (agent_id task_id : Uuid) (draws : Draws) where
  claimed :
      (plan : Plan) (m n : Machine) (g : Grant)
      → n ≡ m
      → (store execution_denied (claim (claim_context plan agent_id task_id) draws.claimed_at) n).0
        ≡ done g
      → IsGranted agent_id task_id draws.claimed_at m.world.db plan
  claimed plan m n g same h =
      let (claims, rest) = store-done _ _ m g (rw same at h) in
      Any-map _ _ (λ x p. p.0) m.world.db.grants (claim-Authorizes _ _ m.world g claims)

  begin_with-granted :
      (loaded : Plan × Operation) (m : Machine) (b : Begun)
      → (begin_with accepts agent_id task_id draws loaded m).0 ≡ done b
      → (refuses_plan accepts agent_id task_id loaded.0 loaded.1 ≡ false)
        × IsGranted agent_id task_id draws.claimed_at m.world.db loaded.0
  unfolding begin_with
  begin_with-granted loaded m b h =
      let (u, guard, runs) = bind-done _ _ m b h in
      let (accepted, same) = when_fail-done _ _ m u guard in
      let (g, claims, rest) = bind-done _ _ _ b (rw runs at h) in
      (accepted, claimed loaded.0 m _ g same claims)

  module _ (decode : Bytes → Option Operation) (request_id : Uuid) where
    pub prepare-IsAuthorized :
        (m : Machine) (b : Begun)
        → (prepare decode accepts request_id agent_id task_id draws m).0 ≡ done b
        → IsAuthorized agent_id task_id draws.claimed_at decode accepts request_id m.world.db
    unfolding prepare
    prepare-IsAuthorized m b h =
        let (loaded, load, runs) = bind-done _ _ m b h in
        let (read, world) = store-done _ _ m loaded load in
        let (same, is_loaded) =
          (load_plan-IsLoaded decode request_id m.world.db).holds m.world loaded refl read in
        let (accepted, granted) = begin_with-granted loaded _ b (rw runs at h) in
        record {
          plan = loaded.0;
          operation = loaded.1;
          loaded = is_loaded;
          accepted = accepted;
          granted =
              subst (λ d. IsGranted agent_id task_id draws.claimed_at d loaded.0)
                (ap (λ (w : World). w.db) world ∙ same) granted;
        }

    pub prepare-Quiet : Quiet (prepare decode accepts request_id agent_id task_id draws)
    unfolding prepare begin_with
    prepare-Quiet = Quiet-bind _ _ (Quiet-store _ _) λ loaded.
        Quiet-bind _ _ (Quiet-when_fail _ _) λ u.
          Quiet-bind _ _ (Quiet-store _ _) λ g. Quiet-bind _ _ (Quiet-store _ _) λ e. Quiet-pure _

    pub prepared-IsAuthorized :
        {A : Type 0} (f : Begun → Proxy A) (m : Machine)
        → (((prepare decode accepts request_id agent_id task_id draws >>= f) m).1.trace ≡ m.trace)
          ⊎ IsAuthorized agent_id task_id draws.claimed_at decode accepts request_id m.world.db
    prepared-IsAuthorized f m = elim (bind-trace _ f m prepare-Quiet) [
      | inl same ↦ inl same
      | inr (b, h) ↦ inr (prepare-IsAuthorized m b h)
    ]
