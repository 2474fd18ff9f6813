-- ===== src/Proxy/Answers.antt =====
-- A request to the proxy's server, from its header to the target.
use mathlib.Core.Path.{◌≡◌, refl, ◌∙◌, ap, sym, subst}
use mathlib.Core.Logic.{◌⊎◌, inl, inr}
use mathlib.Core.Option.{Option, none, some}
use agent_key_vault_jit_acce.Prelude.Tests.{Bool-cases}
use agent_key_vault_jit_acce.Domain.Values.{Uuid, Time, Bytes, OperationKind}
use agent_key_vault_jit_acce.Store.Tables.{Db}
use agent_key_vault_jit_acce.Store.Action.{World, Result, ok, err}
use agent_key_vault_jit_acce.Store.Accounts.Agents.{find_agent_by_token_hash}
use agent_key_vault_jit_acce.Store.Action.Ensures.{
  Ensures, reads-Ensures, bind-Ensures, guard-Ensures, pure-Ensures, after-Ensures, mask-Ensures,
  or_raise-Preserves,
}
use agent_key_vault_jit_acce.Service.Agents.{Principal, authenticate}
use agent_key_vault_jit_acce.Proxy.Plan.{Plan, Operation, load_plan}
use agent_key_vault_jit_acce.Proxy.Machine.{
  Machine, Outcome, done, failed, execution_denied, try_store, store, attempted,
}
use agent_key_vault_jit_acce.Proxy.Loads.{load_plan-IsLoaded}
use agent_key_vault_jit_acce.Proxy.Prepare.{Draws}
use agent_key_vault_jit_acce.Proxy.Uses.{Quiet-store, Outcome-cases, store-done}
use agent_key_vault_jit_acce.Proxy.Authorized.{IsAuthorized}
use agent_key_vault_jit_acce.Proxy.Serves.{accepts_any, UsedFor, dispatch-UsedFor, guard-machine}
use agent_key_vault_jit_acce.Proxy.Server.{
  Body, ExecuteRequest, Runtime, respond, dispatch, run_request, run_loaded, refuses_input, decoded,
  authenticated, with_token, bearer_token, execute,
}

-- What the server acts on: a token that authenticates an agent, and a request of it that is
-- authorized.
pub record IsServed (runtime : Runtime) (draws : Draws) (header body : Bytes) (now : Time)
    (w : World) : Type 0 where
  pub token : Bytes
  pub principal : Principal
  pub input : ExecuteRequest
  pub bears : bearer_token header ≡ some token
  pub authentic : (authenticate runtime.sha256 token now w).0 ≡ ok principal
  pub reads : runtime.read_request body ≡ some input
  pub authorized :
      IsAuthorized principal.agent_id input.task_id draws.claimed_at runtime.decode accepts_any
        input.request_id w.db

find_agent-reads :
    (hash : Bytes) (before : Db)
    → Ensures (λ d. d ≡ before) (find_agent_by_token_hash hash) (λ r d. d ≡ before)
unfolding find_agent_by_token_hash
find_agent-reads hash before = reads-Ensures _ _ _ _ λ found.
    bind-Ensures _ (λ r d. d ≡ before) _ _ _
      (after-Ensures _ _ _ _ (or_raise-Preserves _ _ _) λ r d p. p.0)
      λ row. guard-Ensures _ _ _ _ _ λ whole. pure-Ensures _ _ _ λ d p. p

authenticate-reads :
    (sha256 : Bytes → Bytes) (token : Bytes) (now : Time) (before : Db)
    → Ensures (λ d. d ≡ before) (authenticate sha256 token now) (λ p d. d ≡ before)
unfolding authenticate
authenticate-reads sha256 token now before = guard-Ensures _ _ _ _ _ λ named.
    bind-Ensures _ (λ r d. d ≡ before) _ _ _ (mask-Ensures _ _ _ _ (find_agent-reads _ before))
      λ row. guard-Ensures _ _ _ _ _ λ valid. pure-Ensures _ _ _ λ d p. p

respond-trace : (r : Outcome Body × Machine) → (respond r).1.trace ≡ r.1.trace
unfolding respond
respond-trace (done b, m) = refl
respond-trace (failed f, m) = refl

go_on-used :
    (runtime : Runtime) (draws : Draws) (request_id agent_id task_id : Uuid) (m n : Machine)
    → n.trace ≡ m.trace
    → n.world.db ≡ m.world.db
    → (k : Option OperationKind)
    → UsedFor runtime draws request_id agent_id task_id m
        (dispatch runtime draws k request_id agent_id task_id n).1
go_on-used runtime draws request_id agent_id task_id m n traces worlds k =
    elim (dispatch-UsedFor runtime draws request_id agent_id task_id k n) [
      | inl same ↦ inl (same ∙ traces)
      | inr a ↦ inr (
          subst
            (IsAuthorized agent_id task_id draws.claimed_at runtime.decode accepts_any request_id)
            worlds a)
    ]

module _ (runtime : Runtime) (draws : Draws) (agent_id : Uuid) (input : ExecuteRequest) where
  run_loaded-UsedFor :
      (loaded : Plan × Operation) (m n : Machine)
      → n.trace ≡ m.trace
      → n.world.db ≡ m.world.db
      → UsedFor runtime draws input.request_id agent_id input.task_id m
          (run_loaded runtime draws agent_id input loaded n).1
  unfolding run_loaded
  run_loaded-UsedFor loaded m n traces worlds = elim (guard-machine _ execution_denied _ n) [
    | inl same ↦ inl (ap (λ (x : Machine). x.trace) same ∙ traces)
    | inr runs ↦
        rw runs
          (go_on-used runtime draws input.request_id agent_id input.task_id m n traces worlds _)
  ]

  run_request-UsedFor :
      (m : Machine)
      → UsedFor runtime draws input.request_id agent_id input.task_id m
          (run_request runtime draws agent_id input m).1
  unfolding run_request
  run_request-UsedFor m =
      elim (Outcome-cases (store execution_denied (load_plan runtime.decode input.request_id))
        (run_loaded runtime draws agent_id input) m) [
          | inl (loaded, load, runs) ↦
              let (read, world) = store-done _ _ m loaded load in
              let (same, is_loaded) =
                (load_plan-IsLoaded runtime.decode input.request_id m.world.db).holds m.world loaded
                  refl read in
              rw runs (
                run_loaded-UsedFor loaded m _ ((Quiet-store _ _).apply m)
                  (ap (λ (w : World). w.db) world ∙ same))
          | inr stops ↦ inl (ap (λ (x : Machine). x.trace) stops ∙ (Quiet-store _ _).apply m)
        ]

-- No effect yet, or the server acts on what it is for.
abbrev ServedFor : Runtime → Draws → Bytes → Bytes → Time → Machine → Machine → Type 0
ServedFor runtime draws header body now m n =
    (n.trace ≡ m.trace) ⊎ IsServed runtime draws header body now m.world

module _ (runtime : Runtime) (draws : Draws) (header body : Bytes) (now : Time) (m : Machine)
    (token : Bytes) (bears : bearer_token header ≡ some token) where
  decoded-ServedFor :
      (principal : Principal) (n : Machine)
      → (authenticate runtime.sha256 token now m.world).0 ≡ ok principal
      → n.trace ≡ m.trace
      → n.world.db ≡ m.world.db
      → (r : Option ExecuteRequest) → runtime.read_request body ≡ r
      → ServedFor runtime draws header body now m (decoded runtime draws principal.agent_id r n).1
  unfolding decoded
  decoded-ServedFor principal n authentic traces worlds none reads = inl traces
  decoded-ServedFor principal n authentic traces worlds (some input) reads =
      elim (Bool-cases (refuses_input runtime draws input)) [
        | inl refused ↦ rw (refused, decoded) (inl traces)
        | inr taken ↦
            rw (taken, decoded)
              (elim (run_request-UsedFor runtime draws principal.agent_id input n) [
                | inl same ↦ inl (respond-trace _ ∙ same ∙ traces)
                | inr a ↦ inr (record {
                  token = token;
                  principal = principal;
                  input = input;
                  bears = bears;
                  authentic = authentic;
                  reads = reads;
                  authorized =
                      subst
                        (IsAuthorized principal.agent_id input.task_id draws.claimed_at
                          runtime.decode accepts_any input.request_id)
                        worlds a;
                })
              ])
      ]

  authenticated-ServedFor :
      (r : Result Principal × World)
      → (authenticate runtime.sha256 token now) m.world ≡ r
      → ServedFor runtime draws header body now m
          (authenticated runtime draws body (attempted m r)).1
  unfolding authenticated attempted
  authenticated-ServedFor (err e, w) runs = inl refl
  authenticated-ServedFor (ok principal, w) runs =
      let authentic : (authenticate runtime.sha256 token now m.world).0 ≡ ok principal =
        ap (λ (x : Result Principal × World). x.0) runs in
      decoded-ServedFor principal (record m { world = w }) authentic refl
        (ap (λ (x : Result Principal × World). x.1.db) (sym runs)
          ∙ (authenticate-reads runtime.sha256 token now m.world.db).holds m.world principal refl
              authentic)
        (runtime.read_request body) refl

module _ (runtime : Runtime) (draws : Draws) (header body : Bytes) (now : Time) (m : Machine) where
  with_token-ServedFor :
      (o : Option Bytes)
      → bearer_token header ≡ o
      → ServedFor runtime draws header body now m (with_token runtime draws body now o m).1
  unfolding with_token try_store
  with_token-ServedFor none bears = inl refl
  with_token-ServedFor (some token) bears =
      authenticated-ServedFor runtime draws header body now m token bears
        (authenticate runtime.sha256 token now m.world) refl

  -- A request to the server that leads to any effect outside the database, be it at the vault or at
  -- the target, bears a token that authenticates an agent, and names a request of that agent whose
  -- plan is active, is of a kind that a proxy takes, and is granted to that agent for the task that
  -- it names: the grant is approved, unexpired and holds exactly what the plan runs.
  pub execute-IsServed :
      ¬ ((execute runtime draws header body now m).1.trace ≡ m.trace)
      → IsServed runtime draws header body now m.world
  unfolding execute
  execute-IsServed acts = elim (with_token-ServedFor (bearer_token header) refl) [
    | inl same ↦ absurd (acts same)
    | inr served ↦ served
  ]
