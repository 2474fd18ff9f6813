-- ===== src/Service/Catalog/Bindings.antt =====
-- What a binding of an operation to a target needs, and what it leaves.
use mathlib.Core.Path.{◌≡◌, refl}
use mathlib.Core.Bool.{Bool, true, false, not, ◌||◌}
use mathlib.Core.Option.{Option, none, some}
use Prim.Native.Nat.{ℕ}
use native.Mathlib.Omega.{arith}
use agent_key_vault_jit_acce.Prelude.Tests.{or-eq-false, ◌==◌}
use agent_key_vault_jit_acce.Domain.Values.{Uuid, Time, Bytes, OperationKind}
use agent_key_vault_jit_acce.Domain.Accounts.{User}
use agent_key_vault_jit_acce.Domain.Catalog.{
  ConnectorType, CredentialType, ExecutorType, Target, Credential, OperationSet, SafeOperation,
  OperationVersion, TargetOperationBinding, Catalog,
}
use agent_key_vault_jit_acce.Store.Tables.{Db}
use agent_key_vault_jit_acce.Store.Action.{World, ok}
use agent_key_vault_jit_acce.Store.Action.Ensures.{
  Ensures, bind-Ensures, guard-Ensures, mask-Ensures, pure-Ensures, frame-Ensures, weaken-Ensures,
}
use agent_key_vault_jit_acce.Store.Catalog.Selected.{
  IsSelected, IsVersion, find_target-IsSelected, find_operation-IsVersion,
}
use agent_key_vault_jit_acce.Store.Catalog.Merged.{
  HasWritten, upsert_target_operation_binding-HasWritten,
}
use agent_key_vault_jit_acce.Service.Identity.{can_manage_users_and_targets}
use agent_key_vault_jit_acce.Service.Catalog.Sound.{IsWord, is_one_of-IsWord}
use agent_key_vault_jit_acce.Service.Catalog.{
  compatible_kind, compatible_types, compatible_target, allows_method, fits_by_kind,
  definition_fits_target, refuses_change, bind_operation,
}

-- The kinds of operation that an executor runs.
pub data Runs : ExecutorType → OperationKind → Type 0 where
  runs_http : Runs ExecutorType.http OperationKind.http
  runs_statement : Runs ExecutorType.postgresql OperationKind.postgresql_statement
  runs_transaction : Runs ExecutorType.postgresql OperationKind.postgresql_transaction
  runs_sign : Runs ExecutorType.sign OperationKind.sign

-- The connectors and credentials that it works with.
pub data Uses : ExecutorType → ConnectorType → CredentialType → Type 0 where
  http_key : Uses ExecutorType.http ConnectorType.http CredentialType.api_key
  http_token : Uses ExecutorType.http ConnectorType.http CredentialType.access_token
  http_password : Uses ExecutorType.http ConnectorType.http CredentialType.username_password
  sql_password :
      Uses ExecutorType.postgresql ConnectorType.postgresql CredentialType.username_password
  sql_dynamic :
      Uses ExecutorType.postgresql ConnectorType.postgresql CredentialType.postgresql_dynamic
  signs : {c : ConnectorType} → Uses ExecutorType.sign c CredentialType.transit_key

compatible_kind-Runs :
    (e : ExecutorType) (k : OperationKind) → compatible_kind e k ≡ true → Runs e k
unfolding compatible_kind
compatible_kind-Runs ExecutorType.http OperationKind.http h = runs_http
compatible_kind-Runs ExecutorType.postgresql OperationKind.postgresql_statement h = runs_statement
compatible_kind-Runs ExecutorType.postgresql OperationKind.postgresql_transaction h =
    runs_transaction
compatible_kind-Runs ExecutorType.sign OperationKind.sign h = runs_sign
compatible_kind-Runs _ _ h = absurd (cc)

compatible_types-Uses :
    (e : ExecutorType) (c : ConnectorType) (t : CredentialType)
    → compatible_types e c t ≡ true
    → Uses e c t
unfolding compatible_types
compatible_types-Uses ExecutorType.http ConnectorType.http CredentialType.api_key h = http_key
compatible_types-Uses ExecutorType.http ConnectorType.http CredentialType.access_token h =
    http_token
compatible_types-Uses ExecutorType.http ConnectorType.http CredentialType.username_password h =
    http_password
compatible_types-Uses ExecutorType.postgresql ConnectorType.postgresql
      CredentialType.username_password h =
    sql_password
compatible_types-Uses ExecutorType.postgresql ConnectorType.postgresql
      CredentialType.postgresql_dynamic h =
    sql_dynamic
compatible_types-Uses ExecutorType.sign c CredentialType.transit_key h = signs
compatible_types-Uses _ _ _ h = absurd (cc)

not-false : (b : Bool) → not b ≡ false → b ≡ true
not-false b h = ground arith

module _ (method_of : Bytes → Option Bytes) where
  -- An HTTP definition uses a method that the target allows.
  abbrev pub UsesAllowedMethod : Target → OperationVersion → Type 0
  UsesAllowedMethod t v =
      v.operation_kind ≡ OperationKind.http
      → (m : Bytes) × (method_of v.execution_template ≡ some m)
        × IsWord t.connection_config.allowed_http_methods m

  allows_method-IsWord :
      (t : Target) (o : Option Bytes)
      → allows_method t o ≡ true
      → (m : Bytes) × (o ≡ some m) × IsWord t.connection_config.allowed_http_methods m
  allows_method-IsWord t none h = absurd (cc)
  allows_method-IsWord t (some m) h = (m, refl, is_one_of-IsWord _ m h)

  fits_by_kind-UsesAllowedMethod :
      (k : OperationKind) (t : Target) (v : OperationVersion)
      → fits_by_kind method_of k v t ≡ true
      → k ≡ OperationKind.http
      → (m : Bytes) × (method_of v.execution_template ≡ some m)
        × IsWord t.connection_config.allowed_http_methods m
  unfolding fits_by_kind
  fits_by_kind-UsesAllowedMethod OperationKind.http t v h e = allows_method-IsWord t _ h
  fits_by_kind-UsesAllowedMethod OperationKind.postgresql_statement t v h e = absurd (cc)
  fits_by_kind-UsesAllowedMethod OperationKind.postgresql_transaction t v h e = absurd (cc)
  fits_by_kind-UsesAllowedMethod OperationKind.sign t v h e = absurd (cc)

  -- The catalog has the target and the version of the operation, and they fit: the set's executor
  -- works with the target's connector and its default credential, and it runs the version's kind.
  pub record Fits (c : Catalog) (target_id operation_id : Uuid) (version : ℕ) : Type 0 where
    pub target : Target × Credential
    pub operation : OperationSet × SafeOperation × OperationVersion
    pub found : IsSelected c target_id target
    pub defined : IsVersion c operation_id version operation
    pub uses : Uses operation.0.executor_type target.0.connector_type target.1.credential_type
    pub runs : Runs operation.0.executor_type operation.2.operation_kind
    pub allowed : UsesAllowedMethod target.0 operation.2

  Fits-checked :
      (c : Catalog) (target_id operation_id : Uuid) (version : ℕ) (t : Target × Credential)
      (o : OperationSet × SafeOperation × OperationVersion)
      → IsSelected c target_id t
      → IsVersion c operation_id version o
      → (not (compatible_target o.0.executor_type t.0 t.1)
          || not (compatible_kind o.0.executor_type o.2.operation_kind)
          || not (definition_fits_target method_of o.2 t.0))
        ≡ false
      → Fits c target_id operation_id version
  Fits-checked c target_id operation_id version t o found defined h =
      let (h₁, fits) = or-eq-false _ _ h in
      let (uses, runs) = or-eq-false _ _ h₁ in
      record {
        target = t;
        operation = o;
        found = found;
        defined = defined;
        uses = compatible_types-Uses _ _ _ (not-false _ uses);
        runs = compatible_kind-Runs _ _ (not-false _ runs);
        allowed = fits_by_kind-UsesAllowedMethod _ t.0 o.2 (not-false _ fits);
      }

  module _ (actor : User) (target_id operation_id : Uuid) (version : ℕ) (active : Bool)
      (now : Time) where
    -- Who may bind, what fits before, and what stands in the tables after.
    pub record IsBound (before : Db) (b : TargetOperationBinding) (d : Db) : Type 0 where
      pub owner : actor.owner_active ≡ true
      pub admin : actor.is_admin ≡ true
      pub fits : Fits before.catalog target_id operation_id version
      pub target : b.target_id ≡ target_id
      pub operation : b.operation_id ≡ operation_id
      pub numbered : b.version ≡ version
      pub switched : b.active ≡ active
      pub author : b.updated_by ≡ actor.id
      pub written : HasWritten b d

    may_manage :
        (refuses_change actor target_id || operation_id == 0 || version == 0) ≡ false
        → (actor.owner_active ≡ true) × (actor.is_admin ≡ true)
    unfolding can_manage_users_and_targets
    may_manage h = (ground arith, ground arith)

    bind_operation-Ensures :
        (before : Db)
        → Ensures
            (λ d. d ≡ before)
            (bind_operation method_of actor target_id operation_id version active now)
            (IsBound before)
    unfolding bind_operation
    bind_operation-Ensures before = guard-Ensures _ _ _ _ _ λ may.
        bind-Ensures _ (λ r d. (d ≡ before) × IsSelected before.catalog target_id r) _ _ _
          (mask-Ensures _ _ _ _ (find_target-IsSelected before target_id))
          λ t.
            bind-Ensures _
              (λ r d.
                IsSelected before.catalog target_id t
                × ((d ≡ before) × IsVersion before.catalog operation_id version r))
              _ _ _
              (frame-Ensures _ (IsSelected before.catalog target_id t) _ _ (λ d p. p.1)
                (mask-Ensures _ _ _ _ (
                  weaken-Ensures _ _ _ _ (λ d p. p.0)
                    (find_operation-IsVersion before operation_id version))))
              λ o. guard-Ensures _ _ _ _ _ λ fits.
                bind-Ensures _ _ _ _ _
                  (frame-Ensures _ (Fits before.catalog target_id operation_id version) _ _
                    (λ d p.
                      Fits-checked before.catalog target_id operation_id version t o p.0 p.1.1 fits)
                    (upsert_target_operation_binding-HasWritten _ _))
                  λ n. pure-Ensures _ _ _ λ d p.
                    let (owner, admin) = may_manage may in
                    record {
                      owner = owner;
                      admin = admin;
                      fits = p.0;
                      target = refl;
                      operation = refl;
                      numbered = refl;
                      switched = refl;
                      author = refl;
                      written = p.1;
                    }

    -- A binding that succeeds was made by an administrator whose owner is active. Before it, the
    -- catalog has the target with its default credential and the version of the operation; the
    -- set's executor works with the target's connector and that credential, and it runs the
    -- version's kind of operation; an HTTP definition uses a method that the target allows. After
    -- it, the table of bindings has a row with the target, the operation, the version and the
    -- switch that were asked for.
    pub bind_operation-IsBound :
        (w : World) (b : TargetOperationBinding)
        → (bind_operation method_of actor target_id operation_id version active now w).0 ≡ ok b
        → IsBound w.db b
            (bind_operation method_of actor target_id operation_id version active now w).1.db
    bind_operation-IsBound w b = (bind_operation-Ensures w.db).holds w b refl
