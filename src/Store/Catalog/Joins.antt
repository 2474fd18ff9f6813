-- ===== src/Store/Catalog/Joins.antt =====
-- internal/store/operation_postgres.go: the rows that the catalog is
-- read from. The joins are on keys.
use mathlib.Core.Bool.{◌&&◌}
use mathlib.Core.Option.{Option, some, bind}
use Prim.Native.Nat.{ℕ}
use agent_key_vault_jit_acce.Prelude.Tests.{◌==◌, holds_value}
use agent_key_vault_jit_acce.Prelude.Rows.{find_row}
use agent_key_vault_jit_acce.Domain.Catalog.{RiskLevel}
use agent_key_vault_jit_acce.Store.Tables.{
  Uuid, Bytes, OperationKind, Target, Credential, OperationSet, SafeOperation, OperationVersion,
  TargetOperationBinding, Catalog,
}

infixl 5 ◌>>=◌
abbrev ◌>>=◌ {ℓ κ} : {A : Type ℓ} {B : Type κ} → Option A → (A → Option B) → Option B
o >>= f = bind o f

-- `catalog.ResolvedOperation`
pub record ResolvedOperation : Type 0 where
  pub target : Target
  pub credential : Credential
  pub operation_set : OperationSet
  pub operation : SafeOperation
  pub version : OperationVersion

-- `catalog.PublicOperation`: what an agent is told of an operation.
pub record PublicOperation : Type 0 where
  pub operation_id : Uuid
  pub version : ℕ
  pub target_id : Uuid
  pub key : Bytes
  pub name : Bytes
  pub description : Bytes
  pub operation_kind : OperationKind
  pub risk_level : RiskLevel
  pub arguments_schema : Bytes

unfoldable pub find_version : Catalog → Uuid → ℕ → Option OperationVersion
find_version c operation_id version =
    find_row (λ v. v.operation_id == operation_id && v.version == version) c.operation_versions

-- The row of `operations o JOIN operation_sets s … JOIN operation_versions v …`.
unfoldable pub version_row :
    Catalog → Uuid → ℕ → Option (OperationSet × SafeOperation × OperationVersion)
version_row c operation_id version = do
  o ← find_row (λ o. o.id == operation_id) c.operations
  s ← find_row (λ s. s.id == o.operation_set_id) c.operation_sets
  v ← find_version c o.id version
  some (s, o, v)

-- The row of a binding that is in force, joined with what it binds, all of it active.
unfoldable pub active_row : Catalog → TargetOperationBinding → Option ResolvedOperation
active_row c b = do
  t ← find_row (λ t. t.id == b.target_id && t.active) c.targets
  k ← find_row (λ k. holds_value t.default_credential_id k.id && k.active) c.credentials
  o ← find_row (λ o. o.id == b.operation_id && o.active) c.operations
  s ← find_row (λ s. s.id == o.operation_set_id && s.active) c.operation_sets
  v ← find_version c b.operation_id b.version
  some (record { target = t; credential = k; operation_set = s; operation = o; version = v })

abbrev pub published : TargetOperationBinding → ResolvedOperation → PublicOperation
published b r = record {
  operation_id = r.operation.id;
  version = b.version;
  target_id = r.target.id;
  key = r.operation.key;
  name = r.version.name;
  description = r.version.description;
  operation_kind = r.version.operation_kind;
  risk_level = r.version.risk_level;
  arguments_schema = r.version.arguments_schema;
}

unfoldable pub public_row : Catalog → TargetOperationBinding → Option PublicOperation
public_row c b = do r ← active_row c b; some (published b r)
