-- ===== src/Domain/Catalog.antt =====
-- internal/catalog/{service,operation}.go: what the catalog's tables hold. `other` is any string
-- that is not a constant of the type.
use mathlib.Core.Bool.{Bool}
use mathlib.Core.Option.{Option}
use mathlib.Core.List.{List}
use Prim.Native.Nat.{ℕ}
use agent_key_vault_jit_acce.Domain.Values.{Uuid, Time, Bytes, OperationKind}

pub data ConnectorType : Type 0 where
  http postgresql other : ConnectorType

pub data CredentialType : Type 0 where
  api_key access_token username_password certificate transit_key : CredentialType
  postgresql_dynamic other : CredentialType

pub data ExecutorType : Type 0 where
  http postgresql sign other : ExecutorType

pub data RiskLevel : Type 0 where
  low medium high other : RiskLevel

pub record ConnectionConfig : Type 0 where
  pub base_url : Bytes
  pub allowed_http_methods : List Bytes
  pub host : Bytes
  pub port : ℕ
  pub database : Bytes
  pub tls_mode : Bytes
  pub require_dynamic : Bool

pub record Target : Type 0 where
  pub id : Uuid
  pub name : Bytes
  pub description : Bytes
  pub connector_type : ConnectorType
  pub connection_config : ConnectionConfig
  pub config_version : ℕ
  pub default_credential_id : Option Uuid
  pub active : Bool
  pub created_at : Time

pub record Credential : Type 0 where
  pub id : Uuid
  pub alias : Bytes
  pub credential_type : CredentialType
  pub target_id : Uuid
  pub active : Bool
  pub vault_provider : Bytes
  pub vault_path : Bytes
  pub vault_version : Option ℕ
  pub created_at : Time

pub record OperationSet : Type 0 where
  pub id : Uuid
  pub name : Bytes
  pub description : Bytes
  pub executor_type : ExecutorType
  pub active : Bool
  pub created_by : Uuid
  pub updated_by : Uuid
  pub created_at : Time
  pub updated_at : Time

-- `current_version` is null until the first version is there.
pub record SafeOperation : Type 0 where
  pub id : Uuid
  pub operation_set_id : Uuid
  pub key : Bytes
  pub current_version : Option ℕ
  pub active : Bool
  pub created_by : Uuid
  pub updated_by : Uuid
  pub created_at : Time
  pub updated_at : Time

pub record OperationVersion : Type 0 where
  pub operation_id : Uuid
  pub version : ℕ
  pub name : Bytes
  pub description : Bytes
  pub operation_kind : OperationKind
  pub risk_level : RiskLevel
  pub arguments_schema : Bytes
  pub execution_template : Bytes
  pub definition_hash : Bytes
  pub created_by : Uuid
  pub created_at : Time

pub record TargetOperationBinding : Type 0 where
  pub target_id : Uuid
  pub operation_id : Uuid
  pub version : ℕ
  pub active : Bool
  pub policy : Bytes
  pub created_by : Uuid
  pub updated_by : Uuid
  pub created_at : Time
  pub updated_at : Time

-- The part of the database that the catalog owns.
pub record Catalog : Type 0 where
  pub targets : List Target
  pub credentials : List Credential
  pub bindings : List TargetOperationBinding
  pub operations : List SafeOperation
  pub operation_sets : List OperationSet
  pub operation_versions : List OperationVersion
