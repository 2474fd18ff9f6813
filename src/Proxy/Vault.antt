-- ===== src/Proxy/Vault.antt =====
-- internal/vault/boundary.go: `Acquire` and `Handle.Close`. `Destroy` clears memory, and a model has
-- none to clear.
use mathlib.Core.Bool.{Bool, true}
use mathlib.Core.Option.{Option, none, some}
use mathlib.Core.List.{List, [], ◌∷◌}
use Prim.Native.Nat.{ℕ}
use agent_key_vault_jit_acce.Domain.Values.{Time, Bytes, text}
use agent_key_vault_jit_acce.Proxy.Machine.{
  Proxy, Answer, ContextState, reads_secret, issues_credential, revokes_lease, pure, perform, ◌>>=◌,
}

-- The values of a secret by their names.
abbrev pub Values : Type 0
Values = List (Bytes × Bytes)

-- `vault.DynamicCredential`
pub record DynamicCredential : Type 0 where
  pub username : Bytes
  pub password : Bytes
  pub lease_id : Bytes

-- `vault.ExecutionClient`; `none` and `false` where it fails. A failure of `sign` says whether the
-- execution was cancelled.
pub record ExecutionClient : Type 0 where
  pub read_kv : Bytes → Option ℕ → Answer (Option Values)
  pub issue_database : Bytes → Time → Answer (Option DynamicCredential)
  pub revoke_lease : Bytes → Answer Bool
  pub sign : Bytes → Bytes → Bytes → Answer (Option Bytes × ContextState)

pub data ReferenceKind : Type 0 where
  static_kv postgresql_dynamic transit certificate other : ReferenceKind

pub record Reference : Type 0 where
  pub kind : ReferenceKind
  pub path : Bytes
  pub version : Option ℕ
  pub ttl : Time

-- An empty lease is no lease.
pub record Handle : Type 0 where
  pub values : Values
  pub lease_id : Bytes

abbrev pub static_handle : Option Values → Option Handle
static_handle none = none
static_handle (some values) = some (record { values = values; lease_id = [] })

abbrev pub dynamic_handle : Option DynamicCredential → Option Handle
dynamic_handle none = none
dynamic_handle (some c) = some (record {
  values = (text "username", c.username) ∷ (text "password", c.password) ∷ [];
  lease_id = c.lease_id;
})

-- Each kind has one way to its secret, and there is no other.
unfoldable pub acquire_by : ReferenceKind → ExecutionClient → Reference → Proxy (Option Handle)
acquire_by ReferenceKind.static_kv client r = do
  values ← perform (client.read_kv r.path r.version) (reads_secret r.path r.version)
  pure (static_handle values)
acquire_by ReferenceKind.postgresql_dynamic client r = do
  credential ← perform (client.issue_database r.path r.ttl) (issues_credential r.path r.ttl)
  pure (dynamic_handle credential)
acquire_by _ client r = pure none

unfoldable pub acquire : ExecutionClient → Reference → Proxy (Option Handle)
unfolding acquire_by
acquire client r = acquire_by r.kind client r

unfoldable pub close_lease : ExecutionClient → Bytes → Proxy Bool
close_lease client [] = pure true
close_lease client (c ∷ cs) = perform (client.revoke_lease (c ∷ cs)) (revokes_lease (c ∷ cs))

-- Does the handle close without an error?
unfoldable pub close : ExecutionClient → Handle → Proxy Bool
unfolding close_lease
close client handle = close_lease client handle.lease_id
