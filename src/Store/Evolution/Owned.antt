-- ===== src/Store/Evolution/Owned.antt =====
-- How the rows of the accounts and of the catalog may change.
use Prim.Native.Nat.{◌≤◌}
use mathlib.Core.Path.{◌≡◌, refl, sym, ap, ◌∙◌, subst}
use mathlib.Core.List.{List}
use mathlib.Core.Bool.{false}
use native.Mathlib.Omega.{arith}
use agent_key_vault_jit_acce.Prelude.Tests.{is_none}
use agent_key_vault_jit_acce.Prelude.Evolves.{Evolves, IsPreorder, Evolves-refl, Evolves-trans}
use agent_key_vault_jit_acce.Store.Evolution.Revoked.{IsRevoked}
use agent_key_vault_jit_acce.Store.Tables.{
  Bytes, Target, Credential, SafeOperation, OperationSet, Catalog, Account, WebSession, AgentRow,
  AgentToken, Accounts, TargetOperationBinding,
}

pub ≡-preorder : {A : Type 0} → IsPreorder (◌≡◌ {A = A})
≡-preorder = record { reflexive = λ x. refl; transitive = λ p q. p ∙ q }

-- A target keeps its identity and its connector, and its configurations are numbered upwards.
pub record TargetEvolves (x y : Target) : Type 0 where
  pub identity : (y.id ≡ x.id) × (y.name ≡ x.name) × (y.connector_type ≡ x.connector_type)
  pub numbered : x.config_version ≤ y.config_version
  pub configured : y.config_version ≡ x.config_version → y.connection_config ≡ x.connection_config

-- A credential is only enabled and disabled: what it names in the vault stays.
pub record CredentialEvolves (x y : Credential) : Type 0 where
  pub snapshot : y ≡ record x { active = y.active }

pub record OperationSetEvolves (x y : OperationSet) : Type 0 where
  pub snapshot :
      y ≡ record x { active = y.active; updated_by = y.updated_by; updated_at = y.updated_at }

pub record OperationEvolves (x y : SafeOperation) : Type 0 where
  pub snapshot : y ≡ record x {
    current_version = y.current_version;
    active = y.active;
    updated_by = y.updated_by;
    updated_at = y.updated_at;
  }

-- A binding keeps what it binds, and who bound it first.
pub record BindingEvolves (x y : TargetOperationBinding) : Type 0 where
  pub snapshot : y ≡ record x {
    version = y.version;
    active = y.active;
    policy = y.policy;
    updated_by = y.updated_by;
    updated_at = y.updated_at;
  }

-- A published version is never changed.
pub record CatalogEvolves (c d : Catalog) : Type 0 where
  pub targets : Evolves TargetEvolves c.targets d.targets
  pub credentials : Evolves CredentialEvolves c.credentials d.credentials
  pub operation_sets : Evolves OperationSetEvolves c.operation_sets d.operation_sets
  pub bindings : Evolves BindingEvolves c.bindings d.bindings
  pub operations : Evolves OperationEvolves c.operations d.operations
  pub operation_versions : Evolves ◌≡◌ c.operation_versions d.operation_versions

pub record AccountEvolves (x y : Account) : Type 0 where
  pub snapshot : y ≡ record x { approve_all = y.approve_all; active = y.active }

-- A session is revoked once.
pub record SessionEvolves (x y : WebSession) : Type 0 where
  pub snapshot : y ≡ record x { revoked_at = y.revoked_at }
  pub frozen : is_none x.revoked_at ≡ false → y ≡ x

pub record AgentEvolves (x y : AgentRow) : Type 0 where
  pub snapshot : y ≡ record x { active = y.active }

-- A token is revoked once.
pub record TokenEvolves (x y : AgentToken) : Type 0 where
  pub snapshot : y ≡ record x { revoked_at = y.revoked_at }
  pub frozen : is_none x.revoked_at ≡ false → y ≡ x

abbrev pub SessionRevoked : Bytes → List WebSession → Type 0
SessionRevoked = IsRevoked (λ s. s.token_hash) (λ s. s.revoked_at)

abbrev pub TokenRevoked : Bytes → List AgentToken → Type 0
TokenRevoked = IsRevoked (λ t. t.token_hash) (λ t. t.revoked_at)

pub record AccountsEvolves (c d : Accounts) : Type 0 where
  pub users : Evolves AccountEvolves c.users d.users
  pub web_sessions : Evolves SessionEvolves c.web_sessions d.web_sessions
  pub agents : Evolves AgentEvolves c.agents d.agents
  pub agent_tokens : Evolves TokenEvolves c.agent_tokens d.agent_tokens
  pub sessions_revoked :
      (h : Bytes) → SessionRevoked h c.web_sessions → SessionRevoked h d.web_sessions
  pub tokens_revoked : (h : Bytes) → TokenRevoked h c.agent_tokens → TokenRevoked h d.agent_tokens

pub TargetEvolves-preorder : IsPreorder TargetEvolves
TargetEvolves-preorder = record {
  reflexive =
      λ x. record { identity = (refl, refl, refl); numbered = omega arith; configured = λ e. refl };
  transitive = λ {x} {y} {z} a b. record {
    identity =
        (b.identity.0 ∙ a.identity.0, b.identity.1 ∙ a.identity.1, b.identity.2 ∙ a.identity.2);
    numbered = omega (arith, a.numbered, b.numbered);
    configured = λ e.
        b.configured (omega (arith, a.numbered, b.numbered))
        ∙ a.configured (omega (arith, a.numbered, b.numbered));
  };
}

pub CredentialEvolves-preorder : IsPreorder CredentialEvolves
CredentialEvolves-preorder = record {
  reflexive = λ x. record { snapshot = refl };
  transitive = λ {x} {y} {z} a b. record {
    snapshot = b.snapshot ∙ ap (λ (r : Credential). record r { active = z.active }) a.snapshot;
  };
}

pub OperationSetEvolves-preorder : IsPreorder OperationSetEvolves
OperationSetEvolves-preorder = record {
  reflexive = λ x. record { snapshot = refl };
  transitive = λ {x} {y} {z} a b. record {
    snapshot =
        b.snapshot
        ∙ ap
            (λ (r : OperationSet). record r {
              active = z.active;
              updated_by = z.updated_by;
              updated_at = z.updated_at;
            })
            a.snapshot;
  };
}

pub OperationEvolves-preorder : IsPreorder OperationEvolves
OperationEvolves-preorder = record {
  reflexive = λ x. record { snapshot = refl };
  transitive = λ {x} {y} {z} a b. record {
    snapshot =
        b.snapshot
        ∙ ap
            (λ (r : SafeOperation). record r {
              current_version = z.current_version;
              active = z.active;
              updated_by = z.updated_by;
              updated_at = z.updated_at;
            })
            a.snapshot;
  };
}

pub BindingEvolves-preorder : IsPreorder BindingEvolves
BindingEvolves-preorder = record {
  reflexive = λ x. record { snapshot = refl };
  transitive = λ {x} {y} {z} a b. record {
    snapshot =
        b.snapshot
        ∙ ap
            (λ (r : TargetOperationBinding). record r {
              version = z.version;
              active = z.active;
              policy = z.policy;
              updated_by = z.updated_by;
              updated_at = z.updated_at;
            })
            a.snapshot;
  };
}

pub AccountEvolves-preorder : IsPreorder AccountEvolves
AccountEvolves-preorder = record {
  reflexive = λ x. record { snapshot = refl };
  transitive = λ {x} {y} {z} a b. record {
    snapshot =
        b.snapshot
        ∙ ap (λ (r : Account). record r { approve_all = z.approve_all; active = z.active })
            a.snapshot;
  };
}

pub SessionEvolves-preorder : IsPreorder SessionEvolves
SessionEvolves-preorder = record {
  reflexive = λ x. record { snapshot = refl; frozen = λ h. refl };
  transitive = λ {x} {y} {z} a b. record {
    snapshot =
        b.snapshot ∙ ap (λ (r : WebSession). record r { revoked_at = z.revoked_at }) a.snapshot;
    frozen = λ h.
        b.frozen (subst (λ (s : WebSession). is_none s.revoked_at ≡ false) (sym (a.frozen h)) h)
        ∙ a.frozen h;
  };
}

pub AgentEvolves-preorder : IsPreorder AgentEvolves
AgentEvolves-preorder = record {
  reflexive = λ x. record { snapshot = refl };
  transitive = λ {x} {y} {z} a b. record {
    snapshot = b.snapshot ∙ ap (λ (r : AgentRow). record r { active = z.active }) a.snapshot;
  };
}

pub TokenEvolves-preorder : IsPreorder TokenEvolves
TokenEvolves-preorder = record {
  reflexive = λ x. record { snapshot = refl; frozen = λ h. refl };
  transitive = λ {x} {y} {z} a b. record {
    snapshot =
        b.snapshot ∙ ap (λ (r : AgentToken). record r { revoked_at = z.revoked_at }) a.snapshot;
    frozen = λ h.
        b.frozen (subst (λ (s : AgentToken). is_none s.revoked_at ≡ false) (sym (a.frozen h)) h)
        ∙ a.frozen h;
  };
}

pub CatalogEvolves-preorder : IsPreorder CatalogEvolves
CatalogEvolves-preorder = record {
  reflexive = λ c. record {
    targets = Evolves-refl TargetEvolves TargetEvolves-preorder c.targets;
    credentials = Evolves-refl CredentialEvolves CredentialEvolves-preorder c.credentials;
    operation_sets = Evolves-refl OperationSetEvolves OperationSetEvolves-preorder c.operation_sets;
    bindings = Evolves-refl BindingEvolves BindingEvolves-preorder c.bindings;
    operations = Evolves-refl OperationEvolves OperationEvolves-preorder c.operations;
    operation_versions = Evolves-refl ◌≡◌ ≡-preorder c.operation_versions;
  };
  transitive = λ {x} {y} {z} a b. record {
    targets =
        Evolves-trans _ TargetEvolves-preorder x.targets y.targets z.targets a.targets b.targets;
    credentials =
        Evolves-trans _ CredentialEvolves-preorder x.credentials y.credentials z.credentials
          a.credentials b.credentials;
    operation_sets =
        Evolves-trans _ OperationSetEvolves-preorder x.operation_sets y.operation_sets
          z.operation_sets a.operation_sets b.operation_sets;
    bindings =
        Evolves-trans _ BindingEvolves-preorder x.bindings y.bindings z.bindings a.bindings
          b.bindings;
    operations =
        Evolves-trans _ OperationEvolves-preorder x.operations y.operations z.operations
          a.operations b.operations;
    operation_versions =
        Evolves-trans ◌≡◌ ≡-preorder x.operation_versions y.operation_versions z.operation_versions
          a.operation_versions b.operation_versions;
  };
}

pub AccountsEvolves-preorder : IsPreorder AccountsEvolves
AccountsEvolves-preorder = record {
  reflexive = λ c. record {
    users = Evolves-refl AccountEvolves AccountEvolves-preorder c.users;
    web_sessions = Evolves-refl SessionEvolves SessionEvolves-preorder c.web_sessions;
    agents = Evolves-refl AgentEvolves AgentEvolves-preorder c.agents;
    agent_tokens = Evolves-refl TokenEvolves TokenEvolves-preorder c.agent_tokens;
    sessions_revoked = λ h r. r;
    tokens_revoked = λ h r. r;
  };
  transitive = λ {x} {y} {z} a b. record {
    users = Evolves-trans _ AccountEvolves-preorder x.users y.users z.users a.users b.users;
    web_sessions =
        Evolves-trans _ SessionEvolves-preorder x.web_sessions y.web_sessions z.web_sessions
          a.web_sessions b.web_sessions;
    agents = Evolves-trans _ AgentEvolves-preorder x.agents y.agents z.agents a.agents b.agents;
    agent_tokens =
        Evolves-trans _ TokenEvolves-preorder x.agent_tokens y.agent_tokens z.agent_tokens
          a.agent_tokens b.agent_tokens;
    sessions_revoked = λ h r. b.sessions_revoked h (a.sessions_revoked h r);
    tokens_revoked = λ h r. b.tokens_revoked h (a.tokens_revoked h r);
  };
}
