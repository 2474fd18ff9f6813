-- ===== src/Store/Evolution/Rows.antt =====
-- How the rows of each table may change over their lives.
use mathlib.Core.Path.{◌≡◌, refl, sym, ap, ◌∙◌, subst}
use mathlib.Core.Bool.{false}
use agent_key_vault_jit_acce.Prelude.Evolves.{IsPreorder}
use agent_key_vault_jit_acce.Domain.Task
use agent_key_vault_jit_acce.Domain.Request
use agent_key_vault_jit_acce.Domain.Execution
use agent_key_vault_jit_acce.Domain.Reclaim
use agent_key_vault_jit_acce.Domain.Grant
use agent_key_vault_jit_acce.Domain.Paths.{
  Reaches, stay, Reaches-trans, grant_step, not_approved_again, not_open_again,
}
use agent_key_vault_jit_acce.Store.Tables.{Task, Request, Grant, Execution, Reclaim, Incident}

-- A task keeps its identity, moves along its lifecycle, and is frozen once it has ended.
pub record TaskEvolves (x y : Task) : Type 0 where
  pub identity : (y.id ≡ x.id) × (y.agent_id ≡ x.agent_id) × (y.created_at ≡ x.created_at)
  pub path : Reaches Task.can_transition_to x.status y.status
  pub frozen : Task.is_active x.status ≡ false → y ≡ x

-- A request keeps all but its status.
pub record RequestEvolves (x y : Request) : Type 0 where
  pub snapshot : y ≡ record x { status = y.status }
  pub path : Reaches Request.can_transition_to x.status y.status

-- A grant keeps what was approved, moves along its lifecycle, and is claimed once; once it is neither
-- approved nor executing, only its status changes.
pub record GrantEvolves (x y : Grant) : Type 0 where
  pub snapshot : y ≡ record x {
    status = y.status;
    claimed_at = y.claimed_at;
    completed_at = y.completed_at;
    revoked_at = y.revoked_at;
  }
  pub path : Reaches grant_step x.status y.status
  pub claimed_once : Grant.is_approved x.status ≡ false → y.claimed_at ≡ x.claimed_at
  pub dated :
      Grant.is_open x.status ≡ false
      → (y.completed_at ≡ x.completed_at) × (y.revoked_at ≡ x.revoked_at)

-- An execution keeps its identity and is frozen once it has completed.
pub record ExecutionEvolves (x y : Execution) : Type 0 where
  pub identity : (y.id ≡ x.id) × (y.grant_id ≡ x.grant_id) × (y.started_at ≡ x.started_at)
  pub path : Reaches Execution.can_transition_to x.status y.status
  pub frozen : Execution.is_executing x.status ≡ false → y ≡ x

-- A reclaim keeps its identity and is frozen once it has succeeded or failed.
pub record ReclaimEvolves (x y : Reclaim) : Type 0 where
  pub identity : (y.id ≡ x.id) × (y.execution_id ≡ x.execution_id) × (y.attempt ≡ x.attempt)
  pub path : Reaches Reclaim.can_transition_to x.status y.status
  pub frozen : Reclaim.is_reclaiming x.status ≡ false → y ≡ x

-- An incident keeps what it says and is frozen once it has been resolved.
pub record IncidentEvolves (x y : Incident) : Type 0 where
  pub snapshot : y ≡ record x { open_incident = y.open_incident; resolved_at = y.resolved_at }
  pub frozen : x.open_incident ≡ false → y ≡ x

pub IncidentEvolves-preorder : IsPreorder IncidentEvolves
IncidentEvolves-preorder = record {
  reflexive = λ x. record { snapshot = refl; frozen = λ h. refl };
  transitive = λ {x} {y} {z} a b. record {
    snapshot =
        b.snapshot
        ∙ ap
            (λ (i : Incident). record i {
              open_incident = z.open_incident;
              resolved_at = z.resolved_at;
            })
            a.snapshot;
    frozen = λ h.
        b.frozen (subst (λ (i : Incident). i.open_incident ≡ false) (sym (a.frozen h)) h)
        ∙ a.frozen h;
  };
}

pub TaskEvolves-preorder : IsPreorder TaskEvolves
TaskEvolves-preorder = record {
  reflexive = λ x. record { identity = (refl, refl, refl); path = stay; frozen = λ h. refl };
  transitive = λ {x} {y} {z} a b. record {
    identity =
        (b.identity.0 ∙ a.identity.0, b.identity.1 ∙ a.identity.1, b.identity.2 ∙ a.identity.2);
    path = Reaches-trans Task.can_transition_to a.path b.path;
    frozen = λ h.
        b.frozen (subst (λ (t : Task). Task.is_active t.status ≡ false) (sym (a.frozen h)) h)
        ∙ a.frozen h;
  };
}

pub RequestEvolves-preorder : IsPreorder RequestEvolves
RequestEvolves-preorder = record {
  reflexive = λ x. record { snapshot = refl; path = stay };
  transitive = λ {x} {y} {z} a b. record {
    snapshot = b.snapshot ∙ ap (λ (r : Request). record r { status = z.status }) a.snapshot;
    path = Reaches-trans Request.can_transition_to a.path b.path;
  };
}

pub GrantEvolves-preorder : IsPreorder GrantEvolves
GrantEvolves-preorder = record {
  reflexive = λ x. record {
    snapshot = refl;
    path = stay;
    claimed_once = λ h. refl;
    dated = λ h. (refl, refl);
  };
  transitive = λ {x} {y} {z} a b. record {
    snapshot =
        b.snapshot
        ∙ ap
            (λ (r : Grant). record r {
              status = z.status;
              claimed_at = z.claimed_at;
              completed_at = z.completed_at;
              revoked_at = z.revoked_at;
            })
            a.snapshot;
    path = Reaches-trans grant_step a.path b.path;
    claimed_once = λ h. b.claimed_once (not_approved_again a.path h) ∙ a.claimed_once h;
    dated = λ h.
        let later = b.dated (not_open_again a.path h) in
        let first = a.dated h in (later.0 ∙ first.0, later.1 ∙ first.1);
  };
}

pub ExecutionEvolves-preorder : IsPreorder ExecutionEvolves
ExecutionEvolves-preorder = record {
  reflexive = λ x. record { identity = (refl, refl, refl); path = stay; frozen = λ h. refl };
  transitive = λ {x} {y} {z} a b. record {
    identity =
        (b.identity.0 ∙ a.identity.0, b.identity.1 ∙ a.identity.1, b.identity.2 ∙ a.identity.2);
    path = Reaches-trans Execution.can_transition_to a.path b.path;
    frozen = λ h.
        b.frozen
          (subst (λ (t : Execution). Execution.is_executing t.status ≡ false) (sym (a.frozen h)) h)
        ∙ a.frozen h;
  };
}

pub ReclaimEvolves-preorder : IsPreorder ReclaimEvolves
ReclaimEvolves-preorder = record {
  reflexive = λ x. record { identity = (refl, refl, refl); path = stay; frozen = λ h. refl };
  transitive = λ {x} {y} {z} a b. record {
    identity =
        (b.identity.0 ∙ a.identity.0, b.identity.1 ∙ a.identity.1, b.identity.2 ∙ a.identity.2);
    path = Reaches-trans Reclaim.can_transition_to a.path b.path;
    frozen = λ h.
        b.frozen
          (subst (λ (t : Reclaim). Reclaim.is_reclaiming t.status ≡ false) (sym (a.frozen h)) h)
        ∙ a.frozen h;
  };
}
