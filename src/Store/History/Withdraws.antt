-- ===== src/Store/History/Withdraws.antt =====
-- What the catalog withdraws, no grant gives any more.
use mathlib.Core.Path.{◌≡◌, refl, sym, subst}
use mathlib.Core.Bool.{Bool, true, false, not, ◌&&◌}
use mathlib.Core.Option.{Option, none}
use mathlib.Core.List.{List, [], ◌∷◌}
use Prim.Native.Nat.{ℕ}
use agent_key_vault_jit_acce.Prelude.Tests.{◌==◌}
use agent_key_vault_jit_acce.Prelude.Evolves.{All, Any}
use agent_key_vault_jit_acce.Domain.Grant.{is_approved}
use agent_key_vault_jit_acce.Store.Tables.{Db, Uuid, Request, Grant}
use agent_key_vault_jit_acce.Store.Action.{World, Result, Action, ok, pure}
use agent_key_vault_jit_acce.Store.Action.Inversion.{bind-ok}
use agent_key_vault_jit_acce.Store.Action.Ensures.{Ensures}
use agent_key_vault_jit_acce.Store.Keys.{IsUnique, grant_ids}
use agent_key_vault_jit_acce.Store.Catalog.Operations.{of_set, outdated}
use agent_key_vault_jit_acce.Store.Catalog.Closed.{
  changed_config, is_for, Closed, Start, nothing-Closed, set_target-Closed, set_credential-Closed,
  set_operation-Closed, upsert_binding-Closed, set_set-Closed, update_target-Closed,
}
use agent_key_vault_jit_acce.Store.History.{
  Call, updates_target, sets_target, sets_credential, sets_set, sets_operation, binds, unseen,
  perform,
}
use agent_key_vault_jit_acce.Store.History.Claims.{claim_count, spent-claim_count}

-- The call takes away what the request was approved for: it disables the request's target,
-- credential, operation set or operation, gives its target another configuration, or binds
-- another version of its operation to its target, or none.
unfoldable pub withdraws : Call → Db → Request → Bool
unfolding changed_config
withdraws (updates_target target at) d r = changed_config d target && r.target_id == target.id
withdraws (sets_target id active at) d r = not active && r.target_id == id
withdraws (sets_credential id active at) d r = not active && r.credential_id == id
withdraws (sets_set id active actor at) d r = not active && of_set id d r
withdraws (sets_operation id active actor at) d r =
    not active && (r.operation_id == id && r.request_format == 2)
withdraws (binds b) d r = outdated b d r
withdraws _ d r = false

-- The call went well, and what it has withdrawn is closed.
unseen-Closed :
    (test : Request → Bool) (m : Action ℕ) (w : World) (g : Option Grant)
    → Ensures (Start w.db) m (λ n d. Closed test d)
    → (unseen m w).0 ≡ ok g
    → Closed test (unseen m w).1.db
unfolding pure
unseen-Closed test m w g h e =
    let (n, done, runs) = bind-ok m (λ a. pure none) w g e in
    subst (λ (x : Result (Option Grant) × World). Closed test x.1.db) (sym runs)
      (h.holds w n refl done)

pub perform-Closed :
    (c : Call) (w : World) (g : Option Grant)
    → (perform c w).0 ≡ ok g
    → Closed (withdraws c w.db) (perform c w).1.db
unfolding perform withdraws
perform-Closed (updates_target target at) w g h =
    unseen-Closed _ _ w g (update_target-Closed w.db target at) h
perform-Closed (sets_target id active at) w g h =
    unseen-Closed _ _ w g (set_target-Closed w.db id active at) h
perform-Closed (sets_credential id active at) w g h =
    unseen-Closed _ _ w g (set_credential-Closed w.db id active at) h
perform-Closed (sets_set id active actor at) w g h =
    unseen-Closed _ _ w g (set_set-Closed w.db id active actor at) h
perform-Closed (sets_operation id active actor at) w g h =
    unseen-Closed _ _ w g (set_operation-Closed w.db id active actor at) h
perform-Closed (binds b) w g h = unseen-Closed _ _ w g (upsert_binding-Closed w.db b) h
perform-Closed c w g h = nothing-Closed (perform c w).1.db

-- Grant `i` exists, and it is for a request that the call withdraws.
pub record Withdrawn (c : Call) (w : World) (i : Uuid) (d : Db) : Type 0 where
  pub present : Any (λ g. g.id ≡ i) d.grants
  pub concerned : All (λ g. g.id ≡ i → is_for (withdraws c w.db) d.requests g ≡ true) d.grants

closed-spent :
    (f : Grant → Bool) (i : Uuid) (gs : List Grant)
    → All (λ g. f g ≡ true → is_approved g.status ≡ false) gs
    → All (λ g. g.id ≡ i → f g ≡ true) gs
    → All (λ g. g.id ≡ i → is_approved g.status ≡ false) gs
closed-spent f i [] a b = tt
closed-spent f i (g ∷ gs) a b = ((λ e. a.0 (b.0 e)), closed-spent f i gs a.1 b.1)

-- Take a call that disables a target, a credential, an operation set or an operation, that changes
-- the configuration of a target, or that binds another version of an operation or none, and that
-- succeeds. A grant that exists right after it, and whose request is for what the call withdraws, is
-- not claimed in any later history, whatever is enabled again, if the identifiers of the grants
-- after the call are distinct. A request that is still pending is not concerned: once all is enabled
-- again it may be approved, with a grant that can be claimed.
pub Withdrawn-claim_count :
    (c : Call) (w : World) (g : Option Grant) (i : Uuid) (cs : List Call)
    → (perform c w).0 ≡ ok g
    → IsUnique (grant_ids (perform c w).1.db.grants)
    → Withdrawn c w i (perform c w).1.db
    → claim_count i cs (perform c w).1 ≡ 0
Withdrawn-claim_count c w g i cs done unique concerned =
    spent-claim_count i cs (perform c w).1 unique (
      concerned.present,
      closed-spent (is_for (withdraws c w.db) (perform c w).1.db.requests) i _
          (perform-Closed c w g done) concerned.concerned,
    )
