-- ===== src/Store/History/Claims.antt =====
-- A grant is claimed once, over any history.
use mathlib.Core.Path.{◌≡◌, refl, sym, ap, ◌∙◌, subst}
use mathlib.Core.Logic.{inl, inr}
use mathlib.Core.Bool.{Bool, true, false}
use mathlib.Core.Option.{Option, none, some}
use mathlib.Core.List.{List, [], ◌∷◌}
use Prim.Native.Nat.{ℕ, suc, ◌≤◌}
use native.Mathlib.Omega.{arith}
use agent_key_vault_jit_acce.Prelude.Tests.{◌==◌, if◌then◌else◌, Bool-cases, ==→eq}
use agent_key_vault_jit_acce.Store.Tables.{Uuid, Time, Grant}
use agent_key_vault_jit_acce.Store.Action.{World, Action, Result, ok, err, pure}
use agent_key_vault_jit_acce.Store.Action.Inversion.{bind-ok}
use agent_key_vault_jit_acce.Store.Keys.{IsUnique, grant_ids, IsSpent}
use agent_key_vault_jit_acce.Store.Authorization.{ClaimContext}
use agent_key_vault_jit_acce.Store.Claims.{claim_approved}
use agent_key_vault_jit_acce.Store.Claims.Outcomes.{claim_approved-spends, claim_approved-spent}
use agent_key_vault_jit_acce.Store.History.{
  Call, creates_task, beats, ends_task, finds_task, loses_tasks, creates_request, finds_context,
  decides, expires, claims, starts, records_lease, finishes, starts_reclaim, finishes_reclaim,
  lists_cancelled, recovers, revokes, sweeps, updates_target, sets_target, sets_credential,
  creates_target, creates_set, creates_operation, publishes, sets_set, sets_operation, binds,
  creates_admin, registers_user, creates_session, revokes_session, updates_user, registers_agent,
  replaces_token, revokes_token, sets_agent, unseen, perform,
}
use agent_key_vault_jit_acce.Store.History.Evolves.{perform-Keeps}

-- Has the call claimed grant `i`?
unfoldable pub has_claimed : Uuid → Result (Option Grant) → Bool
has_claimed i (ok (some g)) = g.id == i
has_claimed i _ = false

claimed-grant :
    (i : Uuid) (r : Result (Option Grant))
    → has_claimed i r ≡ true
    → (g : Grant) × (r ≡ ok (some g)) × (g.id ≡ i)
unfolding has_claimed
claimed-grant i (ok (some g)) h = (g, refl, ==→eq _ _ h)
claimed-grant i (ok none) h = absurd (cc)
claimed-grant i (err e) h = absurd (cc)

-- How many calls of a history claim grant `i`.
unfoldable pub claim_count : Uuid → List Call → World → ℕ
claim_count i [] w = 0
claim_count i (c ∷ cs) w =
    let (r, w') = perform c w in
    let rest = claim_count i cs w' in if has_claimed i r then suc rest else rest

-- Calls that return no grant claim none.
unseen-claims_none :
    {A : Type 0} (i : Uuid) (m : Action A) (w : World) → has_claimed i (unseen m w).0 ≡ true → ⊥
unfolding has_claimed pure
unseen-claims_none i m w h =
    let (g, returned, named) = claimed-grant i (unseen m w).0 h in
    let (a, e, runs) = bind-ok m (λ a. pure none) w (some g) returned in
    cc (sym (ap (λ (r : Result (Option Grant) × World). r.0) runs) ∙ returned)

-- A call that claims a grant is a claim, and it spends the grant.
claims-spend :
    (i : Uuid) (c : ClaimContext) (now : Time) (w : World)
    → IsUnique (grant_ids w.db.grants)
    → has_claimed i (perform (claims c now) w).0 ≡ true
    → (¬ IsSpent i w.db.grants) × IsSpent i (perform (claims c now) w).1.db.grants
unfolding perform pure
claims-spend i c now w u h =
    let (g, returned, named) = claimed-grant i (perform (claims c now) w).0 h in
    let (x, claimed, runs) =
      bind-ok (claim_approved c now) (λ g. pure (some g)) w (some g) returned in
    let (same, spent) = claim_approved-spends c now w x u claimed in
    let result : x ≡ g = cc in
    let here : x.id ≡ i = ap (λ (y : Grant). y.id) result ∙ named in
    let it : c.grant_id ≡ i = sym same ∙ here in
    (
      (λ s. claim_approved-spent c now w x (subst (λ j. IsSpent j w.db.grants) (sym it) s) claimed),
      rw runs (subst (λ j. IsSpent j (claim_approved c now w).1.db.grants) it spent),
    )

-- The same of any call: the others claim nothing.
perform-spends :
    (i : Uuid) (c : Call) (w : World)
    → IsUnique (grant_ids w.db.grants)
    → has_claimed i (perform c w).0 ≡ true
    → (¬ IsSpent i w.db.grants) × IsSpent i (perform c w).1.db.grants
unfolding perform
perform-spends i (claims c now) w u h = claims-spend i c now w u h
perform-spends i (creates_task t) w u h = absurd (unseen-claims_none i _ w h)
perform-spends i (beats t a at) w u h = absurd (unseen-claims_none i _ w h)
perform-spends i (ends_task t a s at) w u h = absurd (unseen-claims_none i _ w h)
perform-spends i (finds_task t a) w u h = absurd (unseen-claims_none i _ w h)
perform-spends i (loses_tasks k at) w u h = absurd (unseen-claims_none i _ w h)
perform-spends i (creates_request r) w u h = absurd (unseen-claims_none i _ w h)
perform-spends i (finds_context r) w u h = absurd (unseen-claims_none i _ w h)
perform-spends i (decides k) w u h = absurd (unseen-claims_none i _ w h)
perform-spends i (expires r at) w u h = absurd (unseen-claims_none i _ w h)
perform-spends i (starts k g at) w u h = absurd (unseen-claims_none i _ w h)
perform-spends i (records_lease e k) w u h = absurd (unseen-claims_none i _ w h)
perform-spends i (finishes e s at k) w u h = absurd (unseen-claims_none i _ w h)
perform-spends i (starts_reclaim k e at) w u h = absurd (unseen-claims_none i _ w h)
perform-spends i (finishes_reclaim k r b at l) w u h = absurd (unseen-claims_none i _ w h)
perform-spends i lists_cancelled w u h = absurd (unseen-claims_none i _ w h)
perform-spends i (recovers at k) w u h = absurd (unseen-claims_none i _ w h)
perform-spends i (revokes r a at) w u h = absurd (unseen-claims_none i _ w h)
perform-spends i (sweeps at k) w u h = absurd (unseen-claims_none i _ w h)
perform-spends i (updates_target x0 x1) w u h = absurd (unseen-claims_none i _ w h)
perform-spends i (sets_target x0 x1 x2) w u h = absurd (unseen-claims_none i _ w h)
perform-spends i (sets_credential x0 x1 x2) w u h = absurd (unseen-claims_none i _ w h)
perform-spends i (creates_target x0 x1) w u h = absurd (unseen-claims_none i _ w h)
perform-spends i (creates_set x0) w u h = absurd (unseen-claims_none i _ w h)
perform-spends i (creates_operation x0 x1) w u h = absurd (unseen-claims_none i _ w h)
perform-spends i (publishes x0 x1 x2 x3) w u h = absurd (unseen-claims_none i _ w h)
perform-spends i (sets_set x0 x1 x2 x3) w u h = absurd (unseen-claims_none i _ w h)
perform-spends i (sets_operation x0 x1 x2 x3) w u h = absurd (unseen-claims_none i _ w h)
perform-spends i (binds x0) w u h = absurd (unseen-claims_none i _ w h)
perform-spends i (creates_admin x0) w u h = absurd (unseen-claims_none i _ w h)
perform-spends i (registers_user x0 x1) w u h = absurd (unseen-claims_none i _ w h)
perform-spends i (creates_session x0) w u h = absurd (unseen-claims_none i _ w h)
perform-spends i (revokes_session x0 x1) w u h = absurd (unseen-claims_none i _ w h)
perform-spends i (updates_user x0 x1 x2) w u h = absurd (unseen-claims_none i _ w h)
perform-spends i (registers_agent x0 x1) w u h = absurd (unseen-claims_none i _ w h)
perform-spends i (replaces_token x0 x1 x2 x3) w u h = absurd (unseen-claims_none i _ w h)
perform-spends i (revokes_token x0 x1 x2) w u h = absurd (unseen-claims_none i _ w h)
perform-spends i (sets_agent x0 x1 x2) w u h = absurd (unseen-claims_none i _ w h)

-- Once a grant is spent, no history claims it.
pub spent-claim_count :
    (i : Uuid) (cs : List Call) (w : World)
    → IsUnique (grant_ids w.db.grants)
    → IsSpent i w.db.grants
    → claim_count i cs w ≡ 0
unfolding claim_count
spent-claim_count i [] w u s = refl
spent-claim_count i (c ∷ cs) w u s =
    let keys = ((perform-Keeps c).apply w).grant_keys in
    elim (Bool-cases (has_claimed i (perform c w).0)) [
      | inl e ↦ absurd ((perform-spends i c w u e).0 s)
      | inr e ↦ rw e (spent-claim_count i cs (perform c w).1 (keys.unique u) (keys.spent i s))
    ]

-- Whatever calls the processes make, in whatever order, with whatever arguments and failures, at
-- most one of them claims a given grant, if the identifiers of the grants are distinct at first.
pub claim_count-le_one :
    (i : Uuid) (cs : List Call) (w : World)
    → IsUnique (grant_ids w.db.grants)
    → claim_count i cs w ≤ 1
unfolding claim_count
claim_count-le_one i [] w u = omega arith
claim_count-le_one i (c ∷ cs) w u =
    let keys = ((perform-Keeps c).apply w).grant_keys in
    elim (Bool-cases (has_claimed i (perform c w).0)) [
      | inl e ↦ rw e (
          omega (
            arith,
            spent-claim_count i cs (perform c w).1 (keys.unique u) (perform-spends i c w u e).1,
          ))
      | inr e ↦ rw e (claim_count-le_one i cs (perform c w).1 (keys.unique u))
    ]
