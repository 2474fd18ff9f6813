-- ===== src/Store/Catalog/Closed.antt =====
-- What the methods of the catalog's repository withdraw: no grant for it can be claimed.
use mathlib.Core.Path.{◌≡◌, refl, sym, subst, ap, ◌∙◌}
use mathlib.Core.Bool.{Bool, true, false, not, ◌&&◌}
use mathlib.Core.Option.{Option, none, some}
use mathlib.Core.List.{List, [], ◌∷◌}
use Prim.Native.Nat.{ℕ}
use native.Mathlib.Omega.{arith}
use agent_key_vault_jit_acce.Prelude.Tests.{◌==◌}
use agent_key_vault_jit_acce.Prelude.Rows.{any_row, find_row}
use agent_key_vault_jit_acce.Prelude.Evolves.{All, All-updated, All-any, All-map}
use agent_key_vault_jit_acce.Domain.Grant.{is_approved}
use agent_key_vault_jit_acce.Store.Tables.{
  Db, Uuid, Time, Request, Grant, Target, OperationSet, TargetOperationBinding, Catalog,
}
use agent_key_vault_jit_acce.Store.Action.{
  when_raise, transaction, ◌>>◌, Action, unavailable, ◌>>=◌,
}
use agent_key_vault_jit_acce.Store.Action.Ensures.{
  Ensures, bind-Ensures, transaction-Ensures, when_raise-Preserves, or_raise-Ensures, pure-Ensures,
  any-Ensures, statement-Ensures, update_grants-Ensures, frame-Ensures, after-Ensures,
}
use agent_key_vault_jit_acce.Store.Catalog.{
  revoke_if, update_target, set_target_active, set_credential_active,
}
use agent_key_vault_jit_acce.Store.Catalog.Statements.{
  with_catalog, refused, catalog_statement, same_config, update_target_row, revoke_requested,
}
use agent_key_vault_jit_acce.Store.Catalog.Operations.{
  unless_active, of_set, update_operation_sets, set_operation_set_active, set_operation_active,
  outdated, upsert_target_operation_binding,
}

-- The target's configuration, if it exists, differs from the stored one.
unfoldable pub changed_config : Db → Target → Bool
changed_config d target = elim (find_row (λ t. t.id == target.id) d.catalog.targets) [
  | none ↦ false
  | some t ↦ not (same_config t.connection_config target.connection_config)
]

-- The grant is for a request that `test` holds of.
unfoldable pub is_for : (Request → Bool) → List Request → Grant → Bool
is_for test rs g = any_row (λ r. g.request_id == r.id && test r) rs

-- No grant of such a request can be claimed.
abbrev pub Closed : (Request → Bool) → Db → Type 0
Closed test d = All (λ g. is_for test d.requests g ≡ true → is_approved g.status ≡ false) d.grants

module _ (test : Db → Request → Bool) (test' : Request → Bool) (at : Time) where
  revoke_requested-Closed :
      Ensures
        (λ d. (r : Request) → test d r ≡ test' r)
        (revoke_requested test at)
        (λ n d. Closed test' d)
  unfolding revoke_requested is_for
  revoke_requested-Closed = update_grants-Ensures _ _ _ _ _ λ d same.
      All-updated (λ g. Unit {0})
        (λ g.
          any_row (λ r. g.request_id == r.id && test' r) d.requests ≡ true
          → is_approved g.status ≡ false)
        _ _ d.grants (λ g e u k. refl)
        (λ g e u k.
          let found : any_row (λ r. g.request_id == r.id && test d r) d.requests ≡ true =
            ap (λ (t : Request → Bool). any_row (λ r. g.request_id == r.id && t r) d.requests)
              (λ i r. same r i)
            ∙ k in
          ground arith)
        (All-any d.grants)

any_row_none : {A : Type 0} (f : A → Bool) (xs : List A) → any_row (λ x. f x && false) xs ≡ false
unfolding any_row
any_row_none f [] = refl
any_row_none f (x ∷ xs) = let rest = any_row_none f xs in ground arith

-- Nothing is withdrawn.
pub nothing-Closed : (d : Db) → Closed (λ r. false) d
unfolding is_for
nothing-Closed d =
    All-map (λ g. Unit {0}) _
      (λ g u k. absurd (cc (any_row_none (λ (r : Request). g.request_id == r.id) d.requests, k)))
      d.grants (All-any d.grants)

module _ (P : Db → Type 0) (test : Request → Bool) (m : Action ℕ) where
  revoke_if-Closed :
      (b : Bool)
      → Ensures P m (λ n d. Closed test d)
      → Ensures P (revoke_if b m) (λ n d. Closed (λ r. b && test r) d)
  unfolding revoke_if
  revoke_if-Closed true h = h
  revoke_if-Closed false h = pure-Ensures _ _ 0 λ d p. nothing-Closed d

  unless_active-Closed :
      (b : Bool)
      → Ensures P m (λ n d. Closed test d)
      → Ensures P (unless_active b m) (λ n d. Closed (λ r. not b && test r) d)
  unfolding unless_active
  unless_active-Closed true h = pure-Ensures _ _ 0 λ d p. nothing-Closed d
  unless_active-Closed false h = h

-- What holds before may be stronger.
before-Ensures :
    {A : Type 0} (P P' : Db → Type 0) (m : Action A) (Q : A → Db → Type 0)
    → ((d : Db) → P d → P' d)
    → Ensures P' m Q
    → Ensures P m Q
before-Ensures P P' m Q f h = record { holds = λ w a p e. h.holds w a (f w.db p) e }

-- A method that changes rows, looks at their number and then withdraws.
withdrawing :
    (I P : Db → Type 0) (test : Request → Bool) (m k : Action ℕ)
    → Ensures I m (λ n d. P d)
    → Ensures P k (λ n d. Closed test d)
    → Ensures I
        (transaction (m >>= λ rows. when_raise (not (rows == 1)) unavailable >> k))
        (λ n d. Closed test d)
withdrawing I P test m k first last = transaction-Ensures _ _ _ (
    bind-Ensures _ (λ n d. P d) _ _ _ first
      λ n. bind-Ensures _ (λ u d. P d) _ _ _ (when_raise-Preserves P _ _) λ u. last)

-- The same where what is withdrawn does not depend on the database.
withdrawing_fixed :
    (I : Db → Type 0) (fixed test : Request → Bool) (m k : Action ℕ)
    → Ensures (λ d. (r : Request) → fixed r ≡ fixed r) k (λ n d. Closed test d)
    → Ensures I
        (transaction (m >>= λ rows. when_raise (not (rows == 1)) unavailable >> k))
        (λ n d. Closed test d)
withdrawing_fixed I fixed test m k last =
    withdrawing I (λ d. (r : Request) → fixed r ≡ fixed r) test m k
      (after-Ensures _ _ _ _ (any-Ensures I m) λ n d u r. refl) last

-- A statement on the catalog that was not refused.
catalog_answer :
    {A : Type 0} (d : Db) (b : Bool) (x n : A) (c : Catalog) (e : Db)
    → ◌≡◌ {A = Option (A × Db)} (with_catalog d (refused b (x, c))) (some (n, e))
    → (x ≡ n) × (record d { catalog = c } ≡ e)
catalog_answer d true x n c e h = absurd (cc)
catalog_answer d false x n c e h = (cc, cc)

abbrev flag : Option Bool → Bool
flag none = false
flag (some b) = b

flag_of :
    (o : Option Target) (f : Target → Bool)
    → flag (elim o [ none ↦ none | some t ↦ some (f t) ]) ≡ elim o [ none ↦ false | some t ↦ f t ]
flag_of none f = refl
flag_of (some t) f = refl

module _ (d₀ : Db) where
  abbrev pub Start : Db → Type 0
  Start d = d ≡ d₀

  pub set_target-Closed :
      (id : Uuid) (active : Bool) (at : Time)
      → Ensures Start
          (set_target_active id active at)
          (λ n d. Closed (λ r. not active && r.target_id == id) d)
  unfolding set_target_active
  set_target-Closed id active at =
      withdrawing_fixed Start (λ r. r.target_id == id) _ _ _
        (revoke_if-Closed _ _ _ _ (revoke_requested-Closed _ _ at))

  pub set_credential-Closed :
      (id : Uuid) (active : Bool) (at : Time)
      → Ensures Start
          (set_credential_active id active at)
          (λ n d. Closed (λ r. not active && r.credential_id == id) d)
  unfolding set_credential_active
  set_credential-Closed id active at =
      withdrawing_fixed Start (λ r. r.credential_id == id) _ _ _
        (revoke_if-Closed _ _ _ _ (revoke_requested-Closed _ _ at))

  pub set_operation-Closed :
      (id : Uuid) (active : Bool) (actor : Uuid) (at : Time)
      → Ensures Start
          (set_operation_active id active actor at)
          (λ n d. Closed (λ r. not active && (r.operation_id == id && r.request_format == 2)) d)
  unfolding set_operation_active
  set_operation-Closed id active actor at =
      withdrawing_fixed Start (λ r. r.operation_id == id && r.request_format == 2) _ _ _
        (unless_active-Closed _ _ _ _ (revoke_requested-Closed _ _ at))

  pub upsert_binding-Closed :
      (b : TargetOperationBinding)
      → Ensures Start (upsert_target_operation_binding b) (λ n d. Closed (outdated b d₀) d)
  unfolding upsert_target_operation_binding
  upsert_binding-Closed b =
      withdrawing_fixed Start (outdated b d₀) _ _ _ (revoke_requested-Closed _ _ b.updated_at)

  -- The update of the sets leaves the operations.
  update_sets-operations :
      (valid : Db → Bool) (test : OperationSet → Bool) (change : OperationSet → OperationSet)
      → Ensures Start
          (update_operation_sets valid test change)
          (λ n d. (id : Uuid) (r : Request) → of_set id d r ≡ of_set id d₀ r)
  unfolding update_operation_sets catalog_statement
  update_sets-operations valid test change = statement-Ensures _ _ _ λ d n e p h id r.
      let (answer, same) = catalog_answer d _ _ _ _ _ h in
      ap (λ (x : Db). of_set id x r) (sym same) ∙ ap (λ (x : Db). of_set id x r) p

  pub set_set-Closed :
      (id : Uuid) (active : Bool) (actor : Uuid) (at : Time)
      → Ensures Start
          (set_operation_set_active id active actor at)
          (λ n d. Closed (λ r. not active && of_set id d₀ r) d)
  unfolding set_operation_set_active
  set_set-Closed id active actor at =
      withdrawing Start (λ d. (r : Request) → of_set id d r ≡ of_set id d₀ r) _ _ _
        (after-Ensures _ _ _ _ (update_sets-operations _ _ _) λ n d k. k id)
        (unless_active-Closed _ _ _ _ (revoke_requested-Closed _ _ at))

  update_target_row-changed :
      (target : Target)
      → Ensures Start (update_target_row target) (λ row d. flag row ≡ changed_config d₀ target)
  unfolding update_target_row catalog_statement changed_config
  update_target_row-changed target = statement-Ensures _ _ _ λ d row e p h.
      let (answer, same) = catalog_answer d _ _ _ _ _ h in
      ap flag (sym answer)
      ∙ flag_of (find_row (λ t. t.id == target.id) d.catalog.targets)
          (λ t. not (same_config t.connection_config target.connection_config))
      ∙ ap (λ (x : Db). changed_config x target) p

  pub update_target-Closed :
      (target : Target) (at : Time)
      → Ensures Start
          (update_target target at)
          (λ n d. Closed (λ r. changed_config d₀ target && r.target_id == target.id) d)
  unfolding update_target
  update_target-Closed target at = transaction-Ensures _ _ _ (
      bind-Ensures _ (λ row d. flag row ≡ changed_config d₀ target) _ _ _
        (update_target_row-changed target)
        λ row.
          bind-Ensures _ (λ changed d. changed ≡ changed_config d₀ target) _ _ _
            (after-Ensures _ _ _ _ (or_raise-Ensures _ _ _) λ changed d p. ap flag (sym p.1) ∙ p.0)
            λ changed.
              after-Ensures _ _ _ _
                (frame-Ensures _ (changed ≡ changed_config d₀ target) _ _ (λ d p. p)
                  (revoke_if-Closed _ (λ r. r.target_id == target.id) _ changed
                    (before-Ensures _ _ _ _ (λ d p r. refl)
                      (revoke_requested-Closed _ (λ r. r.target_id == target.id) at))))
                λ n d p. subst (λ b. Closed (λ r. b && r.target_id == target.id) d) p.0 p.1)
