-- ===== src/Store/Catalog/Selected.antt =====
-- What the finders of the catalog find.
use mathlib.Core.Path.{◌≡◌, refl, sym, ap, ◌∙◌}
use mathlib.Core.Option.{Option, none, some, bind}
use Prim.Native.Nat.{ℕ}
use agent_key_vault_jit_acce.Prelude.Tests.{and-eq-true, ◌==◌, ==→eq}
use agent_key_vault_jit_acce.Prelude.Rows.{find_row}
use agent_key_vault_jit_acce.Prelude.Evolves.{Any, find_row-passes, find_row-Any}
use agent_key_vault_jit_acce.Store.Tables.{
  Db, Uuid, Target, Credential, OperationSet, SafeOperation, OperationVersion, Catalog,
}
use agent_key_vault_jit_acce.Store.Action.Ensures.{
  Ensures, reads-Ensures, bind-Ensures, or_raise-Ensures, guard-Ensures, pure-Ensures,
  after-Ensures,
}
use agent_key_vault_jit_acce.Store.Catalog.{default_credential, find_target_with_default_credential}
use agent_key_vault_jit_acce.Store.Catalog.Joins.{find_version, version_row}
use agent_key_vault_jit_acce.Store.Catalog.Finds.{find_operation_version}

-- A target of the catalog and its default credential.
pub record IsSelected (c : Catalog) (id : Uuid) (r : Target × Credential) : Type 0 where
  pub target : Any (λ t. t ≡ r.0) c.targets
  pub named : r.0.id ≡ id
  pub credential : Any (λ k. k ≡ r.1) c.credentials
  pub default : r.0.default_credential_id ≡ some r.1.id

-- A version of an operation of the catalog, with the operation and its set.
pub record IsVersion (c : Catalog) (id : Uuid) (version : ℕ)
    (r : OperationSet × SafeOperation × OperationVersion) : Type 0 where
  pub operation_set : Any (λ s. s ≡ r.0) c.operation_sets
  pub operation : Any (λ o. o ≡ r.1) c.operations
  pub definition : Any (λ v. v ≡ r.2) c.operation_versions
  pub owner : r.0.id ≡ r.1.operation_set_id
  pub named : r.1.id ≡ id
  pub defines : r.2.operation_id ≡ id
  pub numbered : r.2.version ≡ version

bind-some :
    {A B : Type 0} (o : Option A) (f : A → Option B) (b : B)
    → bind o f ≡ some b
    → (a : A) × (o ≡ some a) × (f a ≡ some b)
unfolding bind
bind-some none f b h = absurd (cc)
bind-some (some a) f b h = (a, refl, h)

module _ (c : Catalog) where
  credential-found :
      (t : Target) (id : Uuid) (o : Option Credential) (r : Target × Credential)
      → ◌≡◌ {A = Option (Target × Credential)}
          (elim o [ none ↦ none | some k ↦ some (t, k) ])
          (some r)
      → (o ≡ some r.1) × (r.0 ≡ t)
  credential-found t id none r h = absurd (cc)
  credential-found t id (some k) r h = (cc, cc)

  default-found :
      (t : Target) (o : Option Uuid) (r : Target × Credential)
      → ◌≡◌ {A = Option (Target × Credential)}
          (elim o [
            | none ↦ none
            | some id ↦ elim (find_row (λ k. k.id == id) c.credentials) [
              | none ↦ none
              | some k ↦ some (t, k)
            ]
          ])
          (some r)
      → (r.0 ≡ t) × (o ≡ some r.1.id) × Any (λ k. k ≡ r.1) c.credentials
  default-found t none r h = absurd (cc)
  default-found t (some id) r h =
      let (found, same) = credential-found t id (find_row (λ k. k.id == id) c.credentials) r h in
      (
        same,
        ap some (sym (==→eq _ _ (find_row-passes _ c.credentials r.1 found))),
        find_row-Any (λ k. k ≡ r.1) _ c.credentials r.1 found refl,
      )

  default_credential-IsSelected :
      (id : Uuid) (o : Option Target) (r : Target × Credential)
      → find_row (λ t. t.id == id) c.targets ≡ o
      → default_credential c o ≡ some r
      → IsSelected c id r
  unfolding default_credential
  default_credential-IsSelected id none r found h = absurd (cc)
  default_credential-IsSelected id (some t) r found h =
      let (same, default, credential) = default-found t t.default_credential_id r h in
      record {
        target = find_row-Any (λ x. x ≡ r.0) _ c.targets t found (sym same);
        named = ap (λ (x : Target). x.id) same ∙ ==→eq _ _ (find_row-passes _ c.targets t found);
        credential = credential;
        default = ap (λ (x : Target). x.default_credential_id) same ∙ default;
      }

  version_row-IsVersion :
      (id : Uuid) (version : ℕ) (r : OperationSet × SafeOperation × OperationVersion)
      → version_row c id version ≡ some r
      → IsVersion c id version r
  unfolding version_row find_version
  version_row-IsVersion id version r h =
      let (o, operation, h₁) = bind-some _ _ r h in
      let (s, operation_set, h₂) = bind-some _ _ r h₁ in
      let (v, definition, h₃) = bind-some _ _ r h₂ in
      let same₀ : s ≡ r.0 = cc in
      let same₁ : o ≡ r.1 = cc in
      let same₂ : v ≡ r.2 = cc in
      let named : o.id ≡ id = ==→eq _ _ (find_row-passes _ c.operations o operation) in
      let (defines, numbered) =
        and-eq-true _ _ (find_row-passes _ c.operation_versions v definition) in
      record {
        operation_set = find_row-Any (λ x. x ≡ r.0) _ c.operation_sets s operation_set same₀;
        operation = find_row-Any (λ x. x ≡ r.1) _ c.operations o operation same₁;
        definition = find_row-Any (λ x. x ≡ r.2) _ c.operation_versions v definition same₂;
        owner =
            ap (λ (x : OperationSet). x.id) (sym same₀)
            ∙ ==→eq _ _ (find_row-passes _ c.operation_sets s operation_set)
            ∙ ap (λ (x : SafeOperation). x.operation_set_id) same₁;
        named = ap (λ (x : SafeOperation). x.id) (sym same₁) ∙ named;
        defines =
            ap (λ (x : OperationVersion). x.operation_id) (sym same₂) ∙ ==→eq _ _ defines ∙ named;
        numbered = ap (λ (x : OperationVersion). x.version) (sym same₂) ∙ ==→eq _ _ numbered;
      }

module _ (before : Db) where
  pub find_target-IsSelected :
      (id : Uuid)
      → Ensures
          (λ d. d ≡ before)
          (find_target_with_default_credential id)
          (λ r d. (d ≡ before) × IsSelected before.catalog id r)
  unfolding find_target_with_default_credential
  find_target-IsSelected id = reads-Ensures _ _ _ _ λ found.
      after-Ensures _ _ _ _ (or_raise-Ensures _ _ _) λ r d p.
        let same : d ≡ before = p.0.0 in
        (
          same,
          default_credential-IsSelected before.catalog id _ r refl (
              ap
                (λ (x : Db).
                  default_credential x.catalog (find_row (λ t. t.id == id) x.catalog.targets))
                (sym same)
              ∙ sym p.0.1
              ∙ p.1),
        )

  pub find_operation-IsVersion :
      (id : Uuid) (version : ℕ)
      → Ensures
          (λ d. d ≡ before)
          (find_operation_version id version)
          (λ r d. (d ≡ before) × IsVersion before.catalog id version r)
  unfolding find_operation_version
  find_operation-IsVersion id version = reads-Ensures _ _ _ _ λ found.
      bind-Ensures _ _ _ _ _ (or_raise-Ensures _ _ _) λ row. guard-Ensures _ _ _ _ _ λ current.
        guard-Ensures _ _ _ _ _ λ whole. pure-Ensures _ _ _ λ d p.
          let same : d ≡ before = p.0.0 in
          (
            same,
            version_row-IsVersion before.catalog id version row
                (ap (λ (x : Db). version_row x.catalog id version) (sym same) ∙ sym p.0.1 ∙ p.1),
          )
