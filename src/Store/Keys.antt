-- ===== src/Store/Keys.antt =====
-- The primary key of `operation_grants`, and grants that can be claimed no more.
use mathlib.Core.Path.{◌≡◌, refl, sym, ap, ◌∙◌, subst}
use mathlib.Core.Logic.{◌≢◌, inl, inr}
use mathlib.Core.Bool.{Bool, true, false, ◌||◌}
use mathlib.Core.List.{List, [], ◌∷◌, ◌++◌, map}
use native.Mathlib.Omega.{arith}
use agent_key_vault_jit_acce.Prelude.Tests.{Bool-cases, ◌==◌}
use agent_key_vault_jit_acce.Prelude.Rows.{update_rows, insert_row, any_row}
use agent_key_vault_jit_acce.Prelude.Evolves.{
  All, Any, IsPreorder, All-update_rows, All-insert_row, Any-inserted, All-map, All-Any,
  any_row-none,
}
use agent_key_vault_jit_acce.Domain.Grant.{is_approved}
use agent_key_vault_jit_acce.Domain.Paths.{not_approved_again}
use agent_key_vault_jit_acce.Store.Tables.{Uuid, Grant}
use agent_key_vault_jit_acce.Store.Evolution.Rows.{GrantEvolves}

-- No identifier is listed twice.
abbrev pub IsUnique : List Uuid → Type 0
IsUnique [] = Unit
IsUnique (i ∷ is) = All (λ j. j ≢ i) is × IsUnique is

abbrev pub grant_ids : List Grant → List Uuid
grant_ids = map (λ g. g.id)

-- The grant exists, and no row of it is approved.
abbrev pub IsSpent : Uuid → List Grant → Type 0
IsSpent i gs = Any (λ g. g.id ≡ i) gs × All (λ g. g.id ≡ i → is_approved g.status ≡ false) gs

-- What every statement does to the keys of the grants.
pub record KeepsKeys (xs ys : List Grant) : Type 0 where
  pub unique : IsUnique (grant_ids xs) → IsUnique (grant_ids ys)
  pub spent : (i : Uuid) → IsSpent i xs → IsSpent i ys

pub KeepsKeys-preorder : IsPreorder KeepsKeys
KeepsKeys-preorder = record {
  reflexive = λ x. record { unique = λ u. u; spent = λ i s. s };
  transitive =
      λ a b. record { unique = λ u. b.unique (a.unique u); spent = λ i s. b.spent i (a.spent i s) };
}

id-evolves : (x y : Grant) → GrantEvolves x y → y.id ≡ x.id
id-evolves x y e = ap (λ (g : Grant). g.id) e.snapshot

module _ (test : Grant → Bool) (change : Grant → Grant) where
  grant_ids-update :
      (xs : List Grant)
      → ((x : Grant) → test x ≡ true → GrantEvolves x (change x))
      → grant_ids (update_rows test change xs) ≡ grant_ids xs
  unfolding update_rows
  grant_ids-update [] h = refl
  grant_ids-update (x ∷ xs) h = elim (Bool-cases (test x)) [
    | inl e ↦ rw e (rw (id-evolves x (change x) (h x e), grant_ids-update xs h))
    | inr e ↦ rw e (rw (grant_ids-update xs h))
  ]

  Any-id-update :
      (i : Uuid) (xs : List Grant)
      → ((x : Grant) → test x ≡ true → GrantEvolves x (change x))
      → Any (λ g. g.id ≡ i) xs
      → Any (λ g. g.id ≡ i) (update_rows test change xs)
  unfolding update_rows
  Any-id-update i [] h a = absurd a
  Any-id-update i (x ∷ xs) h (inr a) = inr (Any-id-update i xs h a)
  Any-id-update i (x ∷ xs) h (inl p) = elim (Bool-cases (test x)) [
    | inl e ↦ rw e (inl (id-evolves x (change x) (h x e) ∙ p))
    | inr e ↦ rw e (inl p)
  ]

  pub KeepsKeys-update :
      (xs : List Grant)
      → ((x : Grant) → test x ≡ true → GrantEvolves x (change x))
      → KeepsKeys xs (update_rows test change xs)
  KeepsKeys-update xs h = record {
    unique = λ u. subst IsUnique (sym (grant_ids-update xs h)) u;
    spent = λ i s. (
      Any-id-update i xs h s.0,
      All-update_rows _ test change xs
          (λ x t k e.
            not_approved_again (h x t).path (k (sym (id-evolves x (change x) (h x t)) ∙ e)))
          s.1,
    );
  }

IsUnique-append :
    (i : Uuid) (is : List Uuid) → All (λ j. j ≢ i) is → IsUnique is → IsUnique (is ++ (i ∷ []))
IsUnique-append i [] a u = (tt, tt)
IsUnique-append i (j ∷ is) a u =
    (All-insert_row _ i is u.0 (λ e. a.0 (sym e)), IsUnique-append i is a.1 u.1)

grant_ids-insert :
    (g : Grant) (xs : List Grant) → grant_ids (insert_row g xs) ≡ grant_ids xs ++ (g.id ∷ [])
grant_ids-insert g [] = refl
grant_ids-insert g (x ∷ xs) = ap (λ (is : List Uuid). x.id ∷ is) (grant_ids-insert g xs)

All-ids : (i : Uuid) (xs : List Grant) → All (λ g. g.id ≢ i) xs → All (λ j. j ≢ i) (grant_ids xs)
All-ids i [] a = tt
All-ids i (x ∷ xs) a = (a.0, All-ids i xs a.1)

-- A grant is inserted under a new identifier.
pub KeepsKeys-insert :
    (g : Grant) (xs : List Grant)
    → any_row (λ h. h.id == g.id || h.request_id == g.request_id) xs ≡ false
    → KeepsKeys xs (insert_row g xs)
KeepsKeys-insert g xs k =
    let fresh : All (λ h. h.id ≢ g.id) xs =
      All-map (λ h. (h.id == g.id || h.request_id == g.request_id) ≡ false) (λ h. h.id ≢ g.id)
        (λ h e. ground arith) xs (any_row-none _ xs k) in
    record {
      unique = λ u.
          subst IsUnique (sym (grant_ids-insert g xs))
            (IsUnique-append g.id (grant_ids xs) (All-ids g.id xs fresh) u);
      spent = λ i s. (
        Any-inserted _ g xs s.0,
        All-insert_row _ g xs s.1
            (λ e. let (x, p, q) = All-Any _ _ xs fresh s.0 in absurd (p (q ∙ sym e))),
      );
    }
