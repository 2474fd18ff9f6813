-- ===== src/Store/Claims/Outcomes.antt =====
-- How a claim ends: what it needs to succeed, and what it leaves behind.
use mathlib.Core.Path.{◌≡◌, refl, sym, ap, ◌∙◌, subst}
use mathlib.Core.Logic.{◌≢◌, inl, inr}
use mathlib.Core.Bool.{Bool, true, false, false≢true}
use mathlib.Core.List.{List, [], ◌∷◌, map}
use native.Mathlib.Omega.{arith}
use agent_key_vault_jit_acce.Prelude.Tests.{Bool-cases, ◌==◌, ==→eq}
use agent_key_vault_jit_acce.Prelude.Rows.{length, select_rows, update_rows}
use agent_key_vault_jit_acce.Prelude.Evolves.{All, Any, All-Any, Any-some, Any-map}
use agent_key_vault_jit_acce.Domain.Grant.{is_approved}
use agent_key_vault_jit_acce.Store.Tables.{Db, Uuid, Time, Grant}
use agent_key_vault_jit_acce.Store.Action.{
  World, Result, ok, err, internal, next_fails, spend, statement, pure, raise, when_raise, ◌>>=◌,
}
use agent_key_vault_jit_acce.Store.Keys.{IsUnique, grant_ids, IsSpent}
use agent_key_vault_jit_acce.Store.Statements.{update_grants, insert_audit}
use agent_key_vault_jit_acce.Store.Authorization.{ClaimContext, hash_size}
use agent_key_vault_jit_acce.Store.Claims.{claimable, claim_grant, claim_result, claim_approved}

module _ (c : ClaimContext) (now : Time) where
  -- The rows that the update changes, as it returns them, and the database after it.
  abbrev claimed_rows : Db → List Grant
  claimed_rows d = map (claim_grant now) (select_rows (claimable c now d) d.grants)

  abbrev pub after_claim : World → World
  after_claim w = record (spend w) {
    db = record w.db { grants = update_rows (claimable c now w.db) (claim_grant now) w.db.grants };
  }

  claim_approved-runs :
      (w : World)
      → next_fails w.faults ≡ false
      → claim_approved c now w ≡ claim_result c now (claimed_rows w.db) (after_claim w)
  unfolding claim_approved update_grants statement ◌>>=◌
  claim_approved-runs w e = rw e

  claim_approved-fails :
      (w : World) → next_fails w.faults ≡ true → claim_approved c now w ≡ (err internal, spend w)
  unfolding claim_approved update_grants statement ◌>>=◌
  claim_approved-fails w e = rw e

  claim_result-ok :
      (rows : List Grant) (w : World) (g : Grant)
      → (claim_result c now rows w).0 ≡ ok g
      → (rest : List Grant) × (rows ≡ g ∷ rest)
        × (length g.operation_hash ≡ hash_size)
        × ((claim_result c now rows w).1 ≡ w)
  unfolding claim_result insert_audit statement raise when_raise pure ◌>>=◌
  claim_result-ok [] w g h = elim (Bool-cases (next_fails w.faults)) [
    | inl e ↦ absurd (cc (rw e at h))
    | inr e ↦ absurd (cc (rw e at h))
  ]
  claim_result-ok (x ∷ rest) w g h = elim (Bool-cases (length x.operation_hash == hash_size)) [
    | inl e ↦
        let same : x ≡ g = cc (rw e at h) in
        (
          rest,
          ap (λ (y : Grant). y ∷ rest) same,
          subst (λ (y : Grant). length y.operation_hash ≡ hash_size) same (==→eq _ _ e),
          rw e refl,
        )
    | inr e ↦ absurd (cc (rw e at h))
  ]

  head_of_map :
      (f : Grant → Grant) (test : Grant → Bool) (xs : List Grant) (g : Grant) (rest : List Grant)
      → map f (select_rows test xs) ≡ g ∷ rest
      → Any (λ x. (test x ≡ true) × (g ≡ f x)) xs
  unfolding select_rows
  head_of_map f test [] g rest h = absurd (cc)
  head_of_map f test (x ∷ xs) g rest h = elim (Bool-cases (test x)) [
    | inl e ↦ inl (e, sym (cc (rw e at h)))
    | inr e ↦ inr (head_of_map f test xs g rest (rw e at h))
  ]

  -- A claim that succeeds has changed a claimable row, and returns it.
  pub claim_approved-ok :
      (w : World) (g : Grant)
      → (claim_approved c now w).0 ≡ ok g
      → Any (λ x. (claimable c now w.db x ≡ true) × (g ≡ claim_grant now x)) w.db.grants
        × ((claim_approved c now w).1 ≡ after_claim w)
  claim_approved-ok w g h = elim (Bool-cases (next_fails w.faults)) [
    | inl e ↦ absurd (cc (rw (claim_approved-fails w e) at h))
    | inr e ↦
        let runs = claim_approved-runs w e in
        let (rest, rows, size, same) =
          claim_result-ok (claimed_rows w.db) (after_claim w) g (rw runs at h) in
        (
          head_of_map (claim_grant now) (claimable c now w.db) w.db.grants g rest rows,
          ap (λ (r : Result Grant × World). r.1) runs ∙ same,
        )
  ]

  claimable-id : (d : Db) (x : Grant) → claimable c now d x ≡ true → x.id ≡ c.grant_id
  unfolding claimable
  claimable-id d x h = ground arith

  claimable-approved :
      (d : Db) (x : Grant) → claimable c now d x ≡ true → is_approved x.status ≡ true
  unfolding claimable
  claimable-approved d x h = ground arith

-- The rows of other identifiers stay apart from `i`.
others_apart :
    (test : Grant → Bool) (now : Time) (i : Uuid) (xs : List Grant)
    → All (λ j. j ≢ i) (grant_ids xs)
    → All (λ g. g.id ≡ i → is_approved g.status ≡ false) (update_rows test (claim_grant now) xs)
unfolding update_rows
others_apart test now i [] a = tt
others_apart test now i (x ∷ xs) a = elim (Bool-cases (test x)) [
  | inl e ↦ rw e ((λ same. absurd (a.0 same)), others_apart test now i xs a.1)
  | inr e ↦ rw e ((λ same. absurd (a.0 same)), others_apart test now i xs a.1)
]

Any-ids :
    (i : Uuid) (test : Grant → Bool) (xs : List Grant)
    → ((x : Grant) → test x ≡ true → x.id ≡ i)
    → Any (λ x. test x ≡ true) xs
    → Any (λ j. j ≡ i) (grant_ids xs)
Any-ids i test [] named a = absurd a
Any-ids i test (x ∷ xs) named (inl t) = inl (named x t)
Any-ids i test (x ∷ xs) named (inr a) = inr (Any-ids i test xs named a)

module _ (test : Grant → Bool) (now : Time) (i : Uuid)
    (named : (x : Grant) → test x ≡ true → x.id ≡ i) where
  -- The matching row is not the first one.
  spends_later :
      (x : Grant) (xs : List Grant)
      → test x ≡ false
      → All (λ j. j ≢ x.id) (grant_ids xs)
      → Any (λ y. test y ≡ true) xs
      → IsSpent i (update_rows test (claim_grant now) xs)
      → IsSpent i (update_rows test (claim_grant now) (x ∷ xs))
  unfolding update_rows
  spends_later x xs e u b (found, all) =
      let (j, n, p) =
        All-Any (λ j. j ≢ x.id) (λ j. j ≡ i) (grant_ids xs) u (Any-ids i test xs named b) in
      rw e (inr found, ((λ same. absurd (n (p ∙ sym same))), all))

  -- A conditional update by a claim of the one row with this identifier spends the grant.
  update_spends :
      (xs : List Grant)
      → IsUnique (grant_ids xs)
      → Any (λ x. test x ≡ true) xs
      → IsSpent i (update_rows test (claim_grant now) xs)
  unfolding update_rows
  update_spends [] u a = absurd a
  update_spends (x ∷ xs) u a = elim (Bool-cases (test x)) [
    | inl e ↦ rw e (
      inl (named x e),
      (
        (λ same. refl),
        others_apart test now i xs (subst (λ k. All (λ j. j ≢ k) (grant_ids xs)) (named x e) u.0),
      ),
    )
    | inr e ↦ elim a [
      | inl t ↦ absurd (false≢true (sym e ∙ t))
      | inr b ↦ spends_later x xs e u.0 b (update_spends xs u.1 b)
    ]
  ]

module _ (c : ClaimContext) (now : Time) where
  -- A successful claim spends its grant.
  pub claim_approved-spends :
      (w : World) (g : Grant)
      → IsUnique (grant_ids w.db.grants)
      → (claim_approved c now w).0 ≡ ok g
      → (g.id ≡ c.grant_id) × IsSpent c.grant_id (claim_approved c now w).1.db.grants
  claim_approved-spends w g u h =
      let (a, after) = claim_approved-ok c now w g h in
      let (x, (t, p)) = Any-some _ w.db.grants a in
      (
        ap (λ (y : Grant). y.id) p ∙ claimable-id c now w.db x t,
        rw after (
            update_spends (claimable c now w.db) now c.grant_id (claimable-id c now w.db)
              w.db.grants u (Any-map _ _ (λ y q. q.0) w.db.grants a)),
      )

  -- A spent grant is not claimed.
  pub claim_approved-spent :
      (w : World) (g : Grant) → IsSpent c.grant_id w.db.grants → (claim_approved c now w).0 ≢ ok g
  claim_approved-spent w g s h =
      let (a, after) = claim_approved-ok c now w g h in
      let (y, spent, (t', p)) = All-Any _ _ w.db.grants s.1 a in
      false≢true (sym (spent (claimable-id c now w.db y t')) ∙ claimable-approved c now w.db y t')
