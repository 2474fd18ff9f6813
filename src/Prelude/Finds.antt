-- ===== src/Prelude/Finds.antt =====
-- What a `SELECT` finds: the only row, a new row, or none.
use mathlib.Core.Path.{◌≡◌, refl, sym, subst}
use mathlib.Core.Logic.{◌≢◌, inl, inr}
use mathlib.Core.Bool.{Bool, true, false}
use mathlib.Core.Option.{none, some}
use mathlib.Core.List.{List, [], ◌∷◌}
use Prim.Native.Nat.{ℕ}
use agent_key_vault_jit_acce.Prelude.Tests.{Bool-cases, ◌==◌}
use agent_key_vault_jit_acce.Prelude.Rows.{
  find_row, select_rows, count_rows, update_rows, insert_row,
}
use agent_key_vault_jit_acce.Prelude.Evolves.{All, Any, All-Any, find_row-Any}

module _ {A : Type 0} where
  pub find_row-rejected :
      (test : A → Bool) (xs : List A) → All (λ x. test x ≡ false) xs → find_row test xs ≡ none
  unfolding find_row
  find_row-rejected test [] a = refl
  find_row-rejected test (x ∷ xs) a = rw a.0 (find_row-rejected test xs a.1)

  -- The new row is found, where no other passes.
  pub find_row-inserted :
      (test : A → Bool) (y : A) (xs : List A)
      → All (λ x. test x ≡ false) xs
      → test y ≡ true
      → find_row test (insert_row y xs) ≡ some y
  unfolding find_row
  find_row-inserted test y [] a h = rw h refl
  find_row-inserted test y (x ∷ xs) a h = rw a.0 (find_row-inserted test y xs a.1 h)

  -- No key is there twice.
  abbrev pub DistinctBy : (A → ℕ) → List A → Type 0
  DistinctBy key [] = Unit
  DistinctBy key (x ∷ xs) = All (λ y. key y ≢ key x) xs × DistinctBy key xs

  -- The row that one test finds is found by its key too.
  pub find_row-by_key :
      (key : A → ℕ) (test other : A → Bool) (xs : List A) (y : A)
      → DistinctBy key xs
      → find_row test xs ≡ some y
      → other y ≡ true
      → ((x : A) → other x ≡ true → key x ≡ key y)
      → find_row other xs ≡ some y
  unfolding find_row
  find_row-by_key key test other [] y d h p only = absurd (cc)
  find_row-by_key key test other (x ∷ xs) y d h p only = elim (Bool-cases (test x)) [
    | inl e ↦ let same : x ≡ y = (cc (rw e at h)) in rw (same, p) refl
    | inr e ↦ elim (Bool-cases (other x)) [
      | inl o ↦
          let (z, apart, here) =
            All-Any (λ z. key z ≢ key x) (λ z. z ≡ y) xs d.0
              (find_row-Any (λ z. z ≡ y) test xs y (rw e at h) refl) in
          absurd (apart (subst (λ w. key w ≡ key x) (sym here) (sym (only x o))))
      | inr o ↦ rw o (find_row-by_key key test other xs y d.1 (rw e at h) p only)
    ]
  ]

  -- An update that affects one row leaves a changed one.
  pub Any-counted :
      (Q : A → Type 0) (test : A → Bool) (change : A → A) (xs : List A)
      → ((x : A) → test x ≡ true → Q (change x))
      → (count_rows test xs == 1) ≡ true
      → Any Q (update_rows test change xs)
  unfolding update_rows select_rows count_rows
  Any-counted Q test change [] f h = absurd (cc)
  Any-counted Q test change (x ∷ xs) f h = elim (Bool-cases (test x)) [
    | inl e ↦ rw e (inl (f x e))
    | inr e ↦ let rest = Any-counted Q test change xs f (rw e at h) in rw e (inr rest)
  ]
