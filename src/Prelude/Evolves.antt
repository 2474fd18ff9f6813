-- ===== src/Prelude/Evolves.antt =====
-- How a table may change: each row stays, changed as `R` allows, and new rows come behind.
use Prim.Native.Nat.{ℕ, zero, suc, ◌≤◌}
use mathlib.Core.Path.{◌≡◌, sym, subst}
use mathlib.Core.Logic.{◌⊎◌, inl, inr}
use mathlib.Core.Bool.{Bool, true, false}
use mathlib.Core.Option.{none, some}
use mathlib.Core.List.{List, [], ◌∷◌, ◌++◌, map}
use native.Mathlib.Omega.{arith}
use agent_key_vault_jit_acce.Prelude.Tests.{Bool-cases, ◌==◌}
use agent_key_vault_jit_acce.Prelude.Rows.{
  length, take, any_row, find_row, select_rows, update_rows, insert_row,
}

abbrev pub All {ℓ} : {A : Type ℓ} → (A → Type 0) → List A → Type 0
All P [] = Unit
All P (x ∷ xs) = P x × All P xs

abbrev pub Any {ℓ} : {A : Type ℓ} → (A → Type 0) → List A → Type 0
Any P [] = ⊥
Any P (x ∷ xs) = P x ⊎ Any P xs

abbrev pub Evolves {ℓ} : {A : Type ℓ} → (A → A → Type 0) → List A → List A → Type 0
Evolves R [] ys = Unit
Evolves R (x ∷ xs) [] = ⊥
Evolves R (x ∷ xs) (y ∷ ys) = R x y × Evolves R xs ys

-- What the row relations of this program have in common.
pub record IsPreorder {ℓ} {A : Type ℓ} (R : A → A → Type 0) : Type ℓ where
  pub reflexive : (x : A) → R x x
  pub transitive : {x y z : A} → R x y → R y z → R x z

module _ {ℓ} {A : Type ℓ} where
  pub All-update_rows :
      (P : A → Type 0) (test : A → Bool) (change : A → A) (xs : List A)
      → ((x : A) → test x ≡ true → P x → P (change x))
      → All P xs
      → All P (update_rows test change xs)
  unfolding update_rows
  All-update_rows P test change [] h a = tt
  All-update_rows P test change (x ∷ xs) h a = elim (Bool-cases (test x)) [
    | inl e ↦ rw e (h x e a.0, All-update_rows P test change xs h a.1)
    | inr e ↦ rw e (a.0, All-update_rows P test change xs h a.1)
  ]

  pub All-insert_row :
      (P : A → Type 0) (x : A) (xs : List A) → All P xs → P x → All P (insert_row x xs)
  All-insert_row P x [] a p = (p, tt)
  All-insert_row P x (y ∷ ys) a p = (a.0, All-insert_row P x ys a.1 p)

  pub All-map :
      (P : A → Type 0) (Q : A → Type 0)
      → ((x : A) → P x → Q x)
      → (xs : List A) → All P xs
      → All Q xs
  All-map P Q f [] a = tt
  All-map P Q f (x ∷ xs) a = (f x a.0, All-map P Q f xs a.1)

  pub Any-map :
      (P : A → Type 0) (Q : A → Type 0)
      → ((x : A) → P x → Q x)
      → (xs : List A) → Any P xs
      → Any Q xs
  Any-map P Q f [] a = a
  Any-map P Q f (x ∷ xs) (inl p) = inl (f x p)
  Any-map P Q f (x ∷ xs) (inr a) = inr (Any-map P Q f xs a)

  pub Any-insert_row : (P : A → Type 0) (x : A) (xs : List A) → P x → Any P (insert_row x xs)
  Any-insert_row P x [] p = inl p
  Any-insert_row P x (y ∷ ys) p = inr (Any-insert_row P x ys p)

  -- The rows that were there are still there.
  pub Any-inserted : (P : A → Type 0) (x : A) (xs : List A) → Any P xs → Any P (insert_row x xs)
  Any-inserted P x [] a = absurd a
  Any-inserted P x (y ∷ ys) (inl p) = inl p
  Any-inserted P x (y ∷ ys) (inr a) = inr (Any-inserted P x ys a)

  -- What an update does not touch, some row still satisfies.
  pub Any-update_rows :
      (P : A → Type 0) (test : A → Bool) (change : A → A) (xs : List A)
      → ((x : A) → test x ≡ true → P x → P (change x))
      → Any P xs
      → Any P (update_rows test change xs)
  unfolding update_rows
  Any-update_rows P test change [] h a = absurd a
  Any-update_rows P test change (x ∷ xs) h (inr a) = inr (Any-update_rows P test change xs h a)
  Any-update_rows P test change (x ∷ xs) h (inl p) = elim (Bool-cases (test x)) [
    | inl e ↦ rw e (inl (h x e p))
    | inr e ↦ rw e (inl p)
  ]

  -- A row that all satisfy `P` and some one satisfies `Q`.
  pub All-Any :
      (P : A → Type 0) (Q : A → Type 0) (xs : List A) → All P xs → Any Q xs → (x : A) × P x × Q x
  All-Any P Q [] a b = absurd b
  All-Any P Q (x ∷ xs) a (inl q) = (x, a.0, q)
  All-Any P Q (x ∷ xs) a (inr b) = All-Any P Q xs a.1 b

  pub Any-some : (P : A → Type 0) (xs : List A) → Any P xs → (x : A) × P x
  Any-some P [] a = absurd a
  Any-some P (x ∷ xs) (inl p) = (x, p)
  Any-some P (x ∷ xs) (inr a) = Any-some P xs a

  -- What an update makes of `P`: `Q` of the changed rows, and of the others.
  pub All-updated :
      (P : A → Type 0) (Q : A → Type 0) (test : A → Bool) (change : A → A) (xs : List A)
      → ((x : A) → test x ≡ true → P x → Q (change x))
      → ((x : A) → test x ≡ false → P x → Q x)
      → All P xs
      → All Q (update_rows test change xs)
  unfolding update_rows
  All-updated P Q test change [] f g a = tt
  All-updated P Q test change (x ∷ xs) f g a = elim (Bool-cases (test x)) [
    | inl e ↦ rw e (f x e a.0, All-updated P Q test change xs f g a.1)
    | inr e ↦ rw e (g x e a.0, All-updated P Q test change xs f g a.1)
  ]

  pub All-any : (xs : List A) → All (λ x. Unit {0}) xs
  All-any [] = tt
  All-any (x ∷ xs) = (tt, All-any xs)

  -- An `EXISTS` test that holds has a row.
  pub any_row-Any :
      (test : A → Bool) (xs : List A) → any_row test xs ≡ true → Any (λ x. test x ≡ true) xs
  unfolding any_row
  any_row-Any test [] h = cc
  any_row-Any test (x ∷ xs) h = elim (Bool-cases (test x)) [
    | inl e ↦ inl e
    | inr e ↦ inr (any_row-Any test xs (rw e at h))
  ]

  -- The same, with the row alone.
  pub any_row-witness :
      (test : A → Bool) (xs : List A) → any_row test xs ≡ true → (x : A) × (test x ≡ true)
  unfolding any_row
  any_row-witness test [] h = absurd (cc)
  any_row-witness test (x ∷ xs) h = elim (Bool-cases (test x)) [
    | inl e ↦ (x, e)
    | inr e ↦ any_row-witness test xs (rw e at h)
  ]

  pub any_row-none :
      (test : A → Bool) (xs : List A) → any_row test xs ≡ false → All (λ x. test x ≡ false) xs
  unfolding any_row
  any_row-none test [] h = tt
  any_row-none test (x ∷ xs) h = elim (Bool-cases (test x)) [
    | inl e ↦ absurd (cc (rw e at h))
    | inr e ↦ (e, any_row-none test xs (rw e at h))
  ]

  -- A row that `SELECT` finds passes its test and stands in the table.
  pub find_row-passes :
      (test : A → Bool) (xs : List A) (y : A) → find_row test xs ≡ some y → test y ≡ true
  unfolding find_row
  find_row-passes test [] y h = cc
  find_row-passes test (x ∷ xs) y h = ground (arith, find_row-passes test xs y)

  pub find_row-Any :
      (P : A → Type 0) (test : A → Bool) (xs : List A) (y : A)
      → find_row test xs ≡ some y
      → P y
      → Any P xs
  unfolding find_row
  find_row-Any P test [] y h p = absurd (cc)
  find_row-Any P test (x ∷ xs) y h p = elim (Bool-cases (test x)) [
    | inl e ↦ let same : x ≡ y = (cc (rw e at h)) in inl (subst P (sym same) p)
    | inr e ↦ inr (find_row-Any P test xs y (rw e at h) p)
  ]

  pub find_row-All :
      (P : A → Type 0) (test : A → Bool) (xs : List A) (y : A)
      → find_row test xs ≡ some y
      → All P xs
      → P y
  unfolding find_row
  find_row-All P test [] y h a = absurd (cc)
  find_row-All P test (x ∷ xs) y h a = elim (Bool-cases (test x)) [
    | inl e ↦ let same : x ≡ y = (cc (rw e at h)) in subst P same a.0
    | inr e ↦ find_row-All P test xs y (rw e at h) a.1
  ]

  pub find_row-none :
      (test : A → Bool) (xs : List A) → find_row test xs ≡ none → All (λ x. test x ≡ false) xs
  unfolding find_row
  find_row-none test [] h = tt
  find_row-none test (x ∷ xs) h = elim (Bool-cases (test x)) [
    | inl e ↦ absurd (cc (rw e at h))
    | inr e ↦ (e, find_row-none test xs (rw e at h))
  ]

  -- An update that affects one row leaves a changed one.
  pub Any-updated :
      (Q : A → Type 0) (test : A → Bool) (change : A → A) (xs : List A)
      → ((x : A) → test x ≡ true → Q (change x))
      → (length (map change (select_rows test xs)) == 1) ≡ true
      → Any Q (update_rows test change xs)
  unfolding update_rows select_rows
  Any-updated Q test change [] f h = absurd (cc)
  Any-updated Q test change (x ∷ xs) f h = elim (Bool-cases (test x)) [
    | inl e ↦ rw e (inl (f x e))
    | inr e ↦ let rest = Any-updated Q test change xs f (rw e at h) in rw e (inr rest)
  ]

  pub length-take : (n : ℕ) (xs : List A) → length (take n xs) ≤ n
  length-take zero xs = omega arith
  length-take (suc n) [] = omega arith
  length-take (suc n) (x ∷ xs) = omega (arith, length-take n xs)

  module _ (R : A → A → Type 0) (o : IsPreorder R) where
    pub Evolves-refl : (xs : List A) → Evolves R xs xs
    Evolves-refl [] = tt
    Evolves-refl (x ∷ xs) = (o.reflexive x, Evolves-refl xs)

    pub Evolves-trans : (xs ys zs : List A) → Evolves R xs ys → Evolves R ys zs → Evolves R xs zs
    Evolves-trans [] ys zs a b = tt
    Evolves-trans (x ∷ xs) [] zs a b = absurd a
    Evolves-trans (x ∷ xs) (y ∷ ys) [] a b = absurd b
    Evolves-trans (x ∷ xs) (y ∷ ys) (z ∷ zs) a b =
        (o.transitive a.0 b.0, Evolves-trans xs ys zs a.1 b.1)

    pub Evolves-insert_row : (x : A) (xs : List A) → Evolves R xs (insert_row x xs)
    Evolves-insert_row x [] = tt
    Evolves-insert_row x (y ∷ ys) = (o.reflexive y, Evolves-insert_row x ys)

    pub Evolves-appended : (xs ys : List A) → Evolves R xs (xs ++ ys)
    Evolves-appended [] ys = tt
    Evolves-appended (x ∷ xs) ys = (o.reflexive x, Evolves-appended xs ys)

    pub Evolves-update_rows :
        (test : A → Bool) (change : A → A) (xs : List A)
        → ((x : A) → test x ≡ true → R x (change x))
        → Evolves R xs (update_rows test change xs)
    unfolding update_rows
    Evolves-update_rows test change [] h = tt
    Evolves-update_rows test change (x ∷ xs) h = elim (Bool-cases (test x)) [
      | inl e ↦ rw e (h x e, Evolves-update_rows test change xs h)
      | inr e ↦ rw e (o.reflexive x, Evolves-update_rows test change xs h)
    ]

    -- The same where every changed row is known to pass a `CHECK`.
    pub Evolves-update_rows_checked :
        (P : A → Type 0) (test : A → Bool) (change : A → A) (xs : List A)
        → ((x : A) → test x ≡ true → P (change x) → R x (change x))
        → All P (update_rows test change xs)
        → Evolves R xs (update_rows test change xs)
    unfolding update_rows
    Evolves-update_rows_checked P test change [] h a = tt
    Evolves-update_rows_checked P test change (x ∷ xs) h a = elim (Bool-cases (test x)) [
      | inl e ↦ rw e (h x e (rw e at a.0), Evolves-update_rows_checked P test change xs h a.1)
      | inr e ↦ rw e (o.reflexive x, Evolves-update_rows_checked P test change xs h a.1)
    ]

  -- What some row satisfies, and `R` keeps, some row still satisfies.
  pub Any-Evolves :
      (R : A → A → Type 0) (P : A → Type 0)
      → ((x y : A) → R x y → P x → P y)
      → (xs ys : List A) → Evolves R xs ys
      → Any P xs
      → Any P ys
  Any-Evolves R P keep [] ys e a = absurd a
  Any-Evolves R P keep (x ∷ xs) [] e a = absurd e
  Any-Evolves R P keep (x ∷ xs) (y ∷ ys) e (inl p) = inl (keep x y e.0 p)
  Any-Evolves R P keep (x ∷ xs) (y ∷ ys) e (inr a) = inr (Any-Evolves R P keep xs ys e.1 a)
