-- ===== src/Prelude/Same.antt =====
-- The Boolean equality of byte strings is equality.
use mathlib.Core.Path.{◌≡◌, refl, ap}
use mathlib.Core.Logic.{inl, inr}
use mathlib.Core.Bool.{true}
use mathlib.Core.List.{List, [], ◌∷◌}
use Prim.Native.Nat.{ℕ}
use agent_key_vault_jit_acce.Prelude.Tests.{Bool-cases, ◌==◌, ==→eq, ==_refl}
use agent_key_vault_jit_acce.Prelude.Rows.{bytes_eq}

pub bytes_eq→≡ : (xs ys : List ℕ) → bytes_eq xs ys ≡ true → xs ≡ ys
unfolding bytes_eq
bytes_eq→≡ [] [] h = refl
bytes_eq→≡ [] (y ∷ ys) h = absurd (cc)
bytes_eq→≡ (x ∷ xs) [] h = absurd (cc)
bytes_eq→≡ (x ∷ xs) (y ∷ ys) h = elim (Bool-cases (x == y)) [
  | inl e ↦
      let rest : bytes_eq xs ys ≡ true = rw (e, bytes_eq) at h in
      rw (==→eq x y e) (ap (λ zs. y ∷ zs) (bytes_eq→≡ xs ys rest))
  | inr e ↦ absurd (cc (rw (e, bytes_eq) at h))
]

pub bytes_eq_refl : (xs : List ℕ) → bytes_eq xs xs ≡ true
unfolding bytes_eq
bytes_eq_refl [] = refl
bytes_eq_refl (x ∷ xs) = rw (bytes_eq, ==_refl x) (bytes_eq_refl xs)
