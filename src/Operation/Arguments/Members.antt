-- ===== src/Operation/Arguments/Members.antt =====
-- The Boolean tests of texts and of members say what they mean.
use mathlib.Core.Path.{◌≡◌, refl, ap, sym}
use mathlib.Core.Logic.{inl, inr}
use mathlib.Core.Bool.{true}
use mathlib.Core.List.{List, [], ◌∷◌}
use agent_key_vault_jit_acce.Prelude.Tests.{Bool-cases, ◌==◌, ==→eq, and-eq-true}
use agent_key_vault_jit_acce.Prelude.Evolves.{All, Any}
use agent_key_vault_jit_acce.Operation.Text.{Text, text_eq, is_member}
use agent_key_vault_jit_acce.Operation.Arguments.{all_members}

pub text_eq→≡ : (xs ys : Text) → text_eq xs ys ≡ true → xs ≡ ys
unfolding text_eq
text_eq→≡ [] [] h = refl
text_eq→≡ [] (y ∷ ys) h = absurd (cc)
text_eq→≡ (x ∷ xs) [] h = absurd (cc)
text_eq→≡ (x ∷ xs) (y ∷ ys) h = elim (Bool-cases (x == y)) [
  | inl e ↦
      let rest : text_eq xs ys ≡ true = rw (e, text_eq) at h in
      rw (==→eq x y e) (ap (λ zs. y ∷ zs) (text_eq→≡ xs ys rest))
  | inr e ↦ absurd (cc (rw (e, text_eq) at h))
]

-- A text of the list.
abbrev pub IsIn : List Text → Text → Type 0
IsIn ts t = Any (λ u. u ≡ t) ts

pub is_member-IsIn : (t : Text) (ts : List Text) → is_member t ts ≡ true → IsIn ts t
unfolding is_member
is_member-IsIn t [] h = cc
is_member-IsIn t (u ∷ ts) h = elim (Bool-cases (text_eq t u)) [
  | inl e ↦ inl (sym (text_eq→≡ t u e))
  | inr e ↦ inr (is_member-IsIn t ts (rw (e, is_member) at h))
]

pub all_members-IsIn :
    (names known : List Text) → all_members names known ≡ true → All (IsIn known) names
unfolding all_members
all_members-IsIn [] known h = tt
all_members-IsIn (name ∷ names) known h =
    let (a, b) = and-eq-true (is_member name known) _ h in
    (is_member-IsIn name known a, all_members-IsIn names known b)
