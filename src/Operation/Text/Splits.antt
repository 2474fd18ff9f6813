-- ===== src/Operation/Text/Splits.antt =====
-- Splitting at a separator undoes joining with it.
use mathlib.Core.Path.{◌≡◌, refl, ap, ◌∙◌}
use mathlib.Core.Logic.{inl, inr}
use mathlib.Core.Bool.{true, false}
use mathlib.Core.List.{List, [], ◌∷◌, ◌++◌}
use Prim.Native.Nat.{ℕ, ◌/◌, ◌%◌}
use native.Mathlib.Omega.{arith}
use agent_key_vault_jit_acce.Prelude.Tests.{Bool-cases, ◌==◌, ==_refl, ==→eq}
use agent_key_vault_jit_acce.Prelude.Evolves.{All}
use agent_key_vault_jit_acce.Operation.Text.{
  Text, split, join, escape_bytes, hex, escapes, contains, utf8, path_escape,
}

-- The separator is not in the text.
abbrev pub Lacks : ℕ → Text → Type 0
Lacks sep t = All (λ c. (c == sep) ≡ false) t

pub Lacks-append : (sep : ℕ) (s t : Text) → Lacks sep s → Lacks sep t → Lacks sep (s ++ t)
Lacks-append sep [] t a b = b
Lacks-append sep (c ∷ s) t a b = (a.0, Lacks-append sep s t a.1 b)

module _ (sep : ℕ) where
  pub split-cons : (t : Text) → (part : Text) × (parts : List Text) × (split sep t ≡ part ∷ parts)
  unfolding split
  split-cons [] = ([], [], refl)
  split-cons (c ∷ cs) =
      let (part, parts, e) = split-cons cs in
      elim (Bool-cases (c == sep)) [
        | inl t ↦ ([], part ∷ parts, rw (e, t) refl)
        | inr t ↦ (c ∷ part, parts, rw (e, t) refl)
      ]

  split-lacking : (t : Text) → Lacks sep t → split sep t ≡ t ∷ []
  unfolding split
  split-lacking [] a = refl
  split-lacking (c ∷ cs) a = rw (split-lacking cs a.1, a.0) refl

  split-append :
      (part rest : Text) → Lacks sep part → split sep (part ++ (sep ∷ rest)) ≡ part ∷ split sep rest
  unfolding split
  split-append [] rest a = let (p, ps, e) = split-cons rest in rw (e, ==_refl sep) refl
  split-append (c ∷ part) rest a = rw (split-append part rest a.1, a.0) refl

  -- The parts come back, if there is one and none holds the separator.
  pub split-join :
      (part : Text) (parts : List Text)
      → All (Lacks sep) (part ∷ parts)
      → split sep (join sep (part ∷ parts)) ≡ part ∷ parts
  unfolding join
  split-join part [] a = split-lacking part a.0
  split-join part (next ∷ parts) a =
      split-append part _ a.0 ∙ ap (λ ps. part ∷ ps) (split-join next parts a.1)

  -- What a split gives holds no separator.
  pub split-Lacks : (t : Text) → All (Lacks sep) (split sep t)
  unfolding split
  split-Lacks [] = (tt, tt)
  split-Lacks (c ∷ cs) =
      let (part, parts, e) = split-cons cs in
      let known : All (Lacks sep) (part ∷ parts) = rw e at (split-Lacks cs) in
      elim (Bool-cases (c == sep)) [
        | inl t ↦ rw (e, t) (tt, known)
        | inr t ↦ rw (e, t) ((t, known.0), known.1)
      ]

escapes_slash : escapes b'/' ≡ true
unfolding escapes contains
escapes_slash = refl

slash_escaped : (b : ℕ) → escapes b ≡ false → (b == b'/') ≡ false
slash_escaped b h = elim (Bool-cases (b == b'/')) [
  | inl e ↦ absurd (cc (rw (==→eq b b'/' e, escapes_slash) at h))
  | inr e ↦ e
]

hex-Lacks : (d : ℕ) → (hex d == b'/') ≡ false
hex-Lacks d = ground arith

escape_bytes-Lacks : (bs : List ℕ) → Lacks b'/' (escape_bytes bs)
unfolding escape_bytes
escape_bytes-Lacks [] = tt
escape_bytes-Lacks (b ∷ bs) = elim (Bool-cases (escapes b)) [
  | inl e ↦ rw e (refl, (hex-Lacks (b / 16), (hex-Lacks (b % 16), escape_bytes-Lacks bs)))
  | inr e ↦ rw e (slash_escaped b e, escape_bytes-Lacks bs)
]

-- An escaped text holds no slash.
pub path_escape-Lacks : (t : Text) → Lacks b'/' (path_escape t)
unfolding path_escape
path_escape-Lacks [] = tt
path_escape-Lacks (c ∷ cs) =
    Lacks-append b'/' (escape_bytes (utf8 c)) (path_escape cs) (escape_bytes-Lacks (utf8 c))
      (path_escape-Lacks cs)
