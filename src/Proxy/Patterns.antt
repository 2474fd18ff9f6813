-- ===== src/Proxy/Patterns.antt =====
-- What a redactor looks for.
use mathlib.Core.Logic.{inl, inr}
use mathlib.Core.Bool.{◌||◌}
use mathlib.Core.List.{List, [], ◌∷◌, ◌++◌}
use Prim.Native.Nat.{◌≤◌}
use native.Mathlib.Omega.{arith}
use agent_key_vault_jit_acce.Prelude.Tests.{ltb, Bool-cases, or-eq-false}
use agent_key_vault_jit_acce.Prelude.Rows.{length, any_row, bytes_eq}
use agent_key_vault_jit_acce.Prelude.Evolves.{All, All-map}
use agent_key_vault_jit_acce.Domain.Values.{Bytes}
use agent_key_vault_jit_acce.Proxy.Redactor.{
  Encodings, shortest_pattern, add, add_each, add_values, insert_longest, sort_longest,
  new_redactor,
}

-- Long enough to tell nothing of the rest.
abbrev pub AllLong : List Bytes → Type 0
AllLong = All (λ p. shortest_pattern ≤ length p)

-- No pattern comes before a longer one.
abbrev pub LongestFirst : List Bytes → Type 0
LongestFirst [] = Unit {0}
LongestFirst (p ∷ ps) = All (λ q. length q ≤ length p) ps × LongestFirst ps

AllLong-snoc :
    (ps : List Bytes) (p : Bytes)
    → AllLong ps
    → shortest_pattern ≤ length p
    → AllLong (ps ++ (p ∷ []))
AllLong-snoc [] p h k = (k, tt)
AllLong-snoc (q ∷ qs) p h k = (h.0, AllLong-snoc qs p h.1 k)

add-AllLong : (p : Bytes) (ps : List Bytes) → AllLong ps → AllLong (add p ps)
unfolding add
add-AllLong p ps h =
    elim (Bool-cases (ltb (length p) shortest_pattern || any_row (λ q. bytes_eq q p) ps)) [
      | inl e ↦ rw e h
      | inr e ↦ rw e (
          AllLong-snoc ps p h
            (let long = (or-eq-false (ltb (length p) shortest_pattern) _ e).0 in ground arith))
    ]

add_each-AllLong : (new ps : List Bytes) → AllLong ps → AllLong (add_each new ps)
unfolding add_each
add_each-AllLong [] ps h = h
add_each-AllLong (p ∷ new) ps h = add_each-AllLong new (add p ps) (add-AllLong p ps h)

add_values-AllLong :
    (e : Encodings) (values : List (Bytes × Bytes)) (ps : List Bytes)
    → AllLong ps
    → AllLong (add_values e values ps)
unfolding add_values
add_values-AllLong e [] ps h = h
add_values-AllLong e ((name, secret) ∷ rest) ps h =
    add_values-AllLong e rest _ (add_each-AllLong _ ps h)

module _ (P : Bytes → Type 0) where
  insert_longest-All : (p : Bytes) (ps : List Bytes) → P p → All P ps → All P (insert_longest p ps)
  unfolding insert_longest
  insert_longest-All p [] h k = (h, tt)
  insert_longest-All p (q ∷ qs) h k = elim (Bool-cases (ltb (length p) (length q))) [
    | inl e ↦ rw e (k.0, insert_longest-All p qs h k.1)
    | inr e ↦ rw e (h, k)
  ]

  sort_longest-All : (ps : List Bytes) → All P ps → All P (sort_longest ps)
  unfolding sort_longest
  sort_longest-All [] h = tt
  sort_longest-All (p ∷ ps) h = insert_longest-All p _ h.0 (sort_longest-All ps h.1)

insert_longest-LongestFirst :
    (p : Bytes) (ps : List Bytes) → LongestFirst ps → LongestFirst (insert_longest p ps)
unfolding insert_longest
insert_longest-LongestFirst p [] h = (tt, tt)
insert_longest-LongestFirst p (q ∷ qs) h = elim (Bool-cases (ltb (length p) (length q))) [
  | inl e ↦ rw e (
    insert_longest-All (λ r. length r ≤ length q) p qs (ground arith) h.0,
    insert_longest-LongestFirst p qs h.1,
  )
  | inr e ↦
      let longer : length q ≤ length p = ground arith in
      rw e ((longer, All-map _ _ (λ r k. (ground arith)) qs h.0), h)
]

sort_longest-LongestFirst : (ps : List Bytes) → LongestFirst (sort_longest ps)
unfolding sort_longest
sort_longest-LongestFirst [] = tt
sort_longest-LongestFirst (p ∷ ps) = insert_longest-LongestFirst p _ (sort_longest-LongestFirst ps)

-- A redactor, of whatever values and encodings, looks for no pattern shorter than four bytes, and for
-- no pattern before a longer one.
pub new_redactor-patterns :
    (e : Encodings) (values : List (Bytes × Bytes))
    → AllLong (new_redactor e values) × LongestFirst (new_redactor e values)
unfolding new_redactor
new_redactor-patterns e values = (
  sort_longest-All _ _ (add_each-AllLong _ _ (add_values-AllLong e values [] tt)),
  sort_longest-LongestFirst _,
)
