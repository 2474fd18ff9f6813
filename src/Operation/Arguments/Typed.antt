-- ===== src/Operation/Arguments/Typed.antt =====
-- What validated arguments are.
use mathlib.Core.Path.{◌≡◌, refl}
use mathlib.Core.Bool.{Bool, true, false, not}
use mathlib.Core.Option.{Option, none, some}
use mathlib.Core.List.{List, [], ◌∷◌}
use Prim.Native.Nat.{ℕ, ◌≤◌}
use native.Mathlib.Omega.{arith}
use agent_key_vault_jit_acce.Prelude.Tests.{ltb, or-eq-false, and-eq-true}
use agent_key_vault_jit_acce.Prelude.Rows.{length}
use agent_key_vault_jit_acce.Prelude.Int.{ℤ, pos, ◌≤ℤ◌}
use agent_key_vault_jit_acce.Prelude.Evolves.{All}
use agent_key_vault_jit_acce.Operation.Text.{Text, byte_length}
use agent_key_vault_jit_acce.Operation.Outcome.{
  ok, invalid_arguments, >>=-ok, refuse_if-ok, or_invalid-ok, carries,
}
use agent_key_vault_jit_acce.Operation.Literals.{is_integer_literal, parse_int}
use agent_key_vault_jit_acce.Operation.Schema.{
  Floats, ValueType, CompiledProperty, CompiledSchema, max_string_bytes, max_document_size,
  names_of,
}
use agent_key_vault_jit_acce.Operation.Arguments.{
  Json, boolean, number, string, Fields, fields_list, Value, text_value, int_value, float_value,
  bool_value, find_named, longer_than, not_listed, below_minimum, above_maximum, within_bounds,
  validate_value, validate_typed, validate_each, validate_object,
}
use agent_key_vault_jit_acce.Operation.Arguments.Nulls.{
  FieldsNullFree, fields_have_null-FieldsNullFree,
}
use agent_key_vault_jit_acce.Operation.Arguments.Members.{IsIn, is_member-IsIn, all_members-IsIn}

not-true : (b : Bool) → not b ≡ false → b ≡ true
not-true b h = ground arith

not-ltb : (a b : ℕ) → ltb a b ≡ false → b ≤ a
not-ltb a b h = ground arith

-- The limits of a property; without one there is none.
abbrev pub IsNoLonger : Option ℤ → Text → Type 0
IsNoLonger none t = Unit
IsNoLonger (some n) t = pos (length t) ≤ℤ n

abbrev pub IsListed : Option (List Text) → Text → Type 0
IsListed none t = Unit
IsListed (some ts) t = IsIn ts t

abbrev pub IsAtLeast : Option ℤ → ℤ → Type 0
IsAtLeast none n = Unit
IsAtLeast (some lo) n = lo ≤ℤ n

abbrev pub IsAtMost : Option ℤ → ℤ → Type 0
IsAtMost none n = Unit
IsAtMost (some hi) n = n ≤ℤ hi

longer_than-IsNoLonger : (t : Text) (o : Option ℤ) → longer_than t o ≡ false → IsNoLonger o t
longer_than-IsNoLonger t none h = tt
longer_than-IsNoLonger t (some n) h = not-ltb _ _ h

not_listed-IsListed : (t : Text) (o : Option (List Text)) → not_listed t o ≡ false → IsListed o t
not_listed-IsListed t none h = tt
not_listed-IsListed t (some ts) h = is_member-IsIn t ts (not-true _ h)

below_minimum-IsAtLeast : (n : ℤ) (o : Option ℤ) → below_minimum n o ≡ false → IsAtLeast o n
below_minimum-IsAtLeast n none h = tt
below_minimum-IsAtLeast n (some lo) h = not-ltb _ _ h

above_maximum-IsAtMost : (n : ℤ) (o : Option ℤ) → above_maximum n o ≡ false → IsAtMost o n
above_maximum-IsAtMost n none h = tt
above_maximum-IsAtMost n (some hi) h = not-ltb _ _ h

module _ (F : Floats) where
  open F use {Float, positive_zero}

  -- What `le` says of a value and a bound.
  abbrev pub FloatAtLeast : Option Float → Float → Type 0
  FloatAtLeast none x = Unit
  FloatAtLeast (some lo) x = F.le lo x ≡ true

  abbrev pub FloatAtMost : Option Float → Float → Type 0
  FloatAtMost none x = Unit
  FloatAtMost (some hi) x = F.le x hi ≡ true

  within_bounds-both :
      (x : Float) (lo hi : Option Float)
      → within_bounds F x lo hi ≡ true
      → FloatAtLeast lo x × FloatAtMost hi x
  unfolding within_bounds
  within_bounds-both x none none h = (tt, tt)
  within_bounds-both x (some lo) none h = (h, tt)
  within_bounds-both x none (some hi) h = (tt, h)
  within_bounds-both x (some lo) (some hi) h = and-eq-true _ _ h

  -- The value of a JSON value, of the type of its property and within its limits.
  abbrev pub Typed : CompiledProperty F → Json → Value F → Type 0
  Typed p (string t) (text_value u) =
      (p.definition.value_type ≡ ValueType.string)
      × (u ≡ t)
      × (byte_length t ≤ max_string_bytes)
      × IsNoLonger p.definition.max_length t
      × IsListed p.definition.enum t
  Typed p (number t) (int_value n) =
      (p.definition.value_type ≡ ValueType.integer)
      × (is_integer_literal t ≡ true)
      × (parse_int t ≡ some n)
      × IsAtLeast p.minimum_int n
      × IsAtMost p.maximum_int n
  Typed p (number t) (float_value x) =
      (p.definition.value_type ≡ ValueType.number)
      × (y : Float) × (F.exact t ≡ some y)
      × (x ≡ positive_zero y)
      × FloatAtLeast p.minimum y
      × FloatAtMost p.maximum y
  Typed p (boolean b) (bool_value c) = (p.definition.value_type ≡ ValueType.boolean) × (c ≡ b)
  Typed p _ _ = ⊥

  abbrev Pair : Type 0
  Pair = List (Text × Value F) × Text

  validate_typed-Typed :
      (type : ValueType) (p : CompiledProperty F) (json : Json) (v : Value F)
      → p.definition.value_type ≡ type
      → validate_typed F type p json ≡ ok v
      → Typed p json v
  unfolding validate_typed
  validate_typed-Typed ValueType.string p (string t) v e h =
      let (b, h₁) = refuse_if-ok _ invalid_arguments _ h in
      let (c, h₂) = refuse_if-ok _ invalid_arguments _ h₁ in
      let (d, h₃) = refuse_if-ok _ invalid_arguments _ h₂ in
      carries (Typed p (string t)) {x = text_value t} h₃ (
        e,
        refl,
        not-ltb _ _ b,
        longer_than-IsNoLonger t p.definition.max_length c,
        not_listed-IsListed t p.definition.enum d,
      )
  validate_typed-Typed ValueType.integer p (number t) v e h =
      let (b, h₁) = refuse_if-ok _ invalid_arguments _ h in
      let (n, found, h₂) = or_invalid-ok (parse_int t) invalid_arguments _ h₁ in
      let (c, h₃) = refuse_if-ok _ invalid_arguments _ h₂ in
      let (lo, hi) = or-eq-false (below_minimum n p.minimum_int) _ c in
      carries (Typed p (number t)) {x = int_value n} h₃ (
        e,
        not-true _ b,
        found,
        below_minimum-IsAtLeast n p.minimum_int lo,
        above_maximum-IsAtMost n p.maximum_int hi,
      )
  validate_typed-Typed ValueType.number p (number t) v e h =
      let (x, found, h₁) = or_invalid-ok (F.exact t) invalid_arguments _ h in
      let (c, h₂) = refuse_if-ok _ invalid_arguments _ h₁ in
      let (lo, hi) = within_bounds-both x p.minimum p.maximum (not-true _ c) in
      carries (Typed p (number t)) {x = float_value (positive_zero x)} h₂
        (e, x, found, refl, lo, hi)
  validate_typed-Typed ValueType.boolean p (boolean b) v e h =
      carries (Typed p (boolean b)) {x = bool_value b} h (e, refl)
  validate_typed-Typed _ p json v e h = absurd (cc)

  -- The typed arguments have the names of the document, and each is typed by its property.
  abbrev pub AllTyped : CompiledSchema F → List (Text × Json) → List (Text × Value F) → Type 0
  AllTyped schema [] [] = Unit
  AllTyped schema ((name, json) ∷ given) ((typed_name, v) ∷ typed) =
      ((typed_name ≡ name)
        × (p : CompiledProperty F) × (find_named name schema.properties ≡ some p)
        × Typed p json v)
      × AllTyped schema given typed
  AllTyped schema _ _ = ⊥

  validate_value-Typed :
      (p : CompiledProperty F) (json : Json) (v : Value F)
      → validate_value F p json ≡ ok v
      → Typed p json v
  unfolding validate_value
  validate_value-Typed p json v h = validate_typed-Typed p.definition.value_type p json v refl h

  validate_each-AllTyped :
      (schema : CompiledSchema F) (given : List (Text × Json)) (typed : List (Text × Value F))
      → validate_each F schema given ≡ ok typed
      → AllTyped schema given typed
  unfolding validate_each
  validate_each-AllTyped schema [] typed h = carries (AllTyped schema []) {x = []} h tt
  validate_each-AllTyped schema ((name, json) ∷ given) typed h =
      let (p, found, h₁) =
        or_invalid-ok (find_named name schema.properties) invalid_arguments _ h in
      let (v, one, h₂) = >>=-ok (validate_value F p json) _ h₁ in
      let (others, rest, h₃) = >>=-ok (validate_each F schema given) _ h₂ in
      carries (AllTyped schema ((name, json) ∷ given)) {x = (name, v) ∷ others} h₃ (
        (refl, p, found, validate_value-Typed p json v one),
        validate_each-AllTyped schema given others rest,
      )

  -- Arguments that are accepted have no null anywhere in them, only declared names, and all the
  -- required ones. Each is given the value of its JSON value, of the type of its property, within
  -- its length, its list or its bounds. Their encoding is that of these values, at most 64 KiB long.
  pub validate_object-AllTyped :
      (marshal : List (Text × Value F) → Text) (schema : CompiledSchema F) (fs : Fields)
      (typed : List (Text × Value F)) (encoded : Text)
      → validate_object F marshal schema fs ≡ ok (typed, encoded)
      → FieldsNullFree fs
        × All (IsIn (names_of schema.properties)) (names_of (fields_list fs))
        × All (IsIn (names_of (fields_list fs))) schema.required
        × AllTyped schema (fields_list fs) typed
        × (encoded ≡ marshal typed)
        × (byte_length encoded ≤ max_document_size)
  unfolding validate_object
  validate_object-AllTyped marshal schema fs typed encoded h =
      let (no_null, h₁) = refuse_if-ok _ invalid_arguments _ h in
      let (known, h₂) = refuse_if-ok _ invalid_arguments _ h₁ in
      let (complete, h₃) = refuse_if-ok _ invalid_arguments _ h₂ in
      let (values, each, h₄) = >>=-ok (validate_each F schema (fields_list fs)) _ h₃ in
      let (size, h₅) = refuse_if-ok _ invalid_arguments _ h₄ in
      let result : Pair = (typed, encoded) in
      let (fits, same, small) =
        carries
          (λ (r : Pair).
            AllTyped schema (fields_list fs) r.0
            × (r.1 ≡ marshal r.0)
            × (byte_length r.1 ≤ max_document_size))
          {x = (values, marshal values)} {y = result} h₅
          (validate_each-AllTyped schema (fields_list fs) values each, refl, not-ltb _ _ size) in
      (
        fields_have_null-FieldsNullFree fs no_null,
        all_members-IsIn _ _ (not-true _ known),
        all_members-IsIn _ _ (not-true _ complete),
        fits,
        same,
        small,
      )
