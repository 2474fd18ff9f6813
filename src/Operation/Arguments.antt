-- ===== src/Operation/Arguments.antt =====
-- internal/operation/schema.go: the Agent's arguments against a compiled schema.
pub mod Typed
pub mod Nulls
pub mod Members
use mathlib.Core.Bool.{Bool, true, false, not, ◌&&◌, ◌||◌}
use mathlib.Core.Option.{Option, none, some}
use mathlib.Core.List.{List, [], ◌∷◌}
use agent_key_vault_jit_acce.Prelude.Tests.{ltb, if◌then◌else◌}
use agent_key_vault_jit_acce.Prelude.Rows.{length}
use agent_key_vault_jit_acce.Prelude.Int.{ℤ, pos, ltb_ℤ}
use agent_key_vault_jit_acce.Operation.Text.{Text, text_eq, is_member, byte_length}
use agent_key_vault_jit_acce.Operation.Outcome.{
  invalid_schema, invalid_arguments, Outcome, ok, invalid, ◌>>=◌, ◌>>◌, refuse_if, or_invalid,
}
use agent_key_vault_jit_acce.Operation.Literals.{is_integer_literal, parse_int}
use agent_key_vault_jit_acce.Operation.Schema.{
  Floats, ValueType, CompiledProperty, CompiledSchema, max_string_bytes, max_document_size,
  names_of,
}

-- A JSON document as `readJSONValue` returns it; a number keeps its literal.
mutual
  pub data Json : Type 0 where
    null : Json
    boolean : Bool → Json
    number : Text → Json
    string : Text → Json
    array : Items → Json
    object : Fields → Json

  pub data Items : Type 0 where
    nil : Items
    item : Json → Items → Items

  pub data Fields : Type 0 where
    end : Fields
    field : Text → Json → Fields → Fields

-- `hasNull`
unfoldable mutual
  pub has_null : Json → Bool
  has_null null = true
  has_null (boolean b) = false
  has_null (number t) = false
  has_null (string t) = false
  has_null (array xs) = items_have_null xs
  has_null (object fs) = fields_have_null fs

  pub items_have_null : Items → Bool
  items_have_null nil = false
  items_have_null (item x xs) = has_null x || items_have_null xs

  pub fields_have_null : Fields → Bool
  fields_have_null end = false
  fields_have_null (field k x fs) = has_null x || fields_have_null fs

unfoldable pub find_named {ℓ} : {A : Type ℓ} → Text → List (Text × A) → Option A
find_named name [] = none
find_named name ((k, a) ∷ rest) = if text_eq name k then some a else find_named name rest

abbrev pub fields_list : Fields → List (Text × Json)
fields_list end = []
fields_list (field k x fs) = (k, x) ∷ fields_list fs

unfoldable pub all_members : List Text → List Text → Bool
all_members [] known = true
all_members (name ∷ names) known = is_member name known && all_members names known

abbrev pub longer_than : Text → Option ℤ → Bool
longer_than t none = false
longer_than t (some n) = ltb_ℤ n (pos (length t))

abbrev pub not_listed : Text → Option (List Text) → Bool
not_listed t none = false
not_listed t (some ts) = not (is_member t ts)

abbrev pub below_minimum : ℤ → Option ℤ → Bool
below_minimum n none = false
below_minimum n (some lo) = ltb_ℤ n lo

abbrev pub above_maximum : ℤ → Option ℤ → Bool
above_maximum n none = false
above_maximum n (some hi) = ltb_ℤ hi n

module _ (F : Floats) where
  open F use {Float, exact, le, positive_zero}

  -- A typed argument: what `any` holds after validation.
  pub data Value : Type 0 where
    text_value : Text → Value
    int_value : ℤ → Value
    float_value : Float → Value
    bool_value : Bool → Value

  unfoldable pub within_bounds : Float → Option Float → Option Float → Bool
  within_bounds x none none = true
  within_bounds x (some lo) none = le lo x
  within_bounds x none (some hi) = le x hi
  within_bounds x (some lo) (some hi) = le lo x && le x hi

  unfoldable pub validate_typed : ValueType → CompiledProperty F → Json → Outcome Value
  validate_typed ValueType.string p (string t) = do
    refuse_if (ltb max_string_bytes (byte_length t)) invalid_arguments
    refuse_if (longer_than t p.definition.max_length) invalid_arguments
    refuse_if (not_listed t p.definition.enum) invalid_arguments
    ok (text_value t)
  validate_typed ValueType.integer p (number t) = do
    refuse_if (not (is_integer_literal t)) invalid_arguments
    value ← or_invalid (parse_int t) invalid_arguments
    refuse_if (below_minimum value p.minimum_int || above_maximum value p.maximum_int)
        invalid_arguments
    ok (int_value value)
  validate_typed ValueType.number p (number t) = do
    value ← or_invalid (exact t) invalid_arguments
    refuse_if (not (within_bounds value p.minimum p.maximum)) invalid_arguments
    ok (float_value (positive_zero value))
  validate_typed ValueType.boolean p (boolean b) = ok (bool_value b)
  validate_typed ValueType.unsupported p json = invalid invalid_schema
  validate_typed _ p json = invalid invalid_arguments

  unfoldable pub validate_value : CompiledProperty F → Json → Outcome Value
  unfolding validate_typed
  validate_value p json = validate_typed p.definition.value_type p json

  -- The loop that types the arguments.
  unfoldable pub validate_each :
      CompiledSchema F → List (Text × Json) → Outcome (List (Text × Value))
  validate_each schema [] = ok []
  validate_each schema ((name, json) ∷ rest) = do
    property ← or_invalid (find_named name schema.properties) invalid_arguments
    value ← validate_value property json
    others ← validate_each schema rest
    ok ((name, value) ∷ others)

  -- `json.Marshal` of the typed arguments is a parameter.
  unfoldable pub validate_object :
      (List (Text × Value) → Text)
      → CompiledSchema F
      → Fields
      → Outcome (List (Text × Value) × Text)
  validate_object marshal schema fs = do
    refuse_if (fields_have_null fs) invalid_arguments
    refuse_if (not (all_members (names_of (fields_list fs)) (names_of schema.properties)))
        invalid_arguments
    refuse_if (not (all_members schema.required (names_of (fields_list fs)))) invalid_arguments
    typed ← validate_each schema (fields_list fs)
    refuse_if (ltb max_document_size (byte_length (marshal typed))) invalid_arguments
    ok (typed, marshal typed)

  unfoldable pub validate_arguments :
      (List (Text × Value) → Text) → CompiledSchema F → Json → Outcome (List (Text × Value) × Text)
  validate_arguments marshal schema (object fs) = validate_object marshal schema fs
  validate_arguments marshal schema json = invalid invalid_arguments
