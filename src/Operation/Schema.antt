-- ===== src/Operation/Schema.antt =====
-- internal/operation/schema.go: the public schema and its compilation. The schema document is given
-- as the strict JSON reader leaves it: the tree of its values, for the exact keys, and the decoded
-- struct. Numbers of the JSON `number` type are float64 values, whose operations are parameters.
use mathlib.Core.Bool.{Bool, true, false, not, ◌||◌}
use mathlib.Core.Option.{Option, none, some}
use mathlib.Core.List.{List, [], ◌∷◌}
use Prim.Native.Nat.{ℕ, ◌*◌}
use agent_key_vault_jit_acce.Prelude.Tests.{ltb, ◌==◌, is_some}
use agent_key_vault_jit_acce.Prelude.Int.{ℤ, pos, ltb_ℤ}
use agent_key_vault_jit_acce.Operation.Text.{Text, is_member, contains, byte_length}
use agent_key_vault_jit_acce.Operation.Outcome.{
  invalid_schema, Outcome, ok, invalid, ◌>>=◌, ◌>>◌, refuse_if, or_invalid,
}
use agent_key_vault_jit_acce.Operation.Literals.{is_integer_literal, parse_int}

abbrev pub max_document_size : ℕ
max_document_size = 64 * 1024

abbrev pub max_properties : ℕ
max_properties = 64

abbrev pub max_string_bytes : ℕ
max_string_bytes = 8 * 1024

-- float64: the exact reading of a literal (`exactFloat64`), the order, the zero that negative zero
-- becomes, and the shortest spelling (`strconv.FormatFloat`).
pub record Floats : Type 1 where
  pub Float : Type 0
  pub exact : Text → Option Float
  pub le : Float → Float → Bool
  pub positive_zero : Float → Float
  pub format : Float → Text

-- `ValueType`; `unsupported` is any string that is none of the constants.
pub data ValueType : Type 0 where
  string integer number boolean unsupported : ValueType

-- A nil `enum` is none.
pub record Property : Type 0 where
  pub value_type : ValueType
  pub enum : Option (List Text)
  pub minimum : Option Text
  pub maximum : Option Text
  pub max_length : Option ℤ

-- The decoded schema; nil maps, slices and pointers are none.
pub record Schema : Type 0 where
  pub schema_type : Text
  pub properties : Option (List (Text × Property))
  pub required : Option (List Text)
  pub additional_properties : Option Bool

-- No text is listed twice.
unfoldable pub has_duplicate : List Text → Bool
has_duplicate [] = false
has_duplicate (t ∷ ts) = is_member t ts || has_duplicate ts

unfoldable pub any_too_long : List Text → Bool
any_too_long [] = false
any_too_long (t ∷ ts) = ltb max_string_bytes (byte_length t) || any_too_long ts

abbrev is_empty_list : List Text → Bool
is_empty_list [] = true
is_empty_list (t ∷ ts) = false

-- The checks of an `enum`: none is fine, an empty one is not.
unfoldable pub enum_refused : Option (List Text) → Bool
enum_refused none = false
enum_refused (some ts) = is_empty_list ts || any_too_long ts || has_duplicate ts

abbrev length_refused : Option ℤ → Bool
length_refused none = false
length_refused (some n) = ltb_ℤ n (pos 0) || ltb_ℤ (pos max_string_bytes) n

unfoldable pub parse_integer_bound : Option Text → Outcome (Option ℤ)
parse_integer_bound none = ok none
parse_integer_bound (some t) = do
  refuse_if (not (is_integer_literal t)) invalid_schema
  value ← or_invalid (parse_int t) invalid_schema
  ok (some value)

abbrev exceeds : Option ℤ → Option ℤ → Bool
exceeds (some lo) (some hi) = ltb_ℤ hi lo
exceeds _ _ = false

module _ (F : Floats) where
  open F use {Float, exact, le}

  pub record CompiledProperty : Type 0 where
    pub definition : Property
    pub minimum : Option Float
    pub maximum : Option Float
    pub minimum_int : Option ℤ
    pub maximum_int : Option ℤ

  unfoldable pub parse_number_bound : Option Text → Outcome (Option Float)
  parse_number_bound none = ok none
  parse_number_bound (some t) = do value ← or_invalid (exact t) invalid_schema; ok (some value)

  abbrev float_exceeds : Option Float → Option Float → Bool
  float_exceeds (some lo) (some hi) = not (le lo hi)
  float_exceeds _ _ = false

  abbrev plain : Property → CompiledProperty
  plain p = record {
    definition = p;
    minimum = none;
    maximum = none;
    minimum_int = none;
    maximum_int = none;
  }

  validate_typed : ValueType → Property → Outcome CompiledProperty
  validate_typed ValueType.string p = do
    refuse_if (is_some p.minimum || is_some p.maximum) invalid_schema
    refuse_if (length_refused p.max_length) invalid_schema
    refuse_if (enum_refused p.enum) invalid_schema
    ok (plain p)
  validate_typed ValueType.integer p = do
    refuse_if (is_some p.enum || is_some p.max_length) invalid_schema
    lo ← parse_integer_bound p.minimum
    hi ← parse_integer_bound p.maximum
    refuse_if (exceeds lo hi) invalid_schema
    ok (record {
      definition = p;
      minimum = none;
      maximum = none;
      minimum_int = lo;
      maximum_int = hi;
    })
  validate_typed ValueType.number p = do
    refuse_if (is_some p.enum || is_some p.max_length) invalid_schema
    lo ← parse_number_bound p.minimum
    hi ← parse_number_bound p.maximum
    refuse_if (float_exceeds lo hi) invalid_schema
    ok (record {
      definition = p;
      minimum = lo;
      maximum = hi;
      minimum_int = none;
      maximum_int = none;
    })
  validate_typed ValueType.boolean p = do
    refuse_if (is_some p.enum || is_some p.minimum || is_some p.maximum || is_some p.max_length)
        invalid_schema
    ok (plain p)
  validate_typed ValueType.unsupported p = invalid invalid_schema

  unfoldable pub validate_property : Property → Outcome CompiledProperty
  unfolding validate_typed
  validate_property p = validate_typed p.value_type p

  pub record CompiledSchema : Type 0 where
    pub properties : List (Text × CompiledProperty)
    pub required : List Text

  name_refused : Text → Bool
  name_refused name = byte_length name == 0 || ltb 256 (byte_length name) || contains 0 name

  -- The loop over the properties.
  unfoldable pub compile_properties :
      List (Text × Property) → Outcome (List (Text × CompiledProperty))
  unfolding name_refused
  compile_properties [] = ok []
  compile_properties ((name, property) ∷ rest) = do
    refuse_if (name_refused name) invalid_schema
    compiled ← validate_property property
    others ← compile_properties rest
    ok ((name, compiled) ∷ others)

abbrev pub names_of {ℓ} : {A : Type ℓ} → List (Text × A) → List Text
names_of [] = []
names_of ((name, a) ∷ rest) = name ∷ names_of rest

-- The loop over `required`: known properties, each once.
unfoldable pub check_required : List Text → List Text → List Text → Outcome (List Text)
check_required known seen [] = ok seen
check_required known seen (name ∷ names) = do
  refuse_if (is_member name seen) invalid_schema
  refuse_if (not (is_member name known)) invalid_schema
  check_required known (name ∷ seen) names
