-- ===== src/Examples/Inputs.antt =====
-- Runs of the theorems of arguments on a schema with a required string and an integer.
use mathlib.Core.Path.{◌≡◌, refl}
use mathlib.Core.Option.{none, some}
use mathlib.Core.List.{List, [], ◌∷◌}
use Prim.Native.Nat.{ℕ, ◌≤◌}
use agent_key_vault_jit_acce.Prelude.Tests.{leb}
use agent_key_vault_jit_acce.Prelude.Int.{pos}
use agent_key_vault_jit_acce.Operation.Text.{Text, codes, text_eq, is_member, byte_length}
use agent_key_vault_jit_acce.Operation.Outcome.{ok}
use agent_key_vault_jit_acce.Operation.Literals.{
  all_digits, is_positive_literal, drop_minus, is_integer_literal, digits_value, signed, parse_int,
}
use agent_key_vault_jit_acce.Operation.Schema.{
  Floats, ValueType, CompiledProperty, CompiledSchema, max_document_size, names_of,
}
use agent_key_vault_jit_acce.Operation.Arguments.{
  number, string, Fields, end, field, fields_list, has_null, items_have_null, fields_have_null,
  Value, text_value, int_value, find_named, all_members, validate_typed, validate_value,
  validate_each, validate_object,
}
use agent_key_vault_jit_acce.Operation.Arguments.Typed.{AllTyped, validate_object-AllTyped}
use agent_key_vault_jit_acce.Prelude.Evolves.{All}
use agent_key_vault_jit_acce.Operation.Arguments.Nulls.{FieldsNullFree}
use agent_key_vault_jit_acce.Operation.Arguments.Members.{IsIn}

-- Whole numbers stand for float64.
abbrev floats : Floats
floats = record { Float = ℕ; exact = λ t. none; le = leb; positive_zero = λ x. x; format = λ x. [] }

abbrev name_property : CompiledProperty floats
name_property = record {
  definition = record {
    value_type = ValueType.string;
    enum = none;
    minimum = none;
    maximum = none;
    max_length = some (pos 5);
  };
  minimum = none;
  maximum = none;
  minimum_int = none;
  maximum_int = none;
}

abbrev count_property : CompiledProperty floats
count_property = record {
  definition = record {
    value_type = ValueType.integer;
    enum = none;
    minimum = some (codes "1");
    maximum = some (codes "20");
    max_length = none;
  };
  minimum = none;
  maximum = none;
  minimum_int = some (pos 1);
  maximum_int = some (pos 20);
}

abbrev schema : CompiledSchema floats
schema = record {
  properties = (codes "name", name_property) ∷ (codes "count", count_property) ∷ [];
  required = codes "name" ∷ [];
}

abbrev document : Fields
document =
    field (codes "count") (number (codes "12")) (field (codes "name") (string (codes "ab")) end)

abbrev values : List (Text × Value floats)
values = (codes "count", int_value (pos 12)) ∷ (codes "name", text_value (codes "ab")) ∷ []

abbrev encoded : Text
encoded = codes "{}"

accepted : validate_object floats (λ v. encoded) schema document ≡ ok (values, encoded)
unfolding validate_object validate_each validate_value validate_typed all_members is_member text_eq
    fields_have_null has_null items_have_null find_named byte_length is_integer_literal
    is_positive_literal drop_minus all_digits parse_int digits_value signed
accepted = refl

validate_object-AllTyped_example :
    FieldsNullFree document
    × All (IsIn (names_of schema.properties)) (names_of (fields_list document))
    × All (IsIn (names_of (fields_list document))) schema.required
    × AllTyped floats schema (fields_list document) values
    × (encoded ≡ encoded)
    × (byte_length encoded ≤ max_document_size)
validate_object-AllTyped_example =
    validate_object-AllTyped floats (λ v. encoded) schema document values encoded accepted
