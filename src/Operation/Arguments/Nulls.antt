-- ===== src/Operation/Arguments/Nulls.antt =====
-- Documents with no null anywhere in them.
use mathlib.Core.Path.{◌≡◌}
use mathlib.Core.Bool.{Bool, false}
use agent_key_vault_jit_acce.Prelude.Tests.{or-eq-false}
use agent_key_vault_jit_acce.Operation.Text.{Text}
use agent_key_vault_jit_acce.Operation.Arguments.{
  Json, null, boolean, number, string, array, object, Items, nil, item, Fields, end, field,
  has_null, items_have_null, fields_have_null,
}

mutual
  pub data IsNullFree : Json → Type 0 where
    boolean_free : {b : Bool} → IsNullFree (boolean b)
    number_free : {t : Text} → IsNullFree (number t)
    string_free : {t : Text} → IsNullFree (string t)
    array_free : {xs : Items} → AreNullFree xs → IsNullFree (array xs)
    object_free : {fs : Fields} → FieldsNullFree fs → IsNullFree (object fs)

  pub data AreNullFree : Items → Type 0 where
    nil_free : AreNullFree nil
    item_free : {x : Json} {xs : Items} → IsNullFree x → AreNullFree xs → AreNullFree (item x xs)

  pub data FieldsNullFree : Fields → Type 0 where
    end_free : FieldsNullFree end
    field_free :
        {k : Text} {x : Json} {fs : Fields}
        → IsNullFree x
        → FieldsNullFree fs
        → FieldsNullFree (field k x fs)

mutual
  unfolding has_null items_have_null fields_have_null

  has_null-IsNullFree : (x : Json) → has_null x ≡ false → IsNullFree x
  has_null-IsNullFree null h = absurd (cc)
  has_null-IsNullFree (boolean b) h = boolean_free
  has_null-IsNullFree (number t) h = number_free
  has_null-IsNullFree (string t) h = string_free
  has_null-IsNullFree (array xs) h = array_free (items_have_null-AreNullFree xs h)
  has_null-IsNullFree (object fs) h = object_free (fields_have_null-FieldsNullFree fs h)

  items_have_null-AreNullFree : (xs : Items) → items_have_null xs ≡ false → AreNullFree xs
  items_have_null-AreNullFree nil h = nil_free
  items_have_null-AreNullFree (item x xs) h =
      let (a, b) = or-eq-false (has_null x) _ h in
      item_free (has_null-IsNullFree x a) (items_have_null-AreNullFree xs b)

  pub fields_have_null-FieldsNullFree :
      (fs : Fields) → fields_have_null fs ≡ false → FieldsNullFree fs
  fields_have_null-FieldsNullFree end h = end_free
  fields_have_null-FieldsNullFree (field k x fs) h =
      let (a, b) = or-eq-false (has_null x) _ h in
      field_free (has_null-IsNullFree x a) (fields_have_null-FieldsNullFree fs b)
