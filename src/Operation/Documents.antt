-- ===== src/Operation/Documents.antt =====
-- internal/operation: the documents of a definition, with their exact keys: `parseSchema`,
-- `validateTemplateKeys` and `requireExactKeys`. A document is the tree that the strict JSON reader
-- returns and the struct that it decodes to.
use mathlib.Core.Bool.{Bool, true, not, ◌||◌}
use mathlib.Core.Option.{Option, none, some}
use mathlib.Core.List.{List, [], ◌∷◌}
use agent_key_vault_jit_acce.Prelude.Tests.{ltb}
use agent_key_vault_jit_acce.Prelude.Rows.{length}
use agent_key_vault_jit_acce.Operation.Text.{Text, codes, text_eq}
use agent_key_vault_jit_acce.Operation.Outcome.{
  Fault, invalid_schema, invalid_template, Outcome, ok, ◌>>=◌, ◌>>◌, refuse_if, or_invalid,
}
use agent_key_vault_jit_acce.Operation.Schema.{
  Floats, Schema, CompiledSchema, max_properties, names_of, compile_properties, check_required,
}
use agent_key_vault_jit_acce.Operation.Arguments.{
  Json, array, object, Items, nil, item, Fields, fields_list, fields_have_null, find_named,
  all_members,
}

-- `requireExactKeys`
unfoldable pub require_exact_keys : Fault → List Text → Fields → Outcome (Unit {0})
require_exact_keys fault allowed fs =
    refuse_if (not (all_members (names_of (fields_list fs)) allowed)) fault

abbrev as_object : Json → Option Fields
as_object (object fs) = some fs
as_object _ = none

abbrev as_array : Json → Option Items
as_array (array xs) = some xs
as_array _ = none

-- A key that is absent passes; a present one must be an object with these keys.
unfoldable pub check_object : List Text → Option Json → Outcome (Unit {0})
check_object allowed none = ok tt
check_object allowed (some json) = do
  fs ← or_invalid (as_object json) invalid_template
  require_exact_keys invalid_template allowed fs

unfoldable pub check_statements : Items → Outcome (Unit {0})
check_statements nil = ok tt
check_statements (item json rest) = do
  check_object (codes "sql" ∷ codes "arguments" ∷ []) (some json)
  check_statements rest

abbrev check_statement_list : Option Json → Outcome (Unit {0})
check_statement_list none = ok tt
check_statement_list (some json) =
    or_invalid (as_array json) invalid_template >>= λ items. check_statements items

unfoldable pub check_postgresql : Option Json → Outcome (Unit {0})
check_postgresql none = ok tt
check_postgresql (some json) = do
  fs ← or_invalid (as_object json) invalid_template
  require_exact_keys invalid_template (codes "statements" ∷ []) fs
  check_statement_list (find_named (codes "statements") (fields_list fs))

unfoldable pub validate_template_keys : Fields → Outcome (Unit {0})
validate_template_keys root = do
  require_exact_keys invalid_template
      (codes "kind" ∷ codes "http" ∷ codes "postgresql" ∷ codes "sign" ∷ []) root
  check_object
      (codes "method"
        ∷ codes "path"
        ∷ codes "path_arguments"
        ∷ codes "query_arguments"
        ∷ codes "static_headers"
        ∷ codes "body_arguments"
        ∷ [])
      (find_named (codes "http") (fields_list root))
  check_postgresql (find_named (codes "postgresql") (fields_list root))
  check_object (codes "algorithm" ∷ codes "digest_argument" ∷ [])
      (find_named (codes "sign") (fields_list root))

-- The raw properties of a schema.
unfoldable pub check_properties : List (Text × Json) → Outcome (Unit {0})
check_properties [] = ok tt
check_properties ((name, json) ∷ rest) = do
  fs ← or_invalid (as_object json) invalid_schema
  require_exact_keys invalid_schema
      (codes "type"
        ∷ codes "description"
        ∷ codes "enum"
        ∷ codes "minimum"
        ∷ codes "maximum"
        ∷ codes "maxLength"
        ∷ [])
      fs
  check_properties rest

abbrev schema_keys : List Text
schema_keys =
    codes "type" ∷ codes "properties" ∷ codes "required" ∷ codes "additionalProperties" ∷ []

-- `additionalProperties` must be given, and false.
abbrev additional_refused : Option Bool → Bool
additional_refused none = true
additional_refused (some b) = b

module _ (F : Floats) where
  -- `parseSchema`, behind the reader.
  unfoldable pub parse_schema : Json → Schema → Outcome (CompiledSchema F)
  parse_schema document definition = do
    root ← or_invalid (as_object document) invalid_schema
    refuse_if (fields_have_null root) invalid_schema
    require_exact_keys invalid_schema schema_keys root
    refuse_if (not (all_members schema_keys (names_of (fields_list root)))) invalid_schema
    refuse_if
        (not (text_eq definition.schema_type (codes "object"))
          || additional_refused definition.additional_properties)
        invalid_schema
    properties ← or_invalid definition.properties invalid_schema
    required ← or_invalid definition.required invalid_schema
    refuse_if (ltb max_properties (length properties)) invalid_schema
    raw ← or_invalid (find_named (codes "properties") (fields_list root)) invalid_schema
    fields ← or_invalid (as_object raw) invalid_schema
    check_properties (fields_list fields)
    compiled ← compile_properties F properties
    names ← check_required (names_of properties) [] required
    ok (record { properties = compiled; required = names })
