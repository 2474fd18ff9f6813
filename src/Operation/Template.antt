-- ===== src/Operation/Template.antt =====
-- internal/operation/template.go: the private template and its validation against a schema. The
-- template document is given as the decoded struct; `requireExactKeys` on its tree is not modelled.
-- A Go map is a list with distinct keys; all faults of a loop are the same, so its order is free.
use mathlib.Core.Bool.{Bool, true, false, not, ◌&&◌, ◌||◌}
use mathlib.Core.Option.{Option}
use mathlib.Core.List.{List, [], ◌∷◌, ◌++◌}
use Prim.Native.Nat.{ℕ, ◌+◌}
use agent_key_vault_jit_acce.Prelude.Tests.{ltb, ◌==◌, if◌then◌else◌}
use agent_key_vault_jit_acce.Prelude.Rows.{length}
use agent_key_vault_jit_acce.Operation.Text.{
  Text, codes, text_eq, is_member, contains_any, is_blank,
}
use agent_key_vault_jit_acce.Operation.Outcome.{
  invalid_template, Outcome, ok, ◌>>=◌, ◌>>◌, refuse_if, or_invalid,
}
use agent_key_vault_jit_acce.Operation.Schema.{Floats, ValueType, CompiledProperty, CompiledSchema}
use agent_key_vault_jit_acce.Operation.Arguments.{find_named}

abbrev pub max_bindings : ℕ
max_bindings = 256

abbrev pub max_sql_statements : ℕ
max_sql_statements = 32

-- `Kind`; `unknown` is any string that is none of the constants.
pub data TemplateKind : Type 0 where
  http postgresql_statement postgresql_transaction sign unknown : TemplateKind

pub record HttpTemplate : Type 0 where
  pub method : Text
  pub path : Text
  pub path_arguments : List (Text × Text)
  pub query_arguments : List (Text × Text)
  pub static_headers : List (Text × Text)
  pub body_arguments : List Text

pub record SqlTemplate : Type 0 where
  pub sql : Text
  pub arguments : List Text

pub record SignTemplate : Type 0 where
  pub algorithm : Text
  pub digest_argument : Text

pub record Template : Type 0 where
  pub kind : TemplateKind
  pub http : Option HttpTemplate
  pub postgresql : Option (List SqlTemplate)
  pub sign : Option SignTemplate

unfoldable pub digest_length : Text → ℕ
digest_length algorithm =
    if text_eq algorithm (codes "sha2-256")
    then 32
    else if text_eq algorithm (codes "sha2-384")
    then 48
    else if text_eq algorithm (codes "sha2-512")
    then 64
    else 0

abbrev pub is_string : ValueType → Bool
is_string ValueType.string = true
is_string _ = false

module _ (F : Floats) where
  -- The property a binding refers to; `used` grows by its name.
  unfoldable pub require_reference : CompiledSchema F → Text → Bool → Outcome (CompiledProperty F)
  require_reference schema name needed = do
    refuse_if (text_eq name []) invalid_template
    property ← or_invalid (find_named name schema.properties) invalid_template
    refuse_if (needed && not (is_member name schema.required)) invalid_template
    ok property

  -- Bindings that must be required strings, with the names that they use.
  unfoldable pub require_strings : CompiledSchema F → List (Text × Text) → Outcome (List Text)
  require_strings schema [] = ok []
  require_strings schema ((place, name) ∷ rest) = do
    property ← require_reference schema name true
    refuse_if (not (is_string property.definition.value_type)) invalid_template
    used ← require_strings schema rest
    ok (name ∷ used)

  unfoldable pub require_all : CompiledSchema F → Bool → List Text → Outcome (List Text)
  require_all schema needed [] = ok []
  require_all schema needed (name ∷ names) = do
    property ← require_reference schema name needed
    used ← require_all schema needed names
    ok (name ∷ used)

  sql_refused : Text → Bool
  sql_refused sql = is_blank sql || contains_any sql (b';' ∷ 0 ∷ [])

  -- The statements, with `bindings` counted so far.
  unfoldable pub validate_statements : CompiledSchema F → ℕ → List SqlTemplate → Outcome (List Text)
  unfolding sql_refused
  validate_statements schema bindings [] = ok []
  validate_statements schema bindings (statement ∷ rest) = do
    refuse_if (sql_refused statement.sql) invalid_template
    refuse_if (ltb max_bindings (bindings + length statement.arguments)) invalid_template
    used ← require_all schema true statement.arguments
    others ← validate_statements schema (bindings + length statement.arguments) rest
    ok (used ++ others)

  unfoldable pub validate_postgresql :
      Bool → CompiledSchema F → List SqlTemplate → Outcome (List Text)
  validate_postgresql single schema statements = do
    refuse_if
        (length statements == 0
          || ltb max_sql_statements (length statements)
          || single && not (length statements == 1))
        invalid_template
    validate_statements schema 0 statements

  unfoldable pub validate_sign : CompiledSchema F → SignTemplate → Outcome (List Text)
  validate_sign schema template = do
    refuse_if (digest_length template.algorithm == 0) invalid_template
    require_strings schema ((codes "digest", template.digest_argument) ∷ [])
