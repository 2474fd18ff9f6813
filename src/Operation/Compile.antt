-- ===== src/Operation/Compile.antt =====
-- internal/operation/template.go `parseTemplate` and `materialize`, and compile.go `Compile`. The
-- documents are given as decoded; base64 and json.Marshal are parameters. A Go map is a list with
-- distinct keys, in any order.
use mathlib.Core.Bool.{Bool, true, false, not, ◌||◌}
use mathlib.Core.Option.{Option, none, some}
use mathlib.Core.List.{List, [], ◌∷◌}
use Prim.Native.Nat.{ℕ, zero, suc, ◌+◌, ◌*◌, ◌/◌, ◌%◌}
use agent_key_vault_jit_acce.Prelude.Tests.{ltb, ◌==◌, if◌then◌else◌, is_some}
use agent_key_vault_jit_acce.Prelude.Rows.{length}
use agent_key_vault_jit_acce.Prelude.Int.{ℤ, pos, negsuc}
use agent_key_vault_jit_acce.Operation.Text.{Text, codes, text_eq, byte_length}
use agent_key_vault_jit_acce.Operation.Outcome.{
  invalid_template, invalid_arguments, Outcome, ok, invalid, ◌>>=◌, ◌>>◌, refuse_if, or_invalid,
}
use agent_key_vault_jit_acce.Operation.Schema.{Floats, CompiledSchema, names_of}
use agent_key_vault_jit_acce.Operation.Arguments.{
  Json, Value, text_value, int_value, float_value, bool_value, find_named, all_members,
  validate_arguments,
}
use agent_key_vault_jit_acce.Operation.Template.{
  TemplateKind, SqlTemplate, SignTemplate, Template, digest_length, validate_postgresql,
  validate_sign,
}
use agent_key_vault_jit_acce.Operation.Path.{resolve_path}
use agent_key_vault_jit_acce.Operation.Headers.{canonical_header}
use agent_key_vault_jit_acce.Operation.Http.{CheckedHttp, validate_http}

abbrev pub max_resolved_operation_size : ℕ
max_resolved_operation_size = 256 * 1024

-- The decimal digits of a number below 10 ^ fuel.
unfoldable pub digits : ℕ → ℕ → Text → Text
digits zero n acc = acc
digits (suc fuel) n acc =
    let rest = digits fuel (n / 10) ((b'0' + n % 10) ∷ acc) in
    if ltb n 10 then (b'0' + n) ∷ acc else rest

-- `strconv.FormatInt`: an int64 has at most nineteen digits.
unfoldable pub format_int : ℤ → Text
format_int (pos n) = digits 20 n []
format_int (negsuc n) = b'-' ∷ digits 20 (n + 1) []

module _ (F : Floats) where
  open F use {format}

  -- The compiled template, by its kind.
  pub data CompiledTemplate : Type 0 where
    http : CheckedHttp → CompiledTemplate
    postgresql : Bool → List SqlTemplate → CompiledTemplate
    sign : SignTemplate → CompiledTemplate

  -- Every property of the schema is used.
  unfoldable pub use_all :
      CompiledSchema F → List Text → CompiledTemplate → Outcome CompiledTemplate
  use_all schema used template = do
    refuse_if (not (all_members (names_of schema.properties) used)) invalid_template
    ok template

  unfoldable pub parse_http : CompiledSchema F → Template → Outcome CompiledTemplate
  parse_http schema t = do
    refuse_if (is_some t.postgresql || is_some t.sign) invalid_template
    template ← or_invalid t.http invalid_template
    checked ← validate_http F schema template
    use_all schema checked.used (http checked)

  unfoldable pub parse_postgresql : Bool → CompiledSchema F → Template → Outcome CompiledTemplate
  parse_postgresql single schema t = do
    refuse_if (is_some t.http || is_some t.sign) invalid_template
    statements ← or_invalid t.postgresql invalid_template
    used ← validate_postgresql F single schema statements
    use_all schema used (postgresql single statements)

  unfoldable pub parse_sign : CompiledSchema F → Template → Outcome CompiledTemplate
  parse_sign schema t = do
    refuse_if (is_some t.http || is_some t.postgresql) invalid_template
    template ← or_invalid t.sign invalid_template
    used ← validate_sign F schema template
    use_all schema used (sign template)

  parse_kind : TemplateKind → CompiledSchema F → Template → Outcome CompiledTemplate
  parse_kind TemplateKind.http schema t = parse_http schema t
  parse_kind TemplateKind.postgresql_statement schema t = parse_postgresql true schema t
  parse_kind TemplateKind.postgresql_transaction schema t = parse_postgresql false schema t
  parse_kind TemplateKind.sign schema t = parse_sign schema t
  parse_kind TemplateKind.unknown schema t = invalid invalid_template

  unfoldable pub parse_template : CompiledSchema F → Template → Outcome CompiledTemplate
  unfolding parse_kind
  parse_template schema t = parse_kind t.kind schema t

  -- `HTTPParameters`; the body is none where the template has no body arguments.
  pub record HttpParameters : Type 0 where
    pub method : Text
    pub path : Text
    pub query : List (Text × Text)
    pub headers : List (Text × Text)
    pub body : Option Text

  -- A SQL argument that is not given is nil.
  pub record SqlStatement : Type 0 where
    pub sql : Text
    pub arguments : List (Option (Value F))

  pub data Resolved : Type 0 where
    http_request : HttpParameters → Resolved
    sql_statements : Bool → List SqlStatement → Resolved
    signature : Text → List ℕ → Resolved

  unfoldable pub format_primitive : Value F → Text
  format_primitive (text_value t) = t
  format_primitive (int_value n) = format_int n
  format_primitive (float_value x) = format x
  format_primitive (bool_value true) = codes "true"
  format_primitive (bool_value false) = codes "false"

  abbrev text_of : Option (Value F) → Option Text
  text_of (some (text_value t)) = some t
  text_of _ = none

  -- The text that is bound to a placeholder.
  unfoldable pub bound_text : List (Text × Text) → List (Text × Value F) → Text → Option Text
  bound_text bindings arguments placeholder = elim (find_named placeholder bindings) [
    | none ↦ none
    | some argument ↦ text_of (find_named argument arguments)
  ]

  unfoldable pub query_values : List (Text × Value F) → List (Text × Text) → List (Text × Text)
  query_values arguments [] = []
  query_values arguments ((name, argument) ∷ rest) = elim (find_named argument arguments) [
    | none ↦ query_values arguments rest
    | some value ↦ (name, format_primitive value) ∷ query_values arguments rest
  ]

  abbrev canonical_headers : List (Text × Text) → List (Text × Text)
  canonical_headers [] = []
  canonical_headers ((name, value) ∷ rest) = (canonical_header name, value) ∷ canonical_headers rest

  -- The body arguments that are given.
  unfoldable pub body_values : List (Text × Value F) → List Text → List (Text × Value F)
  body_values arguments [] = []
  body_values arguments (name ∷ names) = elim (find_named name arguments) [
    | none ↦ body_values arguments names
    | some value ↦ (name, value) ∷ body_values arguments names
  ]

  abbrev values_of : List (Text × Value F) → List Text → List (Option (Value F))
  values_of arguments [] = []
  values_of arguments (name ∷ names) = find_named name arguments ∷ values_of arguments names

  unfoldable pub sql_values : List (Text × Value F) → List SqlTemplate → List SqlStatement
  sql_values arguments [] = []
  sql_values arguments (t ∷ ts) =
      record { sql = t.sql; arguments = values_of arguments t.arguments } ∷ sql_values arguments ts

  module _ (marshal : List (Text × Value F) → Text) (marshal_resolved : Resolved → Text)
      (decode : Text → Option (List ℕ)) (encode : List ℕ → Text) where
    abbrev body_of : List (Text × Value F) → List Text → Option Text
    body_of arguments [] = none
    body_of arguments (name ∷ names) = some (marshal (body_values arguments (name ∷ names)))

    unfoldable pub materialize_http : CheckedHttp → List (Text × Value F) → Outcome Resolved
    materialize_http checked arguments = do
      path ← resolve_path (bound_text checked.template.path_arguments arguments) checked.path
      ok (
          http_request (record {
            method = checked.template.method;
            path = path;
            query = query_values arguments checked.template.query_arguments;
            headers = canonical_headers checked.template.static_headers;
            body = body_of arguments checked.template.body_arguments;
          }))

    -- A digest is canonical base64 of the length of its algorithm.
    unfoldable pub materialize_sign : SignTemplate → List (Text × Value F) → Outcome Resolved
    materialize_sign t arguments = do
      encoded ← or_invalid (text_of (find_named t.digest_argument arguments)) invalid_arguments
      digest ← or_invalid (decode encoded) invalid_arguments
      refuse_if
          (not (text_eq (encode digest) encoded)
            || not (length digest == digest_length t.algorithm))
          invalid_arguments
      ok (signature t.algorithm digest)

    unfoldable pub materialize : CompiledTemplate → List (Text × Value F) → Outcome Resolved
    materialize (http checked) arguments = materialize_http checked arguments
    materialize (postgresql single statements) arguments =
        ok (sql_statements single (sql_values arguments statements))
    materialize (sign t) arguments = materialize_sign t arguments

    -- `Compile`, from the compiled schema on.
    unfoldable pub compile : CompiledSchema F → Template → Json → Outcome (Resolved × Text)
    compile schema template document = do
      compiled ← parse_template schema template
      validated ← validate_arguments F marshal schema document
      resolved ← materialize compiled (validated.0)
      refuse_if (ltb max_resolved_operation_size (byte_length (marshal_resolved resolved)))
          invalid_arguments
      ok (resolved, validated.1)
