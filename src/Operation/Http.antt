-- ===== src/Operation/Http.antt =====
-- internal/operation/template.go `validateHTTPTemplate`. The placeholders keep their names; the
-- argument of a placeholder is looked up in the path arguments when the path is resolved.
use mathlib.Core.Bool.{false, not, ◌||◌}
use mathlib.Core.List.{List, [], ◌∷◌, ◌++◌}
use Prim.Native.Nat.{◌+◌}
use agent_key_vault_jit_acce.Prelude.Tests.{ltb, ◌==◌}
use agent_key_vault_jit_acce.Prelude.Rows.{length}
use agent_key_vault_jit_acce.Operation.Text.{Text, text_eq, is_member, contains_any}
use agent_key_vault_jit_acce.Operation.Outcome.{
  invalid_template, Outcome, ok, ◌>>=◌, ◌>>◌, refuse_if,
}
use agent_key_vault_jit_acce.Operation.Schema.{Floats, CompiledSchema, names_of, has_duplicate}
use agent_key_vault_jit_acce.Operation.Arguments.{all_members}
use agent_key_vault_jit_acce.Operation.Template.{
  HttpTemplate, max_bindings, require_strings, require_all,
}
use agent_key_vault_jit_acce.Operation.Path.{PathSegment, placeholders, validate_path}
use agent_key_vault_jit_acce.Operation.Headers.{
  normal_method, is_method, valid_header_name, canonical_header, forbidden_header,
}

line_breaks : Text
line_breaks = 0 ∷ b'\r' ∷ b'\n' ∷ []

-- The loop over the static headers; `seen` are the canonical names so far.
unfoldable pub check_headers : List Text → List (Text × Text) → Outcome (Unit {0})
unfolding line_breaks
check_headers seen [] = ok tt
check_headers seen ((name, value) ∷ rest) = do
  refuse_if
      (not (valid_header_name name)
        || contains_any value line_breaks
        || forbidden_header (canonical_header name))
      invalid_template
  refuse_if (is_member (canonical_header name) seen) invalid_template
  check_headers (canonical_header name ∷ seen) rest

-- The names of query parameters.
unfoldable pub check_query_names : List (Text × Text) → Outcome (Unit {0})
unfolding line_breaks
check_query_names [] = ok tt
check_query_names ((name, argument) ∷ rest) = do
  refuse_if (text_eq name [] || contains_any name line_breaks) invalid_template
  check_query_names rest

abbrev pub arguments_of : List (Text × Text) → List Text
arguments_of [] = []
arguments_of ((name, argument) ∷ rest) = argument ∷ arguments_of rest

-- The template with its method in upper case, its path, and the arguments that it uses.
pub record CheckedHttp : Type 0 where
  pub template : HttpTemplate
  pub path : List PathSegment
  pub used : List Text

module _ (F : Floats) where
  unfoldable pub validate_http : CompiledSchema F → HttpTemplate → Outcome CheckedHttp
  validate_http schema template = do
    refuse_if (not (is_method (normal_method template.method))) invalid_template
    segments ← validate_path template.path
    refuse_if (not (length (placeholders segments) == length template.path_arguments))
        invalid_template
    refuse_if
        (ltb max_bindings (
          length template.path_arguments
          + length template.query_arguments
          + length template.body_arguments))
        invalid_template
    refuse_if (not (all_members (names_of template.path_arguments) (placeholders segments)))
        invalid_template
    path_used ← require_strings F schema template.path_arguments
    check_query_names template.query_arguments
    query_used ← require_all F schema false (arguments_of template.query_arguments)
    check_headers [] template.static_headers
    refuse_if (has_duplicate template.body_arguments) invalid_template
    body_used ← require_all F schema false template.body_arguments
    ok (record {
      template = record template { method = normal_method template.method };
      path = segments;
      used = path_used ++ query_used ++ body_used;
    })
