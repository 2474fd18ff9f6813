-- ===== src/Examples/Paths.antt =====
-- Runs of the theorems of operations on a small path.
use mathlib.Core.Path.{◌≡◌, refl}
use mathlib.Core.Option.{Option, some}
use mathlib.Core.List.{List, [], ◌∷◌}
use agent_key_vault_jit_acce.Operation.Text.{
  Text, codes, text_eq, is_member, contains, contains_any, utf8, split, join, escapes, escape_bytes,
  path_escape,
}
use agent_key_vault_jit_acce.Operation.Path.{
  PathSegment, literal, placeholder, slash, starts_with, starts_with_two, ends_with, drop_first,
  drop_last, braced, braces, is_last, path_refused, unsafe_segment, validate_placeholder,
  validate_literal, validate_part, validate_parts, validate_split, validate_path,
  forbidden_in_argument, any_forbidden, unsafe_path_argument, path_parts, resolve_path,
}
use agent_key_vault_jit_acce.Operation.Path.Resolves.{Matches, resolve_path-segments}
use agent_key_vault_jit_acce.Operation.Outcome.{ok}

-- `/items/{id}`, with `a b` for `id`.
abbrev items_path : Text
items_path = codes "/items/{id}"

abbrev items_segments : List PathSegment
items_segments = literal [] ∷ literal (codes "items") ∷ placeholder (codes "id") ∷ []

validated : validate_path items_path ≡ ok items_segments
unfolding validate_path path_refused starts_with starts_with_two validate_split validate_parts
    validate_part unsafe_segment ends_with braced drop_first drop_last validate_placeholder
    validate_literal braces is_last contains_any contains text_eq is_member split
validated = refl

abbrev lookup_a_b : Text → Option Text
lookup_a_b name = some (codes "a b")

resolved : resolve_path lookup_a_b items_segments ≡ ok (codes "/items/a%20b")
unfolding resolve_path path_parts unsafe_path_argument unsafe_segment any_forbidden
    forbidden_in_argument contains text_eq join path_escape escape_bytes escapes utf8
resolved = refl

resolve_path-segments_example :
    Matches lookup_a_b items_segments (split slash (codes "/items/a%20b"))
resolve_path-segments_example =
    resolve_path-segments lookup_a_b items_path items_segments (codes "/items/a%20b") validated
      resolved
