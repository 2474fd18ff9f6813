-- ===== src/Operation/Path.antt =====
-- internal/operation/template.go: HTTP paths with placeholders, and the path of a resolved request.
pub mod Resolves
use mathlib.Core.Bool.{Bool, true, false, not, ◌&&◌, ◌||◌}
use mathlib.Core.Option.{Option}
use mathlib.Core.List.{List, [], ◌∷◌}
use Prim.Native.Nat.{ℕ}
use agent_key_vault_jit_acce.Prelude.Tests.{ltb, ◌==◌, if◌then◌else◌}
use agent_key_vault_jit_acce.Operation.Text.{
  Text, codes, text_eq, is_member, contains, contains_any, split, join, path_escape,
}
use agent_key_vault_jit_acce.Operation.Outcome.{
  invalid_template, invalid_arguments, Outcome, ok, ◌>>=◌, ◌>>◌, refuse_if, or_invalid,
}

-- A literal part of a path, or a placeholder. The Go struct has both fields, of which the literal is
-- empty for a placeholder, and `argument` is set when the placeholder is bound.
pub data PathSegment : Type 0 where
  literal : Text → PathSegment
  placeholder : Text → PathSegment

abbrev pub slash : ℕ
slash = b'/'

unfoldable pub starts_with : ℕ → Text → Bool
starts_with c [] = false
starts_with c (x ∷ xs) = x == c

unfoldable pub ends_with : ℕ → Text → Bool
ends_with c [] = false
ends_with c (x ∷ []) = x == c
ends_with c (x ∷ y ∷ ys) = ends_with c (y ∷ ys)

-- `strings.HasPrefix(path, "//")`
unfoldable pub starts_with_two : ℕ → Text → Bool
starts_with_two c [] = false
starts_with_two c (x ∷ xs) = x == c && starts_with c xs

unfoldable pub drop_last : Text → Text
drop_last [] = []
drop_last (x ∷ []) = []
drop_last (x ∷ y ∷ ys) = x ∷ drop_last (y ∷ ys)

unfoldable pub drop_first : Text → Text
drop_first [] = []
drop_first (x ∷ xs) = xs

-- The name in the braces of a placeholder: `TrimSuffix(TrimPrefix(part, "{"), "}")`.
unfoldable pub braced : Text → Text
unfolding drop_last drop_first
braced part = drop_last (drop_first part)

unfoldable pub path_refused : Text → Bool
unfolding starts_with starts_with_two
path_refused path =
    not (starts_with slash path)
    || starts_with_two slash path
    || contains_any path (b'?' ∷ b'#' ∷ b'\\' ∷ 0 ∷ b'\r' ∷ b'\n' ∷ b'%' ∷ [])

-- Segments that a client may not send: empty ones, and those that walk the tree.
unfoldable pub unsafe_segment : Text → Bool
unsafe_segment part = text_eq part [] || text_eq part (codes ".") || text_eq part (codes "..")

unfoldable pub is_last : List Text → Bool
is_last [] = true
is_last (t ∷ ts) = false

unfoldable pub braces : Text
braces = b'{' ∷ b'}' ∷ []

-- The name of a placeholder: not empty, without braces, and new.
unfoldable pub validate_placeholder : List Text → Text → Outcome PathSegment
unfolding braces
validate_placeholder seen name = do
  refuse_if (text_eq name [] || contains_any name braces) invalid_template
  refuse_if (is_member name seen) invalid_template
  ok (placeholder name)

unfoldable pub validate_literal : Text → Outcome PathSegment
unfolding braces
validate_literal part = do refuse_if (contains_any part braces) invalid_template; ok (literal part)

-- One part that is neither the first nor an empty last one; `seen` are the placeholders so far.
unfoldable pub validate_part : List Text → Text → Outcome PathSegment
unfolding starts_with ends_with braced drop_first drop_last validate_placeholder validate_literal
validate_part seen part = do
  refuse_if (unsafe_segment part) invalid_template
  if starts_with b'{' part && ends_with b'}' part
      then validate_placeholder seen (braced part)
      else validate_literal part

abbrev pub add_seen : PathSegment → List Text → List Text
add_seen (literal t) seen = seen
add_seen (placeholder t) seen = t ∷ seen

-- The parts behind the first one.
unfoldable pub validate_parts : List Text → List Text → Outcome (List PathSegment)
unfolding is_last
validate_parts seen [] = ok []
validate_parts seen (part ∷ parts) =
    if text_eq part [] && is_last parts then ok (literal part ∷ []) else do
      segment ← validate_part seen part
      segments ← validate_parts (add_seen segment seen) parts
      ok (segment ∷ segments)

-- The part before the first slash is empty, and is not looked at.
unfoldable pub validate_split : List Text → Outcome (List PathSegment)
validate_split [] = ok []
validate_split (part ∷ parts) = do segments ← validate_parts [] parts; ok (literal part ∷ segments)

unfoldable pub validate_path : Text → Outcome (List PathSegment)
validate_path path = do
  refuse_if (path_refused path) invalid_template
  validate_split (split slash path)

abbrev pub placeholders : List PathSegment → List Text
placeholders [] = []
placeholders (literal t ∷ segments) = placeholders segments
placeholders (placeholder t ∷ segments) = t ∷ placeholders segments

-- A code point that no path argument may hold.
unfoldable pub forbidden_in_argument : ℕ → Bool
forbidden_in_argument c = contains c (b'/' ∷ b'\\' ∷ b'%' ∷ []) || ltb c 0x20 || c == 0x7f

unfoldable pub any_forbidden : Text → Bool
any_forbidden [] = false
any_forbidden (c ∷ cs) = forbidden_in_argument c || any_forbidden cs

unfoldable pub unsafe_path_argument : Text → Bool
unsafe_path_argument value = unsafe_segment value || any_forbidden value

-- The parts of the resolved path; `lookup` gives the text that is bound to a placeholder.
unfoldable pub path_parts : (Text → Option Text) → List PathSegment → Outcome (List Text)
path_parts lookup [] = ok []
path_parts lookup (literal t ∷ segments) = do parts ← path_parts lookup segments; ok (t ∷ parts)
path_parts lookup (placeholder name ∷ segments) = do
  value ← or_invalid (lookup name) invalid_arguments
  refuse_if (unsafe_path_argument value) invalid_arguments
  parts ← path_parts lookup segments
  ok (path_escape value ∷ parts)

unfoldable pub resolve_path : (Text → Option Text) → List PathSegment → Outcome Text
resolve_path lookup segments = do parts ← path_parts lookup segments; ok (join slash parts)
