-- ===== src/Proxy/Redactor.antt =====
-- internal/proxy/redactor.go: the patterns of a secret, and what a response is cleared of. The
-- encodings of encoding/base64 and net/url are a parameter. Go ranges over a map of values in any
-- order, and sort.Slice leaves patterns of one length in any order: here it is that of the list.
use mathlib.Core.Bool.{Bool, true, false, ◌||◌}
use mathlib.Core.Option.{Option, none, some}
use mathlib.Core.List.{List, [], ◌∷◌, ◌++◌}
use Prim.Native.Nat.{ℕ, zero, suc, pred}
use agent_key_vault_jit_acce.Prelude.Tests.{if◌then◌else◌, ltb, ◌==◌}
use agent_key_vault_jit_acce.Prelude.Rows.{length, any_row, bytes_eq}
use agent_key_vault_jit_acce.Domain.Values.{Bytes, text}

pub record Encodings : Type 0 where
  pub standard : Bytes → Bytes
  pub raw_standard : Bytes → Bytes
  pub url_safe : Bytes → Bytes
  pub query_escape : Bytes → Bytes

abbrev pub redaction : Bytes
redaction = text "[REDACTED]"

abbrev pub shortest_pattern : ℕ
shortest_pattern = 4

unfoldable pub add : Bytes → List Bytes → List Bytes
add pattern patterns =
    if ltb (length pattern) shortest_pattern || any_row (λ p. bytes_eq p pattern) patterns
    then patterns
    else patterns ++ (pattern ∷ [])

unfoldable pub add_each : List Bytes → List Bytes → List Bytes
add_each [] patterns = patterns
add_each (p ∷ ps) patterns = add_each ps (add p patterns)

abbrev pub encodings_of : Encodings → Bytes → List Bytes
encodings_of e secret =
    secret
    ∷ e.standard secret
    ∷ e.raw_standard secret
    ∷ e.url_safe secret
    ∷ e.query_escape secret
    ∷ []

unfoldable pub add_values : Encodings → List (Bytes × Bytes) → List Bytes → List Bytes
add_values e [] patterns = patterns
add_values e ((name, secret) ∷ rest) patterns =
    add_values e rest (add_each (encodings_of e secret) patterns)

-- `values[name]`
unfoldable pub value_of : Bytes → List (Bytes × Bytes) → Option Bytes
value_of name [] = none
value_of name ((n, v) ∷ rest) = if bytes_eq n name then some v else value_of name rest

abbrev pub basic_credentials : Bytes → Bytes → Bytes
basic_credentials username password = username ++ text ":" ++ password

abbrev pub basic_patterns : Encodings → Option Bytes → Option Bytes → List Bytes
basic_patterns e (some username) (some password) =
    basic_credentials username password ∷ e.standard (basic_credentials username password) ∷ []
basic_patterns e _ _ = []

-- The longest pattern first.
unfoldable pub insert_longest : Bytes → List Bytes → List Bytes
insert_longest p [] = p ∷ []
insert_longest p (q ∷ qs) =
    if ltb (length p) (length q) then q ∷ insert_longest p qs else p ∷ q ∷ qs

unfoldable pub sort_longest : List Bytes → List Bytes
sort_longest [] = []
sort_longest (p ∷ ps) = insert_longest p (sort_longest ps)

unfoldable pub new_redactor : Encodings → List (Bytes × Bytes) → List Bytes
new_redactor e values = sort_longest (
    add_each
      (basic_patterns e (value_of (text "username") values) (value_of (text "password") values))
      (add_values e values []))

unfoldable pub starts_with : Bytes → Bytes → Bool
starts_with [] xs = true
starts_with (p ∷ ps) [] = false
starts_with (p ∷ ps) (x ∷ xs) = if p == x then starts_with ps xs else false

-- `bytes.ReplaceAll` with a pattern that is not empty; the first argument counts the bytes of a
-- match that are still to be left out.
unfoldable pub replace_all : ℕ → Bytes → Bytes → Bytes → Bytes
replace_all skip pattern new [] = []
replace_all (suc skip) pattern new (x ∷ xs) = replace_all skip pattern new xs
replace_all zero pattern new (x ∷ xs) = elim (starts_with pattern (x ∷ xs)) [
  | true ↦ new ++ replace_all (pred (length pattern)) pattern new xs
  | false ↦ x ∷ replace_all zero pattern new xs
]

unfoldable pub redact : List Bytes → Bytes → Bytes
redact [] value = value
redact (p ∷ ps) value = redact ps (replace_all 0 p redaction value)

unfoldable pub redact_headers : List Bytes → List (Bytes × Bytes) → List (Bytes × Bytes)
redact_headers patterns [] = []
redact_headers patterns ((name, value) ∷ rest) =
    (name, redact patterns value) ∷ redact_headers patterns rest
