-- ===== src/Operation/Text.antt =====
-- Texts as lists of code points, and what the Go standard library does to them.
pub mod Splits
pub mod Runes
use Prim.Native.Char.{code}
use Prim.Native.String.{String}
use mathlib.Core.Bool.{Bool, true, false, not, ◌&&◌, ◌||◌}
use mathlib.Core.List.{List, [], ◌∷◌, ◌++◌}
use Prim.Native.Nat.{ℕ, ◌+◌, ◌-◌, ◌/◌, ◌%◌}
use agent_key_vault_jit_acce.Prelude.Tests.{ltb, leb, ◌==◌, if◌then◌else◌}

abbrev pub Text : Type 0
Text = List ℕ

-- The code points of a literal.
abbrev pub codes : String → Text
codes String.[] = []
codes (String.◌∷◌ c s) = code c ∷ codes s

unfoldable pub text_eq : Text → Text → Bool
text_eq [] [] = true
text_eq (x ∷ xs) (y ∷ ys) = elim (x == y) [ true ↦ text_eq xs ys | false ↦ false ]
text_eq _ _ = false

unfoldable pub is_member : Text → List Text → Bool
is_member t [] = false
is_member t (x ∷ xs) = text_eq t x || is_member t xs

-- `strings.ContainsRune`
unfoldable pub contains : ℕ → Text → Bool
contains c [] = false
contains c (x ∷ xs) = x == c || contains c xs

-- `strings.ContainsAny`
unfoldable pub contains_any : Text → Text → Bool
unfolding contains
contains_any [] chars = false
contains_any (x ∷ xs) chars = contains x chars || contains_any xs chars

-- The bytes of a code point in UTF-8.
unfoldable pub utf8 : ℕ → List ℕ
utf8 c =
    if ltb c 0x80
    then c ∷ []
    else if ltb c 0x800
    then (0xc0 + c / 64) ∷ (0x80 + c % 64) ∷ []
    else if ltb c 0x10000
    then (0xe0 + c / 4096) ∷ (0x80 + (c / 64) % 64) ∷ (0x80 + c % 64) ∷ []
    else (0xf0 + c / 262144)
      ∷ (0x80 + (c / 4096) % 64)
      ∷ (0x80 + (c / 64) % 64)
      ∷ (0x80 + c % 64)
      ∷ []

-- `len` of a string counts its bytes.
unfoldable pub byte_length : Text → ℕ
byte_length [] = 0
byte_length (c ∷ cs) =
    (if ltb c 0x80 then 1 else if ltb c 0x800 then 2 else if ltb c 0x10000 then 3 else 4)
    + byte_length cs

-- `unicode.IsSpace`
unfoldable pub is_space : ℕ → Bool
is_space c =
    leb 9 c && leb c 13
    || c == 0x20
    || c == 0x85
    || c == 0xa0
    || c == 0x1680
    || leb 0x2000 c && leb c 0x200a
    || c == 0x2028
    || c == 0x2029
    || c == 0x202f
    || c == 0x205f
    || c == 0x3000

-- `strings.TrimSpace(t) == ""`
unfoldable pub is_blank : Text → Bool
is_blank [] = true
is_blank (c ∷ cs) = is_space c && is_blank cs

-- `strings.Split(t, "/")`: never empty.
unfoldable pub split : ℕ → Text → List Text
split sep [] = [] ∷ []
split sep (c ∷ cs) = elim (split sep cs) [
  | [] ↦ []
  | part ∷ parts ↦ elim (c == sep) [ true ↦ [] ∷ part ∷ parts | false ↦ (c ∷ part) ∷ parts ]
]

-- `strings.Join(parts, "/")`
unfoldable pub join : ℕ → List Text → Text
join sep [] = []
join sep (part ∷ []) = part
join sep (part ∷ next ∷ parts) = part ++ (sep ∷ join sep (next ∷ parts))

abbrev is_between : ℕ → ℕ → ℕ → Bool
is_between lo hi c = leb lo c && leb c hi

abbrev pub hex : ℕ → ℕ
hex d = if ltb d 10 then b'0' + d else b'A' + d - 10

-- `shouldEscape` of net/url for a path segment.
unfoldable pub escapes : ℕ → Bool
escapes c = not (
    is_between b'a' b'z' c
    || is_between b'A' b'Z' c
    || is_between b'0' b'9' c
    || contains c (codes "-_.~$&+=:@"))

unfoldable pub escape_bytes : List ℕ → Text
escape_bytes [] = []
escape_bytes (b ∷ bs) =
    let rest = escape_bytes bs in
    if escapes b then b'%' ∷ hex (b / 16) ∷ hex (b % 16) ∷ rest else b ∷ rest

-- `url.PathEscape`
unfoldable pub path_escape : Text → Text
unfolding escape_bytes
path_escape [] = []
path_escape (c ∷ cs) = escape_bytes (utf8 c) ++ path_escape cs
