-- ===== src/Operation/Headers.antt =====
-- internal/operation/template.go: static headers and methods of an HTTP template, with what
-- net/http and package strings do to them.
use mathlib.Core.Bool.{Bool, true, not, ◌&&◌, ◌||◌}
use mathlib.Core.List.{[], ◌∷◌}
use Prim.Native.Nat.{ℕ, ◌+◌, ◌-◌}
use agent_key_vault_jit_acce.Prelude.Tests.{leb, ◌==◌, if◌then◌else◌}
use agent_key_vault_jit_acce.Operation.Text.{Text, codes, text_eq, is_member, contains, is_space}

-- The characters of a token.
unfoldable pub token_char : ℕ → Bool
token_char c =
    leb b'0' c && leb c b'9'
    || leb b'a' c && leb c b'z'
    || leb b'A' c && leb c b'Z'
    || contains c (codes "!#$%&'*+-.^_`|~")

unfoldable pub all_token_chars : Text → Bool
all_token_chars [] = true
all_token_chars (c ∷ cs) = token_char c && all_token_chars cs

unfoldable pub valid_header_name : Text → Bool
valid_header_name name = not (text_eq name []) && all_token_chars name

abbrev upper : ℕ → ℕ
upper c = if leb b'a' c && leb c b'z' then c - 32 else c

abbrev lower : ℕ → ℕ
lower c = if leb b'A' c && leb c b'Z' then c + 32 else c

-- Upper case at the start and behind a dash.
unfoldable pub canonical_from : Bool → Text → Text
canonical_from start [] = []
canonical_from start (c ∷ cs) = (if start then upper c else lower c) ∷ canonical_from (c == b'-') cs

-- `http.CanonicalHeaderKey`: a name with other characters is left as it is.
unfoldable pub canonical_header : Text → Text
canonical_header name = if all_token_chars name then canonical_from true name else name

unfoldable pub forbidden_header : Text → Bool
forbidden_header name = is_member name (
    codes "Authorization"
    ∷ codes "Proxy-Authorization"
    ∷ codes "Host"
    ∷ codes "Cookie"
    ∷ codes "Set-Cookie"
    ∷ codes "X-Api-Key"
    ∷ codes "Connection"
    ∷ codes "Content-Length"
    ∷ codes "Keep-Alive"
    ∷ codes "Te"
    ∷ codes "Trailer"
    ∷ codes "Transfer-Encoding"
    ∷ codes "Upgrade"
    ∷ [])

-- `unicode.ToUpper`, as far as its result is ASCII: the letters, the dotless i and the long s.
unfoldable pub to_upper : ℕ → ℕ
to_upper c = if c == 0x131 then b'I' else if c == 0x17f then b'S' else upper c

unfoldable pub upper_text : Text → Text
upper_text [] = []
upper_text (c ∷ cs) = to_upper c ∷ upper_text cs

unfoldable pub trim_left : Text → Text
trim_left [] = []
trim_left (c ∷ cs) = let rest = trim_left cs in if is_space c then rest else c ∷ cs

-- Blanks at the end go, and only those.
unfoldable pub trim_right : Text → Text
trim_right [] = []
trim_right (c ∷ cs) =
    let rest = trim_right cs in if is_space c && text_eq rest [] then [] else c ∷ rest

-- `strings.ToUpper(strings.TrimSpace(method))`
unfoldable pub normal_method : Text → Text
normal_method method = upper_text (trim_right (trim_left method))

unfoldable pub is_method : Text → Bool
is_method method = is_member method (
    codes "GET"
    ∷ codes "HEAD"
    ∷ codes "POST"
    ∷ codes "PUT"
    ∷ codes "PATCH"
    ∷ codes "DELETE"
    ∷ codes "OPTIONS"
    ∷ [])
