-- ===== src/Operation/Literals.antt =====
-- internal/operation/schema.go `isIntegerLiteral`, and `strconv.ParseInt` on such literals.
use mathlib.Core.Bool.{Bool, true, false, not, ◌&&◌}
use mathlib.Core.Option.{Option, none, some}
use mathlib.Core.List.{[], ◌∷◌}
use Prim.Native.Nat.{ℕ, ◌+◌, ◌-◌, ◌*◌, ◌^◌}
use agent_key_vault_jit_acce.Prelude.Tests.{ltb, leb, ◌==◌, if◌then◌else◌}
use agent_key_vault_jit_acce.Prelude.Int.{ℤ, pos, negsuc}
use agent_key_vault_jit_acce.Operation.Text.{Text, text_eq, codes}

unfoldable pub all_digits : Text → Bool
all_digits [] = true
all_digits (c ∷ cs) = leb b'0' c && leb c b'9' && all_digits cs

-- A digit that is not 0, and more digits.
unfoldable pub is_positive_literal : Text → Bool
unfolding all_digits
is_positive_literal [] = false
is_positive_literal (c ∷ cs) = not (c == b'0') && all_digits (c ∷ cs)

unfoldable pub drop_minus : Text → Text
drop_minus [] = []
drop_minus (c ∷ cs) = if c == b'-' then cs else c ∷ cs

unfoldable pub is_integer_literal : Text → Bool
unfolding is_positive_literal drop_minus
is_integer_literal t = if text_eq t (codes "0") then true else is_positive_literal (drop_minus t)

-- The value of digits, read from the left behind `acc`.
unfoldable pub digits_value : ℕ → Text → ℕ
digits_value acc [] = acc
digits_value acc (c ∷ cs) = digits_value (acc * 10 + (c - b'0')) cs

abbrev pub int64_limit : ℕ
int64_limit = 2 ^ 63

unfoldable pub signed : Bool → ℕ → Option ℤ
signed false n = if ltb n int64_limit then some (pos n) else none
signed true n =
    if n == 0 then some (pos 0) else if leb n int64_limit then some (negsuc (n - 1)) else none

abbrev is_negative : Text → Bool
is_negative [] = false
is_negative (c ∷ cs) = c == b'-'

-- `strconv.ParseInt(t, 10, 64)`, for a text that is an integer literal.
unfoldable pub parse_int : Text → Option ℤ
unfolding signed digits_value drop_minus
parse_int t = signed (is_negative t) (digits_value 0 (drop_minus t))
