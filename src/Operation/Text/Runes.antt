-- ===== src/Operation/Text/Runes.antt =====
-- Go strings as byte strings, and their code points: `utf8.ValidString`, `utf8.RuneCountInString`
-- and `strings.TrimSpace`. A byte that begins no code point is a rune of its own.
use mathlib.Core.Bool.{Bool, true, false, not, ◌&&◌}
use mathlib.Core.List.{List, [], ◌∷◌, reverse}
use Prim.Native.Nat.{ℕ, zero, suc, ◌+◌, ◌-◌, ◌*◌}
use agent_key_vault_jit_acce.Prelude.Tests.{if◌then◌else◌, leb, ltb}
use agent_key_vault_jit_acce.Prelude.Rows.{length, any_row, take}
use agent_key_vault_jit_acce.Domain.Values.{Bytes}
use agent_key_vault_jit_acce.Operation.Text.{is_space}

-- A code point and the number of its bytes; `invalid` is one byte that begins none.
pub data Rune : Type 0 where
  rune : ℕ → ℕ → Rune
  invalid : Rune

abbrev between : ℕ → ℕ → ℕ → Bool
between lo hi c = leb lo c && leb c hi

abbrev continues : ℕ → Bool
continues = between 0x80 0xbf

abbrev pub two : ℕ → Bytes → Rune
two a (b ∷ bs) = if continues b then rune ((a - 0xc0) * 64 + (b - 0x80)) 2 else invalid
two a [] = invalid

abbrev pub three : ℕ → ℕ → ℕ → Bytes → Rune
three lo hi a (b ∷ c ∷ bs) =
    if between lo hi b && continues c
    then rune ((a - 0xe0) * 4096 + (b - 0x80) * 64 + (c - 0x80)) 3
    else invalid
three lo hi a _ = invalid

abbrev pub four : ℕ → ℕ → ℕ → Bytes → Rune
four lo hi a (b ∷ c ∷ d ∷ bs) =
    if between lo hi b && continues c && continues d
    then rune ((a - 0xf0) * 262144 + (b - 0x80) * 4096 + (c - 0x80) * 64 + (d - 0x80)) 4
    else invalid
four lo hi a _ = invalid

-- The rune that begins with byte `a`, before the bytes `bs`.
unfoldable pub decode_rune : ℕ → Bytes → Rune
decode_rune a bs =
    if ltb a 0x80
    then rune a 1
    else if between 0xc2 0xdf a
    then two a bs
    else if between 0xe0 0xe0 a
    then three 0xa0 0xbf a bs
    else if between 0xed 0xed a
    then three 0x80 0x9f a bs
    else if between 0xe1 0xef a
    then three 0x80 0xbf a bs
    else if between 0xf0 0xf0 a
    then four 0x90 0xbf a bs
    else if between 0xf4 0xf4 a
    then four 0x80 0x8f a bs
    else if between 0xf1 0xf3 a
    then four 0x80 0xbf a bs
    else invalid

abbrev pub tail_width : Rune → ℕ
tail_width (rune c n) = n - 1
tail_width invalid = 0

-- The runes behind the next `skip` bytes.
unfoldable pub runes_behind : ℕ → Bytes → List Rune
unfolding decode_rune
runes_behind skip [] = []
runes_behind zero (a ∷ bs) = let r = decode_rune a bs in r ∷ runes_behind (tail_width r) bs
runes_behind (suc skip) (a ∷ bs) = runes_behind skip bs

unfoldable pub runes : Bytes → List Rune
runes = runes_behind 0

abbrev pub is_invalid : Rune → Bool
is_invalid (rune c n) = false
is_invalid invalid = true

unfoldable pub valid_string : Bytes → Bool
unfolding runes
valid_string s = not (any_row is_invalid (runes s))

unfoldable pub rune_count : Bytes → ℕ
unfolding runes
rune_count s = length (runes s)

abbrev pub is_space_rune : Rune → Bool
is_space_rune (rune c n) = is_space c
is_space_rune invalid = false

abbrev pub width : Rune → ℕ
width (rune c n) = n
width invalid = 1

-- The bytes of the spaces at the front.
unfoldable pub leading_space : List Rune → ℕ
leading_space [] = 0
leading_space (r ∷ rs) =
    let rest = leading_space rs in if is_space_rune r then width r + rest else 0

abbrev pub drop : ℕ → Bytes → Bytes
drop zero bs = bs
drop (suc n) [] = []
drop (suc n) (b ∷ bs) = drop n bs

-- `strings.TrimSpace`. A code point is found from either end of a string.
unfoldable pub trim_space : Bytes → Bytes
unfolding runes leading_space
trim_space s =
    let front = drop (leading_space (runes s)) s in
    take (length front - leading_space (reverse (runes front))) front
