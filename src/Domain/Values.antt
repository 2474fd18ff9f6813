-- ===== src/Domain/Values.antt =====
-- The values that the rows are made of. Identifiers are only compared, so they are naturals, and
-- 0 is the empty string. Times count nanoseconds, and are taken to be whole
-- microseconds, which is what a timestamptz column keeps. Byte strings and texts are lists of bytes.
use Prim.Native.Char.{code}
use Prim.Native.String.{String}
use mathlib.Core.Bool.{Bool, true, false}
use mathlib.Core.List.{List, [], ◌∷◌}
use Prim.Native.Nat.{ℕ}

abbrev pub Uuid : Type 0
Uuid = ℕ

abbrev pub Time : Type 0
Time = ℕ

abbrev pub Bytes : Type 0
Bytes = List ℕ

-- The bytes of an ASCII text.
abbrev pub text : String → Bytes
text String.[] = []
text (String.◌∷◌ c s) = code c ∷ text s

pub data OperationKind : Type 0 where
  http postgresql_statement postgresql_transaction sign : OperationKind

unfoldable pub same_kind : OperationKind → OperationKind → Bool
same_kind OperationKind.http OperationKind.http = true
same_kind OperationKind.postgresql_statement OperationKind.postgresql_statement = true
same_kind OperationKind.postgresql_transaction OperationKind.postgresql_transaction = true
same_kind OperationKind.sign OperationKind.sign = true
same_kind _ _ = false
