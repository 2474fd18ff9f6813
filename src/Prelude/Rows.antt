-- ===== src/Prelude/Rows.antt =====
-- A table is the list of its rows. What SQL statements do to it: select, test, update, insert.
use Prim.Native.Nat.{ℕ, zero, suc}
use mathlib.Core.Bool.{Bool, true, false, ◌||◌}
use mathlib.Core.Option.{Option, none, some}
use mathlib.Core.List.{List, [], ◌∷◌, ◌++◌}
use agent_key_vault_jit_acce.Prelude.Tests.{if◌then◌else◌, ◌==◌, leb}

module _ {ℓ} {A : Type ℓ} where
  abbrev pub length : List A → ℕ
  length [] = 0
  length (x ∷ xs) = suc (length xs)

  abbrev pub take : ℕ → List A → List A
  take zero xs = []
  take (suc n) [] = []
  take (suc n) (x ∷ xs) = x ∷ take n xs

  -- `EXISTS (SELECT 1 FROM rows WHERE test)`
  unfoldable pub any_row : (A → Bool) → List A → Bool
  any_row test [] = false
  any_row test (x ∷ xs) = test x || any_row test xs

  -- `SELECT … FROM rows WHERE test`, its first row.
  unfoldable pub find_row : (A → Bool) → List A → Option A
  find_row test [] = none
  find_row test (x ∷ xs) = if test x then some x else find_row test xs

  -- `SELECT … FROM rows WHERE test`
  unfoldable pub select_rows : (A → Bool) → List A → List A
  select_rows test [] = []
  select_rows test (x ∷ xs) = let rest = select_rows test xs in if test x then x ∷ rest else rest

  -- `UPDATE rows SET change WHERE test`
  unfoldable pub update_rows : (A → Bool) → (A → A) → List A → List A
  update_rows test change [] = []
  update_rows test change (x ∷ xs) = (if test x then change x else x) ∷ update_rows test change xs

  -- The number of affected rows of such an update.
  unfoldable pub count_rows : (A → Bool) → List A → ℕ
  count_rows test xs = length (select_rows test xs)

  -- `INSERT INTO rows`: a new row comes last.
  abbrev pub insert_row : A → List A → List A
  insert_row x xs = xs ++ (x ∷ [])

  -- `ORDER BY key`, by insertion: among equal keys the earlier row comes first.
  unfoldable pub insert_ordered : (A → ℕ) → A → List A → List A
  insert_ordered key x [] = x ∷ []
  insert_ordered key x (y ∷ ys) =
      if leb (key x) (key y) then x ∷ y ∷ ys else y ∷ insert_ordered key x ys

  unfoldable pub order_rows : (A → ℕ) → List A → List A
  order_rows key [] = []
  order_rows key (x ∷ xs) = insert_ordered key x (order_rows key xs)

-- The selected values that are not null.
unfoldable pub collect {ℓ κ} : {A : Type ℓ} {B : Type κ} → (A → Option B) → List A → List B
collect f [] = []
collect f (x ∷ xs) = elim (f x) [ none ↦ collect f xs | some b ↦ b ∷ collect f xs ]

-- Equality of byte strings.
unfoldable pub bytes_eq : List ℕ → List ℕ → Bool
bytes_eq [] [] = true
bytes_eq (x ∷ xs) (y ∷ ys) = elim (x == y) [ true ↦ bytes_eq xs ys | false ↦ false ]
bytes_eq _ _ = false
