-- ===== src/Store/Evolution/Revoked.antt =====
-- A token that has been revoked stays revoked: its hash is a unique key of its table.
use mathlib.Core.Path.{◌≡◌, sym, subst, ◌∙◌}
use mathlib.Core.Bool.{Bool, true, false}
use mathlib.Core.Option.{Option}
use mathlib.Core.List.{List}
use Prim.Native.Nat.{ℕ}
use agent_key_vault_jit_acce.Prelude.Tests.{is_none}
use agent_key_vault_jit_acce.Prelude.Rows.{update_rows, insert_row, bytes_eq}
use agent_key_vault_jit_acce.Prelude.Same.{bytes_eq→≡, bytes_eq_refl}
use agent_key_vault_jit_acce.Prelude.Evolves.{
  All, Any, Any-inserted, Any-update_rows, All-insert_row, All-update_rows, All-Any,
}
use agent_key_vault_jit_acce.Domain.Values.{Bytes}

module _ {A : Type 0} (hash_of : A → Bytes) (revoked_of : A → Option ℕ) where
  abbrev pub Hashed : Bytes → A → Type 0
  Hashed h x = bytes_eq (hash_of x) h ≡ true

  abbrev pub Refused : Bytes → A → Type 0
  Refused h x = bytes_eq (hash_of x) h ≡ true → is_none (revoked_of x) ≡ false

  -- The hash is in the table, and every row of it is revoked.
  abbrev pub IsRevoked : Bytes → List A → Type 0
  IsRevoked h xs = Any (Hashed h) xs × All (Refused h) xs

  pub IsRevoked-insert :
      (h : Bytes) (x : A) (xs : List A)
      → All (λ y. bytes_eq (hash_of y) (hash_of x) ≡ false) xs
      → IsRevoked h xs
      → IsRevoked h (insert_row x xs)
  IsRevoked-insert h x xs fresh r = (
    Any-inserted (Hashed h) x xs r.0,
    All-insert_row (Refused h) x xs r.1 (λ e.
        let (y, other, same) = All-Any _ _ xs fresh r.0 in
        let path : hash_of y ≡ hash_of x = bytes_eq→≡ _ _ same ∙ sym (bytes_eq→≡ _ _ e) in
        let clash : bytes_eq (hash_of y) (hash_of x) ≡ true =
          subst (λ k. bytes_eq (hash_of y) k ≡ true) path (bytes_eq_refl (hash_of y)) in
        absurd (cc)),
  )

  pub IsRevoked-update :
      (h : Bytes) (test : A → Bool) (change : A → A) (xs : List A)
      → ((x : A) → hash_of (change x) ≡ hash_of x)
      → ((x : A) → is_none (revoked_of x) ≡ false → is_none (revoked_of (change x)) ≡ false)
      → IsRevoked h xs
      → IsRevoked h (update_rows test change xs)
  IsRevoked-update h test change xs same stays r = (
    Any-update_rows (Hashed h) test change xs (λ x t e. rw (same x) e) r.0,
    All-update_rows (Refused h) test change xs (λ x t k e. stays x (k (rw (same x) at e))) r.1,
  )
