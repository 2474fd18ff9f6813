-- ===== src/Store/Catalog/Same.antt =====
-- The comparison of configurations is equality.
use mathlib.Core.Path.{◌≡◌, refl}
use mathlib.Core.Bool.{Bool, true}
use mathlib.Core.List.{List, [], ◌∷◌}
use native.Mathlib.Omega.{arith}
use agent_key_vault_jit_acce.Prelude.Tests.{and-eq-true, ◌==◌, ==→eq}
use agent_key_vault_jit_acce.Prelude.Rows.{bytes_eq}
use agent_key_vault_jit_acce.Prelude.Same.{bytes_eq→≡}
use agent_key_vault_jit_acce.Domain.Values.{Bytes}
use agent_key_vault_jit_acce.Domain.Catalog.{ConnectionConfig}
use agent_key_vault_jit_acce.Store.Catalog.Statements.{same_methods, same_flag, same_config}

same_methods→≡ : (xs ys : List Bytes) → same_methods xs ys ≡ true → xs ≡ ys
unfolding same_methods
same_methods→≡ [] [] h = refl
same_methods→≡ [] (y ∷ ys) h = absurd (cc)
same_methods→≡ (x ∷ xs) [] h = absurd (cc)
same_methods→≡ (x ∷ xs) (y ∷ ys) h =
    let (e, k) = and-eq-true _ _ h in λ i. bytes_eq→≡ x y e i ∷ same_methods→≡ xs ys k i

same_flag→≡ : (a b : Bool) → same_flag a b ≡ true → a ≡ b
same_flag→≡ a b h = ground arith

-- Configurations that the database does not tell apart are the same.
pub same_config→≡ : (a b : ConnectionConfig) → same_config a b ≡ true → a ≡ b
unfolding same_config
same_config→≡ a b h =
    let url : bytes_eq a.base_url b.base_url ≡ true = ground arith in
    let methods : same_methods a.allowed_http_methods b.allowed_http_methods ≡ true =
      ground arith in
    let host : bytes_eq a.host b.host ≡ true = ground arith in
    let port : (a.port == b.port) ≡ true = ground arith in
    let database : bytes_eq a.database b.database ≡ true = ground arith in
    let mode : bytes_eq a.tls_mode b.tls_mode ≡ true = ground arith in
    let flag : same_flag a.require_dynamic b.require_dynamic ≡ true = ground arith in
    λ i. record {
      base_url = bytes_eq→≡ a.base_url b.base_url url i;
      allowed_http_methods = same_methods→≡ a.allowed_http_methods b.allowed_http_methods methods i;
      host = bytes_eq→≡ a.host b.host host i;
      port = ==→eq a.port b.port port i;
      database = bytes_eq→≡ a.database b.database database i;
      tls_mode = bytes_eq→≡ a.tls_mode b.tls_mode mode i;
      require_dynamic = same_flag→≡ a.require_dynamic b.require_dynamic flag i;
    }
