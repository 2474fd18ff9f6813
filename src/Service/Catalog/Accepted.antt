-- ===== src/Service/Catalog/Accepted.antt =====
-- A configuration that `validateConnection` accepts, as it is stored.
use mathlib.Core.Path.{◌≡◌, refl, sym, ap, subst}
use mathlib.Core.Logic.{◌⊎◌, ◌≢◌, inl, inr}
use mathlib.Core.Bool.{Bool, true, false, not, ◌||◌}
use mathlib.Core.Option.{Option, none, some}
use mathlib.Core.List.{List, [], ◌∷◌, map}
use Prim.Native.Nat.{ℕ}
use native.Mathlib.Omega.{arith}
use agent_key_vault_jit_acce.Prelude.Tests.{Bool-cases, and-eq-true, ◌==◌, ==→eq}
use agent_key_vault_jit_acce.Prelude.Same.{bytes_eq→≡}
use agent_key_vault_jit_acce.Prelude.Evolves.{All}
use agent_key_vault_jit_acce.Domain.Values.{Bytes}
use agent_key_vault_jit_acce.Domain.Catalog.{ConnectorType, CredentialType, ConnectionConfig}
use agent_key_vault_jit_acce.Service.Catalog.Connections.{
  Uri, NetLibrary, http_methods, tls_modes, normal_method, take_method, with_methods, check_methods,
  is_web_uri, fits_http, fits_postgresql, validate_connection,
}
use agent_key_vault_jit_acce.Service.Catalog.Sound.{
  IsWord, IsHttpUri, IsHttpConnection, IsPostgresqlConnection, is_one_of-IsWord,
  for_http-IsCredential, for_postgresql-IsCredential, is_dynamic-same, empty-nil, not_empty-nil,
  not-true-false, hostname-IsDnsName,
}

either : (a b : Bool) → (a || b) ≡ true → (a ≡ true) ⊎ (b ≡ true)
either true b h = inl refl
either false b h = inr h

implied : (a b : Bool) → (not a || b) ≡ true → a ≡ true → b ≡ true
implied a b h k = ground arith

not_zero : (n : ℕ) → not (n == 0) ≡ true → n ≢ 0
not_zero n h = ground arith

module _ (net : NetLibrary) where
  web_uri-IsHttpUri :
      (o : Option Uri) → is_web_uri net o ≡ true → (u : Uri) × (o ≡ some u) × IsHttpUri u
  unfolding is_web_uri
  web_uri-IsHttpUri none h = absurd (cc)
  web_uri-IsHttpUri (some u) h₁ =
      let (h₂, user) = and-eq-true _ _ h₁ in
      let (scheme, host) = and-eq-true _ _ h₂ in
      (
        u,
        refl,
        record {
          scheme = elim (either _ _ scheme) [
            | inl e ↦ inl (bytes_eq→≡ _ _ e)
            | inr e ↦ inr (bytes_eq→≡ _ _ e)
          ];
          host = not_empty-nil _ host;
          no_user = not-true-false _ user;
        },
      )

  fits_http-IsHttpConnection :
      (c : ConnectionConfig) (type : CredentialType)
      → fits_http net c type ≡ true
      → IsHttpConnection net c type
  unfolding fits_http
  fits_http-IsHttpConnection c type h₁ =
      let (h₂, methods) = and-eq-true _ _ h₁ in
      let (h₃, dynamic) = and-eq-true _ _ h₂ in
      let (h₄, tls_mode) = and-eq-true _ _ h₃ in
      let (h₅, database) = and-eq-true _ _ h₄ in
      let (h₆, port) = and-eq-true _ _ h₅ in
      let (h₇, host) = and-eq-true _ _ h₆ in
      let (credential, uri) = and-eq-true _ _ h₇ in
      record {
        credential = for_http-IsCredential type credential;
        uri = web_uri-IsHttpUri _ uri;
        no_host = empty-nil _ host;
        no_port = ==→eq _ _ port;
        no_database = empty-nil _ database;
        no_tls_mode = empty-nil _ tls_mode;
        not_dynamic = not-true-false _ dynamic;
        some_method = not_empty-nil _ methods;
      }

  fits_postgresql-IsPostgresqlConnection :
      (c : ConnectionConfig) (type : CredentialType)
      → fits_postgresql net c type ≡ true
      → IsPostgresqlConnection net c type
  unfolding fits_postgresql
  fits_postgresql-IsPostgresqlConnection c type h₁ =
      let (h₂, dynamic) = and-eq-true _ _ h₁ in
      let (h₃, tls_mode) = and-eq-true _ _ h₂ in
      let (h₄, database) = and-eq-true _ _ h₃ in
      let (h₅, port) = and-eq-true _ _ h₄ in
      let (h₆, host) = and-eq-true _ _ h₅ in
      let (h₇, methods) = and-eq-true _ _ h₆ in
      let (credential, base_url) = and-eq-true _ _ h₇ in
      record {
        credential = for_postgresql-IsCredential type credential;
        no_base_url = empty-nil _ base_url;
        no_methods = empty-nil _ methods;
        host = elim (either _ _ host) [ inl e ↦ inl e | inr e ↦ inr (hostname-IsDnsName c.host e) ];
        port = not_zero _ port;
        database = not_empty-nil _ database;
        tls_mode = is_one_of-IsWord tls_modes c.tls_mode tls_mode;
        dynamic = λ k. is_dynamic-same type (implied _ _ dynamic k);
      }

  -- The methods are trimmed and in capitals, and each is one that HTTP targets allow.
  abbrev pub AreNormal : List Bytes → List Bytes → Type 0
  AreNormal given stored =
      (stored ≡ map (normal_method net) given) × All (IsWord http_methods) stored

  take_method-some :
      (b : Bool) (m : Bytes) (rest : Option (List Bytes)) (out : List Bytes)
      → take_method net b m rest ≡ some out
      → (more : List Bytes) × (b ≡ true) × (rest ≡ some more) × (out ≡ m ∷ more)
  take_method-some true m none out h = absurd (cc)
  take_method-some true m (some more) out h = (more, refl, refl, cc)
  take_method-some false m rest out h = absurd (cc)

  check_methods-AreNormal :
      (methods out : List Bytes) → check_methods net methods ≡ some out → AreNormal methods out
  unfolding check_methods
  check_methods-AreNormal [] out h = let e : [] ≡ out = cc in subst (AreNormal []) e (refl, tt)
  check_methods-AreNormal (m ∷ methods) out h =
      let (more, known, rest, e) = take_method-some _ _ _ out h in
      let (mapped, words) = check_methods-AreNormal methods more rest in
      subst (AreNormal (m ∷ methods)) (sym e) (
        ap (λ ms. normal_method net m ∷ ms) mapped,
        (is_one_of-IsWord http_methods (normal_method net m) known, words),
      )

  -- What is stored for a configuration that was given.
  abbrev pub IsStored :
      ConnectorType → CredentialType → ConnectionConfig → ConnectionConfig → Type 0
  IsStored ConnectorType.http type given stored =
      IsHttpConnection net given type
      × (stored ≡ record given { allowed_http_methods = stored.allowed_http_methods })
      × AreNormal given.allowed_http_methods stored.allowed_http_methods
  IsStored ConnectorType.postgresql type given stored =
      IsPostgresqlConnection net given type × (stored ≡ given)
  IsStored ConnectorType.other type given stored = ⊥

  with_methods-IsStored :
      (given stored : ConnectionConfig) (type : CredentialType) (o : Option (List Bytes))
      → check_methods net given.allowed_http_methods ≡ o
      → fits_http net given type ≡ true
      → with_methods net given o ≡ some stored
      → IsStored ConnectorType.http type given stored
  with_methods-IsStored given stored type none methods fits h = absurd (cc)
  with_methods-IsStored given stored type (some out) methods fits h =
      let same : record given { allowed_http_methods = out } ≡ stored = cc in
      subst (IsStored ConnectorType.http type given) same (
        fits_http-IsHttpConnection given type fits,
        refl,
        check_methods-AreNormal given.allowed_http_methods out methods,
      )

  -- A configuration that is accepted fits its connector. For HTTP: a credential of the five types,
  -- a URL of scheme http or https with a host and no user, no field of PostgreSQL, and one or more
  -- methods, each one of GET, POST, PUT, PATCH and DELETE when it is trimmed and in capitals, as it
  -- is then stored. For PostgreSQL: a credential of the two types, no field of HTTP, a host that is
  -- an address or a host name, a port, a database, a TLS mode of the four, and the dynamic type where
  -- it is required; it is stored as it is. No other connector is accepted.
  pub validate_connection-IsStored :
      (connector : ConnectorType) (given stored : ConnectionConfig) (type : CredentialType)
      → validate_connection net connector given type ≡ some stored
      → IsStored connector type given stored
  unfolding validate_connection
  validate_connection-IsStored ConnectorType.http given stored type h =
      elim (Bool-cases (fits_http net given type)) [
        | inl e ↦
            with_methods-IsStored given stored type _ refl e (rw (e, validate_connection) at h)
        | inr e ↦ absurd (cc (rw (e, validate_connection) at h))
      ]
  validate_connection-IsStored ConnectorType.postgresql given stored type h =
      elim (Bool-cases (fits_postgresql net given type)) [
        | inl e ↦
            let same : given ≡ stored = cc (rw (e, validate_connection) at h) in
            (fits_postgresql-IsPostgresqlConnection given type e, sym same)
        | inr e ↦ absurd (cc (rw (e, validate_connection) at h))
      ]
  validate_connection-IsStored ConnectorType.other given stored type h = absurd (cc)
