-- ===== src/Service/Catalog/Sound.antt =====
-- What `validateConnection` accepts, said without its tests.
use mathlib.Core.Path.{◌≡◌, refl}
use mathlib.Core.Logic.{◌⊎◌, ◌≢◌, inl, inr}
use mathlib.Core.Bool.{Bool, true, false, not}
use mathlib.Core.Option.{some}
use mathlib.Core.List.{List, [], ◌∷◌}
use Prim.Native.Nat.{ℕ, ◌≤◌}
use native.Mathlib.Omega.{arith}
use agent_key_vault_jit_acce.Prelude.Tests.{is_empty, and-eq-true, or-eq-false, ltb, leb→le}
use agent_key_vault_jit_acce.Prelude.Rows.{length, bytes_eq}
use agent_key_vault_jit_acce.Prelude.Same.{bytes_eq→≡}
use agent_key_vault_jit_acce.Prelude.Evolves.{All, Any, All-map, Any-map, any_row-Any, any_row-none}
use agent_key_vault_jit_acce.Domain.Values.{Bytes, text}
use agent_key_vault_jit_acce.Domain.Catalog.{CredentialType, ConnectionConfig}
use agent_key_vault_jit_acce.Operation.Text.{split}
use agent_key_vault_jit_acce.Operation.Text.Runes.{trim_space}
use agent_key_vault_jit_acce.Service.Catalog.Connections.{
  Uri, NetLibrary, is_one_of, tls_modes, for_http, for_postgresql, is_dynamic, is_host_character,
  starts_with_hyphen, ends_with_hyphen, bad_label, valid_hostname,
}

abbrev pub IsWord : List Bytes → Bytes → Type 0
IsWord words word = Any (λ w. w ≡ word) words

abbrev pub IsCredential : List CredentialType → CredentialType → Type 0
IsCredential types type = Any (λ t. t ≡ type) types

abbrev pub http_credentials : List CredentialType
http_credentials =
    CredentialType.api_key ∷ CredentialType.access_token ∷ CredentialType.username_password
    ∷ CredentialType.certificate ∷ CredentialType.transit_key ∷ []

abbrev pub postgresql_credentials : List CredentialType
postgresql_credentials = CredentialType.username_password ∷ CredentialType.postgresql_dynamic ∷ []

-- A letter, a digit or a hyphen.
abbrev pub IsHostCharacter : ℕ → Type 0
IsHostCharacter c =
    ((97 ≤ c) × (c ≤ 122)) ⊎ ((65 ≤ c) × (c ≤ 90)) ⊎ ((48 ≤ c) × (c ≤ 57)) ⊎ (c ≡ 45)

abbrev pub StartsPlain : Bytes → Type 0
StartsPlain [] = ⊥
StartsPlain (c ∷ cs) = c ≢ 45

abbrev pub EndsPlain : Bytes → Type 0
EndsPlain [] = ⊥
EndsPlain (c ∷ []) = c ≢ 45
EndsPlain (c ∷ d ∷ cs) = EndsPlain (d ∷ cs)

-- A label has 1 to 63 host characters, and no hyphen at either end.
pub record IsDnsLabel (label : Bytes) : Type 0 where
  pub short : length label ≤ 63
  pub starts : StartsPlain label
  pub ends : EndsPlain label
  pub characters : All IsHostCharacter label

-- Labels between full stops, at most 253 bytes in all.
pub record IsDnsName (value : Bytes) : Type 0 where
  pub given : value ≢ []
  pub short : length value ≤ 253
  pub labels : All IsDnsLabel (split 46 value)

pub record IsHttpUri (u : Uri) : Type 0 where
  pub scheme : (u.scheme ≡ text "http") ⊎ (u.scheme ≡ text "https")
  pub host : u.host ≢ []
  pub no_user : u.has_user ≡ false

module _ (net : NetLibrary) where
  pub record IsHttpConnection (c : ConnectionConfig) (type : CredentialType) : Type 0 where
    pub credential : IsCredential http_credentials type
    pub uri : (u : Uri) × (net.parse_request_uri c.base_url ≡ some u) × IsHttpUri u
    pub no_host : c.host ≡ []
    pub no_port : c.port ≡ 0
    pub no_database : c.database ≡ []
    pub no_tls_mode : c.tls_mode ≡ []
    pub not_dynamic : c.require_dynamic ≡ false
    pub some_method : c.allowed_http_methods ≢ []

  pub record IsPostgresqlConnection (c : ConnectionConfig) (type : CredentialType) : Type 0 where
    pub credential : IsCredential postgresql_credentials type
    pub no_base_url : c.base_url ≡ []
    pub no_methods : c.allowed_http_methods ≡ []
    pub host : (net.is_ip c.host ≡ true) ⊎ IsDnsName c.host
    pub port : c.port ≢ 0
    pub database : trim_space c.database ≢ []
    pub tls_mode : IsWord tls_modes c.tls_mode
    pub dynamic : c.require_dynamic ≡ true → type ≡ CredentialType.postgresql_dynamic

pub is_one_of-IsWord : (ws : List Bytes) (w : Bytes) → is_one_of ws w ≡ true → IsWord ws w
is_one_of-IsWord ws w h =
    Any-map _ _ (λ v e. bytes_eq→≡ v w e) ws (any_row-Any (λ v. bytes_eq v w) ws h)

pub for_http-IsCredential :
    (t : CredentialType) → for_http t ≡ true → IsCredential http_credentials t
for_http-IsCredential CredentialType.api_key h = inl refl
for_http-IsCredential CredentialType.access_token h = inr (inl refl)
for_http-IsCredential CredentialType.username_password h = inr (inr (inl refl))
for_http-IsCredential CredentialType.certificate h = inr (inr (inr (inl refl)))
for_http-IsCredential CredentialType.transit_key h = inr (inr (inr (inr (inl refl))))
for_http-IsCredential CredentialType.postgresql_dynamic h = absurd (cc)
for_http-IsCredential CredentialType.other h = absurd (cc)

pub for_postgresql-IsCredential :
    (t : CredentialType) → for_postgresql t ≡ true → IsCredential postgresql_credentials t
for_postgresql-IsCredential CredentialType.username_password h = inl refl
for_postgresql-IsCredential CredentialType.postgresql_dynamic h = inr (inl refl)
for_postgresql-IsCredential _ h = absurd (cc)

pub is_dynamic-same :
    (t : CredentialType) → is_dynamic t ≡ true → t ≡ CredentialType.postgresql_dynamic
is_dynamic-same CredentialType.postgresql_dynamic h = refl
is_dynamic-same _ h = absurd (cc)

pub empty-nil : {A : Type 0} (xs : List A) → is_empty xs ≡ true → xs ≡ []
empty-nil [] h = refl
empty-nil (x ∷ xs) h = absurd (cc)

pub not_empty-nil : {A : Type 0} (xs : List A) → not (is_empty xs) ≡ true → xs ≢ []
not_empty-nil [] h = absurd (cc)
not_empty-nil (x ∷ xs) h = λ e. cc

pub not-true-false : (b : Bool) → not b ≡ true → b ≡ false
not-true-false b h = ground arith

character-IsHostCharacter : (c : ℕ) → not (is_host_character c) ≡ false → IsHostCharacter c
character-IsHostCharacter c h = ground arith

starts-plain : (l : Bytes) → is_empty l ≡ false → starts_with_hyphen l ≡ false → StartsPlain l
starts-plain [] e h = absurd (cc)
starts-plain (c ∷ cs) e h = ground arith

ends-plain : (l : Bytes) → is_empty l ≡ false → ends_with_hyphen l ≡ false → EndsPlain l
ends-plain [] e h = absurd (cc)
ends-plain (c ∷ []) e h = ground arith
ends-plain (c ∷ d ∷ cs) e h = ends-plain (d ∷ cs) refl h

label-IsDnsLabel : (l : Bytes) → bad_label l ≡ false → IsDnsLabel l
unfolding bad_label
label-IsDnsLabel l h₁ =
    let (h₂, characters) = or-eq-false _ _ h₁ in
    let (h₃, ends) = or-eq-false _ _ h₂ in
    let (h₄, starts) = or-eq-false _ _ h₃ in
    let (given, short) = or-eq-false (is_empty l) (ltb 63 (length l)) h₄ in
    record {
      short = ground arith;
      starts = starts-plain l given starts;
      ends = ends-plain l given ends;
      characters = All-map _ _ character-IsHostCharacter l (any_row-none _ l characters);
    }

pub hostname-IsDnsName : (value : Bytes) → valid_hostname value ≡ true → IsDnsName value
unfolding valid_hostname
hostname-IsDnsName value h₁ =
    let (h₂, labels) = and-eq-true _ _ h₁ in
    let (given, short) = and-eq-true _ _ h₂ in
    record {
      given = not_empty-nil value given;
      short = leb→le _ _ short;
      labels =
          All-map _ _ label-IsDnsLabel (split 46 value)
            (any_row-none _ _ (not-true-false _ labels));
    }
