-- ===== src/Metadata/Provider.antt =====
-- src/metadata/provider.rs: the discovery document and its validation. The unknown fields that the
-- document may have are kept as the text of their JSON.
use oidc4rs.Prelude.{
  ◌≡◌, ◌≢◌, ◌↔◌, inl, inr, Bool, true, not, Option, List, [], ◌∷◌, arith, Bool-cases, ◌>>◌, ensure,
  ok, Bytes, codes, eqb, eqb_iff, any, is_nil, In, here, there,
}
use oidc4rs.Error.{Outcome, invalid_metadata, say}
use oidc4rs.Types.Url.{Url, IssuerUrl}

-- `ProviderMetadata`.
pub record ProviderMetadata : Type 0 where
  pub issuer : IssuerUrl
  pub authorization_endpoint : Url
  pub token_endpoint : Url
  pub userinfo_endpoint : Option Url
  pub jwks_uri : Url
  pub end_session_endpoint : Option Url
  pub registration_endpoint : Option Bytes
  pub scopes_supported : Option (List Bytes)
  pub response_types_supported : List Bytes
  pub subject_types_supported : List Bytes
  pub id_token_signing_alg_values_supported : List Bytes
  pub grant_types_supported : Option (List Bytes)
  pub token_endpoint_auth_methods_supported : Option (List Bytes)
  pub authorization_response_iss_parameter_supported : Bool
  pub userinfo_signing_alg_values_supported : Option (List Bytes)
  pub extra : Bytes

-- `validate`.
unfoldable pub validate : ProviderMetadata → Outcome (Unit {0})
validate m = do
  ensure (not (is_nil m.response_types_supported))
      (invalid_metadata (say "response_types_supported must not be empty"))
  ensure (not (is_nil m.subject_types_supported))
      (invalid_metadata (say "subject_types_supported must not be empty"))
  ensure (any (λ a. eqb a (codes "RS256")) m.id_token_signing_alg_values_supported)
      (invalid_metadata (say "id_token_signing_alg_values_supported must include RS256"))

-- What a validated document offers.
pub record IsValid (m : ProviderMetadata) : Type 0 where
  pub has_response_types : m.response_types_supported ≢ []
  pub has_subject_types : m.subject_types_supported ≢ []
  pub has_rs256 : In (codes "RS256") m.id_token_signing_alg_values_supported

pub any-eqb→In : (a : Bytes) (xs : List Bytes) → any (λ x. eqb x a) xs ≡ true → In a xs
unfolding any
any-eqb→In a [] h = cc
any-eqb→In a (x ∷ xs) h = elim (Bool-cases (eqb x a)) [
  | inl same ↦ rw ((eqb_iff x a).0 same) here
  | inr other ↦ there (any-eqb→In a xs (ground arith))
]

pub In→any-eqb : {a : Bytes} {xs : List Bytes} → In a xs → any (λ x. eqb x a) xs ≡ true
unfolding any
In→any-eqb {a} here = ground (arith, eqb_iff a a)
In→any-eqb (there m) = ground (arith, In→any-eqb m)

-- Validation accepts exactly the documents that offer a response type, a subject type and RS256.
pub validate_iff : (m : ProviderMetadata) → (validate m ≡ ok tt) ↔ IsValid m
unfolding validate
validate_iff m = (
  λ h. record {
    has_response_types = ground arith;
    has_subject_types = ground arith;
    has_rs256 = any-eqb→In _ _ (ground arith);
  },
  λ v. ground (arith, In→any-eqb v.has_rs256),
)
