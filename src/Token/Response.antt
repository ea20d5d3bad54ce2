-- ===== src/Token/Response.antt =====
-- src/token/response.rs: the token response and the parsed, not yet verified, ID token.
use oidc4rs.Prelude.{
  ℕ, ◌≡◌, refl, ◌≢◌, ◌⊎◌, inl, inr, Option, none, some, [], ◌∷◌, arith, if◌then◌else◌, unwrap_or,
  Result, ◌>>=◌, ◌>>◌, ensure, ok, Bytes, is_empty,
}
use oidc4rs.Error.{Message, Outcome, say}
use oidc4rs.Token.Jose.{Jose}
use oidc4rs.Flow.Callback.{is_utf8}
use oidc4rs.Types.Identifiers.{access_token_new, refresh_token_new, new_non_empty}

-- `TokenResponse`.
pub record TokenResponse : Type 0 where
  pub access_token : Bytes
  pub token_type : Bytes
  pub expires_in : Option ℕ
  pub refresh_token : Option Bytes
  pub id_token : Option Bytes
  pub scope : Option Bytes

-- `deserialize_access_token`, on the string of the document; the error is shown by serde.
unfoldable pub deserialize_access_token : Bytes → Outcome Bytes
deserialize_access_token s = access_token_new s

-- `deserialize_refresh_token`, on the optional string.
unfoldable pub deserialize_refresh_token : Option Bytes → Outcome (Option Bytes)
deserialize_refresh_token none = ok none
deserialize_refresh_token (some s) =
    if is_empty s then ok none else (do t ← refresh_token_new s; ok (some t))

-- `IdToken`.
pub record IdToken (Claims : Type 0) : Type 0 where
  pub raw : Bytes
  pub claims : Claims
  pub header_alg : Bytes
  pub header_kid : Option Bytes

-- `IdToken::parse`; its error is a `JoseError`.
unfoldable pub parse_id_token :
    {Claims Key Jws Json : Type 0}
    → Jose Claims Key Jws Json
    → Bytes
    → Result Message (IdToken Claims)
parse_id_token jose raw = do
  jws ← jose.from_compact raw
  payload ← jose.unverified_payload jws
  ensure (is_utf8 payload) (jose.malformed_token (say "id_token payload is not UTF-8"))
  claims ← jose.parse_claims payload
  ok (record {
    raw = raw;
    claims = claims;
    header_alg = unwrap_or (jose.algorithm jws) [];
    header_kid = jose.key_id jws;
  })

-- An empty refresh token counts as absent, and deserializing one never fails.
pub deserialize_refresh_token_lem :
    (o : Option Bytes)
    → (deserialize_refresh_token o ≡ ok none)
      ⊎ ((s : Bytes) × (o ≡ some s) × (s ≢ []) × (deserialize_refresh_token o ≡ ok (some s)))
unfolding deserialize_refresh_token
deserialize_refresh_token_lem none = inl refl
deserialize_refresh_token_lem (some []) = inl refl
deserialize_refresh_token_lem (some (c ∷ s)) =
    inr (c ∷ s, refl, (λ e. ground arith), unfold new_non_empty in refl)
