-- ===== src/Token/Verify/Faults.antt =====
-- src/token/verify.rs: every reason for which an ID token is not verified, in the order in which the
-- checks are made.
pub mod Claims
pub mod Signature
pub mod Order
pub mod Exact
use oidc4rs.Time.{instant_limit, from_secs}
use oidc4rs.Token.Verify.{
  IdTokenVerifier, Primitives, IdToken, AlgorithmIdentifier, SystemTime, VerifyContext,
  at_hash_digest, Duration, is_utf8, left_half, auth_time_seconds, id_token_config,
}
use oidc4rs.Prelude.{
  ℕ, ◌+◌, ◌≤◌, ◌<◌, ◌≡◌, ◌≢◌, Bool, true, false, Option, none, some, [], ◌∷◌, unwrap_or, Result, ok,
  err, Bytes, codes, eq_ignore_ascii_case, In,
}
use oidc4rs.Error.{
  Message, OidcError, unsupported_algorithm, invalid_id_token, jose, no_matching_jwk,
  invalid_authorization_request, at_hash_mismatch, say, arg, lit,
}

-- The algorithm of the header.
pub data AlgFault (v : IdTokenVerifier) (alg : Bytes) : OidcError → Type 0 where
  is_none :
      eq_ignore_ascii_case alg (codes "none") ≡ true
      → AlgFault v alg
          (unsupported_algorithm (say "the `none` algorithm is never accepted for ID tokens"))
  unlisted :
      eq_ignore_ascii_case alg (codes "none") ≡ false
      → ¬ In alg v.allowed_algs
      → AlgFault v alg (unsupported_algorithm (arg alg ∷ []))

module _ {Claims Key Jws Json : Type 0} (env : Primitives Claims Key Jws Json) where
  open env use {library}

  -- The key for it.
  pub data KeyFault (select : Option Bytes → Bytes → Result Message (Option Key))
      (token : IdToken Claims) : OidcError → Type 0 where
    unavailable :
        (m : Message)
        → select token.header_kid token.header_alg ≡ err m
        → KeyFault select token (jose m)
    not_found :
        select token.header_kid token.header_alg ≡ ok none
        → KeyFault select token (no_matching_jwk token.header_kid token.header_alg)

  -- The signature, and what jose4rs finds in the payload.
  pub data SignatureFault (v : IdTokenVerifier) (token : IdToken Claims) (key : Key)
      (ctx : VerifyContext) : OidcError → Type 0 where
    not_compact :
        (m : Message)
        → library.from_compact token.raw ≡ err m
        → SignatureFault v token key ctx (jose m)
    not_checked :
        (jws : Jws) (m : Message)
        → library.from_compact token.raw ≡ ok jws
        → library.verify_signature jws key ≡ err m
        → SignatureFault v token key ctx (jose m)
    forged :
        (jws : Jws)
        → library.from_compact token.raw ≡ ok jws
        → library.verify_signature jws key ≡ ok false
        → SignatureFault v token key ctx (invalid_id_token (say "JWS signature is invalid"))
    no_payload :
        (jws : Jws) (m : Message)
        → library.from_compact token.raw ≡ ok jws
        → library.verify_signature jws key ≡ ok true
        → library.payload jws key ≡ err m
        → SignatureFault v token key ctx (jose m)
    not_text :
        (jws : Jws) (bytes : Bytes)
        → library.from_compact token.raw ≡ ok jws
        → library.verify_signature jws key ≡ ok true
        → library.payload jws key ≡ ok bytes
        → is_utf8 bytes ≡ false
        → SignatureFault v token key ctx (invalid_id_token (say "JWT payload is not valid UTF-8"))
    refused :
        (jws : Jws) (bytes : Bytes) (m : Message)
        → library.from_compact token.raw ≡ ok jws
        → library.verify_signature jws key ≡ ok true
        → library.payload jws key ≡ ok bytes
        → is_utf8 bytes ≡ true
        → library.process_to_claims (id_token_config env v ctx) bytes ≡ err m
        → SignatureFault v token key ctx (invalid_id_token m)

  -- The authorized party.
  pub data AzpFault : Option Bytes → Bool → Bytes → OidcError → Type 0 where
    unnamed :
        {expected : Bytes}
        → AzpFault none true expected
            (invalid_id_token (say "azp claim required when aud has multiple values"))
    other_party :
        {azp expected : Bytes} {multi : Bool}
        → azp ≢ expected
        → AzpFault (some azp) multi expected (invalid_id_token (say "azp does not match client_id"))

  -- The nonce.
  pub data NonceFault : Option Bytes → Option Bytes → OidcError → Type 0 where
    no_nonce :
        {expected : Bytes}
        → NonceFault none (some expected) (invalid_id_token (say "nonce claim required"))
    other_nonce :
        {got expected : Bytes}
        → got ≢ expected
        → NonceFault
            (some got)
            (some expected)
            (invalid_id_token (say "nonce does not match expected"))

  -- The hash of the access token.
  pub data AtHashFault (alg_id : AlgorithmIdentifier) (curve : Option Bytes)
      : Option Bytes → Option Bytes → OidcError → Type 0 where
    no_token :
        {at_hash : Bytes}
        → AtHashFault alg_id curve (some at_hash) none (
            invalid_authorization_request
              (say "access_token required in VerifyContext to validate at_hash"))
    no_digest :
        {at_hash token : Bytes}
        → at_hash_digest env.digests alg_id curve ≡ none
        → AtHashFault alg_id curve (some at_hash) (some token) (
            unsupported_algorithm (
              arg (library.algorithm_name alg_id)
              ∷ lit " does not identify an at_hash digest"
              ∷ []))
    other_hash :
        {at_hash token : Bytes} (digest : Bytes → Bytes)
        → at_hash_digest env.digests alg_id curve ≡ some digest
        → at_hash ≢ env.base64_url (left_half (digest token))
        → AtHashFault alg_id curve (some at_hash) (some token) at_hash_mismatch

  -- The time of the authentication, where an age was asked for.
  pub data AuthTimeFault (now : SystemTime) (claims : Claims) (skew : Option Duration)
      : Option Duration → OidcError → Type 0 where
    not_read :
        {max_age : Duration} (e : OidcError)
        → auth_time_seconds env claims ≡ err e
        → AuthTimeFault now claims skew (some max_age) e
    out_of_range :
        {max_age : Duration} (seconds : ℕ)
        → auth_time_seconds env claims ≡ ok seconds
        → instant_limit ≤ from_secs seconds
        → AuthTimeFault now claims skew
            (some max_age)
            (invalid_id_token (say "auth_time claim is out of range"))
    in_future :
        {max_age : Duration} (seconds : ℕ)
        → auth_time_seconds env claims ≡ ok seconds
        → from_secs seconds < instant_limit
        → now + unwrap_or skew 0 < from_secs seconds
        → AuthTimeFault now claims skew
            (some max_age)
            (invalid_id_token (say "auth_time claim is in the future"))
    too_old :
        {max_age : Duration} (seconds : ℕ)
        → auth_time_seconds env claims ≡ ok seconds
        → from_secs seconds < instant_limit
        → from_secs seconds ≤ now + unwrap_or skew 0
        → from_secs seconds + max_age + unwrap_or skew 0 < now
        → AuthTimeFault now claims skew
            (some max_age)
            (invalid_id_token (say "authentication exceeds requested max_age"))
