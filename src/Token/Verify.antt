-- ===== src/Token/Verify.antt =====
-- src/token/verify.rs: ID-token verification.
pub mod Checks
pub mod Sound
pub mod Faults
use oidc4rs.Prelude.{
  ℕ, ◌/◌, Bool, true, false, not, ◌||◌, Option, none, some, List, [], ◌∷◌, ◌++◌, ltb, if◌then◌else◌,
  unwrap_or, ◌>>=?◌, Result, ◌>>=◌, ◌>>◌, ensure, ok_or, map_err, ok, err, Bytes, codes, eqb,
  eq_ignore_ascii_case, length, any, retain, take,
}
use oidc4rs.Error.{
  Message, Outcome, unsupported_algorithm, invalid_id_token, jose, no_matching_jwk,
  invalid_authorization_request, at_hash_mismatch, say, arg, lit,
}
use oidc4rs.Time.{Duration, SystemTime, checked_add, from_secs}
use oidc4rs.Crypto.{Digests, ct_equals}
use oidc4rs.Token.Jose.{
  Jose, ConsumerConfig, AlgorithmIdentifier, no_alg, hmac_sha256, hmac_sha384, hmac_sha512,
  rsa_sha256, rsa_sha384, rsa_sha512, ecdsa_p256_sha256, ecdsa_p384_sha384, ecdsa_p521_sha512,
  ecdsa_secp256k1_sha256, rsa_pss_sha256, rsa_pss_sha384, rsa_pss_sha512, eddsa,
}
use oidc4rs.Token.Response.{IdToken}
use oidc4rs.Metadata.Provider.{ProviderMetadata}
use oidc4rs.Flow.Callback.{is_utf8}

-- `VerifyContext`.
pub record VerifyContext : Type 0 where
  pub expected_nonce : Option Bytes
  pub access_token : Option Bytes
  pub client_id : Option Bytes
  pub clock_skew : Option Duration
  pub expected_max_age : Option Duration

-- `DEFAULT_ALLOWED_ALGS`.
abbrev pub default_allowed_algs : List Bytes
default_allowed_algs =
    codes "RS256"
    ∷ codes "RS384"
    ∷ codes "RS512"
    ∷ codes "ES256"
    ∷ codes "ES384"
    ∷ codes "ES512"
    ∷ codes "PS256"
    ∷ codes "PS384"
    ∷ codes "PS512"
    ∷ codes "EdDSA"
    ∷ []

-- `is_forbidden_alg`.
unfoldable pub is_forbidden_alg : Bytes → Bool
is_forbidden_alg alg =
    eq_ignore_ascii_case alg (codes "none")
    || (eqb alg (codes "HS256") || (eqb alg (codes "HS384") || eqb alg (codes "HS512")))

-- `IdTokenVerifier`.
pub record IdTokenVerifier : Type 0 where
  pub expected_issuer : Bytes
  pub expected_audience : Bytes
  pub allowed_algs : List Bytes

unfoldable pub new_verifier : Bytes → Bytes → IdTokenVerifier
new_verifier issuer audience = record {
  expected_issuer = issuer;
  expected_audience = audience;
  allowed_algs = default_allowed_algs;
}

unfoldable pub from_metadata : ProviderMetadata → Bytes → IdTokenVerifier
from_metadata metadata audience = record {
  expected_issuer = metadata.issuer.serialized;
  expected_audience = audience;
  allowed_algs =
      retain (λ alg. not (is_forbidden_alg alg)) metadata.id_token_signing_alg_values_supported;
}

unfoldable pub allow_alg : IdTokenVerifier → Bytes → IdTokenVerifier
allow_alg v alg = record v { allowed_algs = v.allowed_algs ++ (alg ∷ []) }

unfoldable pub with_allowed_algs : IdTokenVerifier → List Bytes → IdTokenVerifier
with_allowed_algs v algs = record v { allowed_algs = algs }

abbrev pub Check : Type 0
Check = Outcome (Unit {0})

unfoldable pub check_alg : IdTokenVerifier → Bytes → Check
check_alg v alg = do
  ensure (not (eq_ignore_ascii_case alg (codes "none")))
      (unsupported_algorithm (say "the `none` algorithm is never accepted for ID tokens"))
  ensure (any (λ a. eqb a alg) v.allowed_algs) (unsupported_algorithm (arg alg ∷ []))

-- The half of a digest that `at_hash` encodes.
abbrev pub left_half : Bytes → Bytes
left_half digest = take (length digest / 2) digest

-- The digest that a signature algorithm goes with.
unfoldable pub at_hash_digest :
    Digests → AlgorithmIdentifier → Option Bytes → Option (Bytes → Bytes)
at_hash_digest d hmac_sha256 curve = some d.sha256
at_hash_digest d rsa_sha256 curve = some d.sha256
at_hash_digest d ecdsa_p256_sha256 curve = some d.sha256
at_hash_digest d rsa_pss_sha256 curve = some d.sha256
at_hash_digest d ecdsa_secp256k1_sha256 curve = some d.sha256
at_hash_digest d hmac_sha384 curve = some d.sha384
at_hash_digest d rsa_sha384 curve = some d.sha384
at_hash_digest d ecdsa_p384_sha384 curve = some d.sha384
at_hash_digest d rsa_pss_sha384 curve = some d.sha384
at_hash_digest d hmac_sha512 curve = some d.sha512
at_hash_digest d rsa_sha512 curve = some d.sha512
at_hash_digest d ecdsa_p521_sha512 curve = some d.sha512
at_hash_digest d rsa_pss_sha512 curve = some d.sha512
at_hash_digest d eddsa none = none
at_hash_digest d eddsa (some curve) = if eqb curve (codes "Ed25519") then some d.sha512 else none
at_hash_digest d no_alg curve = none

-- Everything that verification is given from outside: jose4rs, the C library and base64.
pub record Primitives (Claims Key Jws Json : Type 0) : Type 0 where
  pub library : Jose Claims Key Jws Json
  pub memcmp : Bytes → Bytes → ℕ → ℕ
  pub digests : Digests
  pub base64_url : Bytes → Bytes

module _ {Claims Key Jws Json : Type 0} (env : Primitives Claims Key Jws Json) where
  -- `calculate_at_hash`.
  unfoldable pub calculate_at_hash : Bytes → AlgorithmIdentifier → Option Bytes → Outcome Bytes
  calculate_at_hash token alg_id curve = elim (at_hash_digest env.digests alg_id curve) [
    | none ↦ err (
        unsupported_algorithm (
          arg (env.library.algorithm_name alg_id)
          ∷ lit " does not identify an at_hash digest"
          ∷ []))
    | some digest ↦ ok (env.base64_url (left_half (digest token)))
  ]

  -- `resolve_key`, on the answer of the key cache.
  unfoldable pub resolve_key :
      (Option Bytes → Bytes → Result Message (Option Key)) → IdToken Claims → Outcome Key
  resolve_key select token = do
    key ← map_err jose (select token.header_kid token.header_alg)
    ok_or key (no_matching_jwk token.header_kid token.header_alg)

  abbrev pub id_token_config : IdTokenVerifier → VerifyContext → ConsumerConfig
  id_token_config v ctx = record {
    expected_issuer = v.expected_issuer;
    expected_audience = v.expected_audience ∷ [];
    require_audience = true;
    require_subject = true;
    require_issued_at = true;
    require_expiration_time = true;
    clock_skew = ctx.clock_skew;
  }

  unfoldable pub verify_signature_and_claims :
      IdTokenVerifier → IdToken Claims → Key → VerifyContext → Outcome Claims
  verify_signature_and_claims v token key ctx = do
    jws ← map_err jose (env.library.from_compact token.raw)
    genuine ← map_err jose (env.library.verify_signature jws key)
    ensure genuine (invalid_id_token (say "JWS signature is invalid"))
    payload ← map_err jose (env.library.payload jws key)
    ensure (is_utf8 payload) (invalid_id_token (say "JWT payload is not valid UTF-8"))
    map_err invalid_id_token (env.library.process_to_claims (id_token_config v ctx) payload)

  -- `claims.audience().is_some_and(|aud| aud.len() > 1)`.
  abbrev pub is_multi : Option (List Bytes) → Bool
  is_multi none = false
  is_multi (some aud) = ltb 1 (length aud)

  -- What `check_azp` does with the claim and with the number of audiences.
  unfoldable pub check_azp_claim : Option Bytes → Bool → Bytes → Check
  check_azp_claim none multi expected =
      if multi
      then err (invalid_id_token (say "azp claim required when aud has multiple values"))
      else ok tt
  check_azp_claim (some azp) multi expected =
      ensure (eqb azp expected) (invalid_id_token (say "azp does not match client_id"))

  unfoldable pub check_azp : Claims → VerifyContext → Bytes → Check
  check_azp claims ctx expected_audience =
      check_azp_claim (env.library.string_claim claims (codes "azp"))
        (is_multi (env.library.audience claims)) (unwrap_or ctx.client_id expected_audience)

  unfoldable pub check_nonce_claim : Option Bytes → Option Bytes → Check
  check_nonce_claim claim none = ok tt
  check_nonce_claim claim (some expected) = do
    got ← ok_or claim (invalid_id_token (say "nonce claim required"))
    ensure (ct_equals env.memcmp got expected)
        (invalid_id_token (say "nonce does not match expected"))

  unfoldable pub check_nonce : Claims → VerifyContext → Check
  check_nonce claims ctx =
      check_nonce_claim (env.library.string_claim claims (codes "nonce")) ctx.expected_nonce

  unfoldable pub check_at_hash_claim :
      Option Bytes → Option Bytes → AlgorithmIdentifier → Option Bytes → Check
  check_at_hash_claim none access_token alg_id curve = ok tt
  check_at_hash_claim (some at_hash) given alg_id curve = do
    access_token ← ok_or given (
        invalid_authorization_request
          (say "access_token required in VerifyContext to validate at_hash"))
    expected ← calculate_at_hash access_token alg_id curve
    ensure (eqb at_hash expected) at_hash_mismatch

  unfoldable pub check_at_hash : Claims → VerifyContext → AlgorithmIdentifier → Key → Check
  check_at_hash claims ctx alg_id key =
      check_at_hash_claim (env.library.string_claim claims (codes "at_hash")) ctx.access_token
        alg_id (env.library.curve_name key)

  -- `is_some_and`, on a deadline.
  abbrev pub exceeds : Option ℕ → (ℕ → Bool) → Bool
  exceeds none p = false
  exceeds (some t) p = p t

  -- The comparisons of `check_auth_time`, at the time that it reads.
  unfoldable pub check_auth_instant : SystemTime → SystemTime → Duration → Duration → Check
  check_auth_instant now auth_time max_age skew = do
    ensure (not (exceeds (checked_add now skew) (λ latest. ltb latest auth_time)))
        (invalid_id_token (say "auth_time claim is in the future"))
    ensure
        (not (
          exceeds (checked_add auth_time max_age >>=? (λ deadline. checked_add deadline skew))
            (λ deadline. ltb deadline now)))
        (invalid_id_token (say "authentication exceeds requested max_age"))

  -- The claim as a number of seconds.
  unfoldable pub auth_time_seconds : Claims → Outcome ℕ
  auth_time_seconds claims = do
    value ←
        map_err (λ _. invalid_id_token (say "JWT claims could not be inspected"))
          (env.library.json_value (env.library.to_json claims))
    auth_time ←
        ok_or (env.library.json_get value (codes "auth_time"))
          (invalid_id_token (say "auth_time claim required when max_age was requested"))
    ok_or (env.library.as_u64 auth_time)
        (invalid_id_token (say "auth_time claim must be a non-negative integer"))

  unfoldable pub check_auth_age : SystemTime → Claims → Option Duration → Option Duration → Check
  check_auth_age now claims none skew = ok tt
  check_auth_age now claims (some max_age) skew = do
    seconds ← auth_time_seconds claims
    auth_time ←
        ok_or (checked_add 0 (from_secs seconds))
          (invalid_id_token (say "auth_time claim is out of range"))
    check_auth_instant now auth_time max_age (unwrap_or skew 0)

  unfoldable pub check_auth_time : SystemTime → Claims → VerifyContext → Check
  check_auth_time now claims ctx = check_auth_age now claims ctx.expected_max_age ctx.clock_skew

  -- `IdTokenVerifier::verify`; `select` is the key cache's answer, `now` the time that the check of
  -- `auth_time` reads.
  unfoldable pub verify :
      (Option Bytes → Bytes → Result Message (Option Key))
      → SystemTime
      → IdTokenVerifier
      → IdToken Claims
      → VerifyContext
      → Outcome Claims
  verify select now v token ctx = do
    check_alg v token.header_alg
    alg_id ← map_err unsupported_algorithm (env.library.algorithm_id token.header_alg)
    key ← resolve_key select token
    claims ← verify_signature_and_claims v token key ctx
    check_azp claims ctx v.expected_audience
    check_nonce claims ctx
    check_at_hash claims ctx alg_id key
    check_auth_time now claims ctx
    ok claims
