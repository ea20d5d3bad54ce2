-- ===== src/Token/Verify/Faults/Order.antt =====
-- src/token/verify.rs: the order of the checks of `IdTokenVerifier::verify`.
use oidc4rs.Prelude.{
  ◌≡◌, false, Option, some, unwrap_or, Result, ok, err, Bytes, codes, eq_ignore_ascii_case, In,
}
use oidc4rs.Error.{OidcError, Message, unsupported_algorithm}
use oidc4rs.Time.{SystemTime}
use oidc4rs.Token.Verify.{
  Primitives, is_multi, IdTokenVerifier, VerifyContext, AlgorithmIdentifier, IdToken,
}
use oidc4rs.Token.Verify.Checks.{AzpHolds, NonceHolds, AtHashHolds}
use oidc4rs.Token.Verify.Faults.{
  AlgFault, KeyFault, SignatureFault, AzpFault, NonceFault, AtHashFault, AuthTimeFault,
}
use oidc4rs.Token.Verify.Faults.Signature.{HasClaims}

module _ {Claims Key Jws Json : Type 0} (env : Primitives Claims Key Jws Json)
    (select : Option Bytes → Bytes → Result Message (Option Key)) (now : SystemTime)
    (v : IdTokenVerifier) (token : IdToken Claims) (ctx : VerifyContext) where
  open env use {library}

  -- The header's algorithm is allowed, and known to jose4rs.
  pub record IsAllowed (alg_id : AlgorithmIdentifier) : Type 0 where
    pub listed : In token.header_alg v.allowed_algs
    pub is_signed : eq_ignore_ascii_case token.header_alg (codes "none") ≡ false
    pub known : library.algorithm_id token.header_alg ≡ ok alg_id

  -- And the claims were signed by a key for it.
  pub record IsSigned (alg_id : AlgorithmIdentifier) (key : Key) (claims : Claims) : Type 0 where
    pub allowed : IsAllowed alg_id
    pub key_found : select token.header_kid token.header_alg ≡ ok (some key)
    pub has_claims : HasClaims env v token key ctx claims

  abbrev pub AzpIsRight : Claims → Type 0
  AzpIsRight claims =
      AzpHolds (library.string_claim claims (codes "azp")) (is_multi env (library.audience claims))
        (unwrap_or ctx.client_id v.expected_audience)

  abbrev pub NonceIsRight : Claims → Type 0
  NonceIsRight claims = NonceHolds (library.string_claim claims (codes "nonce")) ctx.expected_nonce

  abbrev pub AtHashIsRight : AlgorithmIdentifier → Key → Claims → Type 0
  AtHashIsRight alg_id key claims =
      AtHashHolds env (library.string_claim claims (codes "at_hash")) ctx.access_token alg_id
        (library.curve_name key)

  -- The first check that fails.
  pub data Fails : OidcError → Type 0 where
    bad_alg : {e : OidcError} → AlgFault v token.header_alg e → Fails e
    unknown_alg :
        (m : Message)
        → In token.header_alg v.allowed_algs
        → eq_ignore_ascii_case token.header_alg (codes "none") ≡ false
        → library.algorithm_id token.header_alg ≡ err m
        → Fails (unsupported_algorithm m)
    bad_key :
        {alg_id : AlgorithmIdentifier} {e : OidcError}
        → IsAllowed alg_id
        → KeyFault env select token e
        → Fails e
    bad_signature :
        {alg_id : AlgorithmIdentifier} {key : Key} {e : OidcError}
        → IsAllowed alg_id
        → select token.header_kid token.header_alg ≡ ok (some key)
        → SignatureFault env v token key ctx e
        → Fails e
    bad_azp :
        {alg_id : AlgorithmIdentifier} {key : Key} {claims : Claims} {e : OidcError}
        → IsSigned alg_id key claims
        → AzpFault env
            (library.string_claim claims (codes "azp"))
            (is_multi env (library.audience claims))
            (unwrap_or ctx.client_id v.expected_audience)
            e
        → Fails e
    bad_nonce :
        {alg_id : AlgorithmIdentifier} {key : Key} {claims : Claims} {e : OidcError}
        → IsSigned alg_id key claims
        → AzpIsRight claims
        → NonceFault env (library.string_claim claims (codes "nonce")) ctx.expected_nonce e
        → Fails e
    bad_at_hash :
        {alg_id : AlgorithmIdentifier} {key : Key} {claims : Claims} {e : OidcError}
        → IsSigned alg_id key claims
        → AzpIsRight claims
        → NonceIsRight claims
        → AtHashFault env alg_id
            (library.curve_name key)
            (library.string_claim claims (codes "at_hash"))
            ctx.access_token
            e
        → Fails e
    bad_auth_time :
        {alg_id : AlgorithmIdentifier} {key : Key} {claims : Claims} {e : OidcError}
        → IsSigned alg_id key claims
        → AzpIsRight claims
        → NonceIsRight claims
        → AtHashIsRight alg_id key claims
        → AuthTimeFault env now claims ctx.clock_skew ctx.expected_max_age e
        → Fails e
