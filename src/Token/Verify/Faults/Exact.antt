-- ===== src/Token/Verify/Faults/Exact.antt =====
-- src/token/verify.rs: the errors of `IdTokenVerifier::verify`.
use oidc4rs.Token.Verify.Faults.Claims.{
  AzpFault-check, azp-cases, NonceFault-check, nonce-cases, AtHashFault-check, at_hash-cases,
  AuthTimeFault-check, auth_time-cases,
}
use oidc4rs.Prelude.{
  ◌<◌, ◌≡◌, refl, ◌∙◌, ◌↔◌, ◌⊎◌, inl, inr, Option, unwrap_or, Result, ◌>>◌, Result-cases,
  err_unique, ok, err, Bytes, codes,
}
use oidc4rs.Crypto.{ComparesBytes}
use oidc4rs.Error.{OidcError, Message}
use oidc4rs.Time.{instant_limit, SystemTime}
use oidc4rs.Error.{Outcome}
use oidc4rs.Token.Verify.{
  check_alg, Primitives, verify, check_azp, check_nonce, check_at_hash, check_auth_time, is_multi,
  resolve_key, IdTokenVerifier, VerifyContext, AlgorithmIdentifier, IdToken,
}
use oidc4rs.Token.Verify.Checks.{
  check_alg_iff, check_azp_claim_iff, check_nonce_claim_iff, check_at_hash_claim_iff,
  check_auth_age_iff,
}
use oidc4rs.Token.Verify.Faults.Signature.{
  AlgFault-check, KeyFault-resolve, HasClaims-verify, SignatureFault-verify, key-cases, alg-cases,
  signature-cases,
}
use oidc4rs.Token.Verify.Faults.Order.{
  IsAllowed, IsSigned, Fails, bad_alg, unknown_alg, bad_key, bad_signature, bad_azp, bad_nonce,
  bad_at_hash, bad_auth_time,
}

module _ {Claims Key Jws Json : Type 0} (env : Primitives Claims Key Jws Json)
    (select : Option Bytes → Bytes → Result Message (Option Key)) (now : SystemTime)
    (v : IdTokenVerifier) (token : IdToken Claims) (ctx : VerifyContext) where
  open env use {library}

  -- The checks on the claims.
  abbrev rules : AlgorithmIdentifier → Key → Claims → Outcome Claims
  rules alg_id key claims = do
    check_azp env claims ctx v.expected_audience
    check_nonce env claims ctx
    check_at_hash env claims ctx alg_id key
    check_auth_time env now claims ctx
    ok claims

  allowed_alg :
      {alg_id : AlgorithmIdentifier}
      → IsAllowed env select now v token ctx alg_id
      → check_alg v token.header_alg ≡ ok tt
  allowed_alg a = (check_alg_iff v token.header_alg).1 (a.listed, a.is_signed)

  IsSigned-verify :
      {alg_id : AlgorithmIdentifier} {key : Key} {claims : Claims}
      → IsSigned env select now v token ctx alg_id key claims
      → verify env select now v token ctx ≡ rules alg_id key claims
  unfolding verify resolve_key
  IsSigned-verify s =
      rw
        (
          verify,
          allowed_alg s.allowed,
          s.allowed.known,
          s.key_found,
          HasClaims-verify env s.has_claims,
        )
        refl

  module _ (law : ComparesBytes env.memcmp) (fits : now < instant_limit) where
    Fails-verify :
        {e : OidcError}
        → Fails env select now v token ctx e
        → verify env select now v token ctx ≡ err e
    unfolding verify check_azp check_nonce check_at_hash check_auth_time resolve_key
    Fails-verify (bad_alg f) = rw (verify, AlgFault-check f) refl
    Fails-verify (unknown_alg m listed signed unknown) =
        rw (verify, (check_alg_iff v token.header_alg).1 (listed, signed), unknown) refl
    Fails-verify (bad_key a f) = rw (verify, allowed_alg a, a.known, KeyFault-resolve env f) refl
    Fails-verify (bad_signature a k f) =
        rw (verify, allowed_alg a, a.known, k, SignatureFault-verify env f) refl
    Fails-verify (bad_azp s f) = IsSigned-verify s ∙ rw (AzpFault-check env f) refl
    Fails-verify (bad_nonce s z f) =
        IsSigned-verify s
        ∙ rw ((check_azp_claim_iff env _ _ _).1 z, NonceFault-check env law f) refl
    Fails-verify (bad_at_hash s z n f) =
        IsSigned-verify s
        ∙ rw
            (
              (check_azp_claim_iff env _ _ _).1 z,
              (check_nonce_claim_iff env law _ _).1 n,
              AtHashFault-check env f,
            )
            refl
    Fails-verify (bad_auth_time s z n h f) =
        IsSigned-verify s
        ∙ rw
            (
              (check_azp_claim_iff env _ _ _).1 z,
              (check_nonce_claim_iff env law _ _).1 n,
              (check_at_hash_claim_iff env _ _ _ _).1 h,
              AuthTimeFault-check env fits f,
            )
            refl

    -- The rules on signed claims.
    signed-cases :
        (alg_id : AlgorithmIdentifier) (key : Key) (claims : Claims)
        → IsSigned env select now v token ctx alg_id key claims
        → (verify env select now v token ctx ≡ ok claims)
          ⊎ ((e : OidcError) × Fails env select now v token ctx e)
    unfolding check_azp check_nonce check_at_hash check_auth_time
    signed-cases alg_id key claims s =
        elim (azp-cases env (library.string_claim claims (codes "azp"))
          (is_multi env (library.audience claims)) (unwrap_or ctx.client_id v.expected_audience)) [
            | inr (e, f) ↦ inr (e, bad_azp s f)
            | inl z ↦
                elim (nonce-cases env (library.string_claim claims (codes "nonce"))
                  ctx.expected_nonce) [
                    | inr (e, f) ↦ inr (e, bad_nonce s z f)
                    | inl n ↦
                        elim (at_hash-cases env alg_id (library.curve_name key)
                          (library.string_claim claims (codes "at_hash")) ctx.access_token) [
                            | inr (e, f) ↦ inr (e, bad_at_hash s z n f)
                            | inl h ↦
                                elim (auth_time-cases env now claims ctx.expected_max_age
                                  ctx.clock_skew) [
                                    | inr (e, f) ↦ inr (e, bad_auth_time s z n h f)
                                    | inl t ↦ inl (
                                        IsSigned-verify s
                                        ∙ rw
                                            (
                                              (check_azp_claim_iff env _ _ _).1 z,
                                              (check_nonce_claim_iff env law _ _).1 n,
                                              (check_at_hash_claim_iff env _ _ _ _).1 h,
                                              (check_auth_age_iff env now claims _ _ fits).1 t,
                                            )
                                            refl)
                                  ]
                          ]
                  ]
          ]

    allowed-cases :
        (alg_id : AlgorithmIdentifier)
        → IsAllowed env select now v token ctx alg_id
        → ((claims : Claims) × (verify env select now v token ctx ≡ ok claims))
          ⊎ ((e : OidcError) × Fails env select now v token ctx e)
    allowed-cases alg_id a = elim (key-cases env select token) [
      | inr (e, f) ↦ inr (e, bad_key a f)
      | inl (key, k) ↦ elim (signature-cases env v token key ctx) [
        | inr (e, f) ↦ inr (e, bad_signature a k f)
        | inl (claims, c) ↦
            let s : IsSigned env select now v token ctx alg_id key claims = record {
              allowed = a;
              key_found = k;
              has_claims = c;
            } in
            elim (signed-cases alg_id key claims s) [
              | inr failed ↦ inr failed
              | inl verified ↦ inl (claims, verified)
            ]
      ]
    ]

    verify-cases :
        ((claims : Claims) × (verify env select now v token ctx ≡ ok claims))
        ⊎ ((e : OidcError) × Fails env select now v token ctx e)
    verify-cases = elim (alg-cases v token.header_alg) [
      | inr (e, f) ↦ inr (e, bad_alg f)
      | inl (listed, signed) ↦ elim (Result-cases (library.algorithm_id token.header_alg)) [
        | inr (m, unknown) ↦ inr (_, unknown_alg m listed signed unknown)
        | inl (alg_id, known) ↦
            allowed-cases alg_id (record { listed = listed; is_signed = signed; known = known })
      ]
    ]

    -- For a comparison of bytes that keeps its contract and a time that fits the clock, a token is
    -- refused with an error exactly if that is the error of the first check that fails: of the
    -- algorithm, the key, the signature and the registered claims, the authorized party, the nonce,
    -- the hash of the access token, and the time of the authentication, where the checks before it
    -- hold.
    pub verify-eq-err_iff :
        (e : OidcError)
        → (verify env select now v token ctx ≡ err e) ↔ Fails env select now v token ctx e
    verify-eq-err_iff e = (
      λ h. elim verify-cases [
        | inl (claims, verified) ↦ absurd cc
        | inr (found, f) ↦
            let same = err_unique (verify env select now v token ctx) (Fails-verify f) h in
            rw (← same) f
      ],
      λ f. Fails-verify f,
    )
