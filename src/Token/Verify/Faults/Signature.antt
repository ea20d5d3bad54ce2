-- ===== src/Token/Verify/Faults/Signature.antt =====
-- src/token/verify.rs: the checks before the claims succeed, or fail with the error of one fault.
use oidc4rs.Prelude.{
  ◌≡◌, refl, ap, ◌∙◌, ◌⊎◌, inl, inr, true, false, Option, some, arith, Bool-cases, Option-cases,
  Result, Result-cases, ok, err, Bytes, codes, eqb, eq_ignore_ascii_case, any, In,
}
use oidc4rs.Error.{OidcError, Message}
use oidc4rs.Metadata.Provider.{any-eqb→In, In→any-eqb}
use oidc4rs.Token.Verify.{
  Primitives, check_alg, resolve_key, verify_signature_and_claims, IdTokenVerifier, IdToken,
  VerifyContext, id_token_config, is_utf8,
}
use oidc4rs.Token.Verify.Faults.{
  AlgFault, is_none, unlisted, KeyFault, unavailable, not_found, SignatureFault, not_compact,
  not_checked, forged, no_payload, not_text, refused,
}

pub AlgFault-check :
    {v : IdTokenVerifier} {alg : Bytes} {e : OidcError} → AlgFault v alg e → check_alg v alg ≡ err e
unfolding check_alg
AlgFault-check (is_none h) = rw h refl
AlgFault-check {v} {alg} (unlisted h absent) =
    elim (Bool-cases (any (λ a. eqb a alg) v.allowed_algs)) [
      | inl listed ↦ absurd (absent (any-eqb→In alg v.allowed_algs listed))
      | inr missing ↦ rw (h, missing) refl
    ]

pub alg-cases :
    (v : IdTokenVerifier) (alg : Bytes)
    → (In alg v.allowed_algs × (eq_ignore_ascii_case alg (codes "none") ≡ false))
      ⊎ ((e : OidcError) × AlgFault v alg e)
alg-cases v alg = elim (Bool-cases (eq_ignore_ascii_case alg (codes "none"))) [
  | inl h ↦ inr (_, is_none h)
  | inr h ↦ elim (Bool-cases (any (λ a. eqb a alg) v.allowed_algs)) [
    | inl listed ↦ inl (any-eqb→In alg v.allowed_algs listed, h)
    | inr missing ↦ inr (_, unlisted h (λ m. ground (arith, In→any-eqb m, missing)))
  ]
]

module _ {Claims Key Jws Json : Type 0} (env : Primitives Claims Key Jws Json) where
  open env use {library}

  pub KeyFault-resolve :
      {select : Option Bytes → Bytes → Result Message (Option Key)} {token : IdToken Claims}
      {e : OidcError}
      → KeyFault env select token e
      → resolve_key env select token ≡ err e
  unfolding resolve_key
  KeyFault-resolve (unavailable m h) = rw h refl
  KeyFault-resolve (not_found h) = rw h refl

  pub key-cases :
      (select : Option Bytes → Bytes → Result Message (Option Key)) (token : IdToken Claims)
      → ((key : Key) × (select token.header_kid token.header_alg ≡ ok (some key)))
        ⊎ ((e : OidcError) × KeyFault env select token e)
  key-cases select token = elim (Result-cases (select token.header_kid token.header_alg)) [
    | inr (m, h) ↦ inr (_, unavailable m h)
    | inl (found, h) ↦ elim (Option-cases found) [
      | inl nothing ↦ inr (_, not_found (h ∙ ap (λ k. ok k) nothing))
      | inr (key, something) ↦ inl (key, h ∙ ap (λ k. ok k) something)
    ]
  ]

  pub SignatureFault-verify :
      {v : IdTokenVerifier} {token : IdToken Claims} {key : Key} {ctx : VerifyContext}
      {e : OidcError}
      → SignatureFault env v token key ctx e
      → verify_signature_and_claims env v token key ctx ≡ err e
  unfolding verify_signature_and_claims
  SignatureFault-verify (not_compact m a) = rw a refl
  SignatureFault-verify (not_checked jws m a b) = rw (a, b) refl
  SignatureFault-verify (forged jws a b) = rw (a, b) refl
  SignatureFault-verify (no_payload jws m a b c) = rw (a, b, c) refl
  SignatureFault-verify (not_text jws bytes a b c d) = rw (a, b, c, d) refl
  SignatureFault-verify (refused jws bytes m a b c d x) = rw (a, b, c, d, x) refl

  -- The claims of a payload that the key signed.
  pub record HasClaims (v : IdTokenVerifier) (token : IdToken Claims) (key : Key)
      (ctx : VerifyContext) (claims : Claims) : Type 0 where
    pub jws : Jws
    pub bytes : Bytes
    pub parsed : library.from_compact token.raw ≡ ok jws
    pub genuine : library.verify_signature jws key ≡ ok true
    pub signed : library.payload jws key ≡ ok bytes
    pub readable : is_utf8 bytes ≡ true
    pub accepted : library.process_to_claims (id_token_config env v ctx) bytes ≡ ok claims

  pub HasClaims-verify :
      {v : IdTokenVerifier} {token : IdToken Claims} {key : Key} {ctx : VerifyContext}
      {claims : Claims}
      → HasClaims v token key ctx claims
      → verify_signature_and_claims env v token key ctx ≡ ok claims
  unfolding verify_signature_and_claims
  HasClaims-verify h = rw (h.parsed, h.genuine, h.signed, h.readable, h.accepted) refl

  pub signature-cases :
      (v : IdTokenVerifier) (token : IdToken Claims) (key : Key) (ctx : VerifyContext)
      → ((claims : Claims) × HasClaims v token key ctx claims)
        ⊎ ((e : OidcError) × SignatureFault env v token key ctx e)
  signature-cases v token key ctx = elim (Result-cases (library.from_compact token.raw)) [
    | inr (m, a) ↦ inr (_, not_compact m a)
    | inl (jws, a) ↦ elim (Result-cases (library.verify_signature jws key)) [
      | inr (m, b) ↦ inr (_, not_checked jws m a b)
      | inl (false, b) ↦ inr (_, forged jws a b)
      | inl (true, b) ↦ elim (Result-cases (library.payload jws key)) [
        | inr (m, c) ↦ inr (_, no_payload jws m a b c)
        | inl (bytes, c) ↦ elim (Bool-cases (is_utf8 bytes)) [
          | inr d ↦ inr (_, not_text jws bytes a b c d)
          | inl d ↦
              elim (Result-cases (library.process_to_claims (id_token_config env v ctx) bytes)) [
                | inr (m, x) ↦ inr (_, refused jws bytes m a b c d x)
                | inl (claims, x) ↦ inl (
                  claims,
                  record {
                    jws = jws;
                    bytes = bytes;
                    parsed = a;
                    genuine = b;
                    signed = c;
                    readable = d;
                    accepted = x;
                  },
                )
              ]
        ]
      ]
    ]
  ]
