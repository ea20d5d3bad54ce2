-- ===== src/Client/Complete/Refusal/Exact.antt =====
-- src/client.rs: each reason of a refusal is the error of the preparation.
use oidc4rs.Flow.Authorize.Pending.{validate_created_at_lem}
use oidc4rs.Client.Complete.Live.{code_of-success}
use oidc4rs.Flow.Token.Method.{from_metadata_sound}
use oidc4rs.Flow.Token.Build.{build_code_request_iff}
use oidc4rs.Client.Complete.Sound.{
  validate_pending_request_iff, check_response_issuer_iff, code_request,
}
use oidc4rs.Client.Complete.Refusal.{
  IsCurrent, IsTrusted, Lacks, OffersNone, Refusal, a_code, a_redirect, a_verifier, denied, expired,
  from_future, lists, no_issuer, no_method, not_built, other_issuer, other_state, to_public,
  to_secret, Brings, pending_authorization_from_future, default_ttl, pending_authorization_expired,
}
use oidc4rs.Client.Complete.{
  Readers, RelyingParty, SystemTime, ProviderMetadata, PendingAuthRequest, validate_pending_request,
  check_response_issuer, BuiltTokenRequest, prepare_token_request, exchange_code_with_metadata,
  code_of, error, authorization_response, provider_error,
}
use oidc4rs.Prelude.{
  ℕ, ◌+◌, ◌<◌, ◌≡◌, refl, ◌⊎◌, inl, inr, true, ◌||◌, Option, [], ◌∷◌, arith, if◌then◌else◌,
  Bool-cases, Option-cases, is_some, ok, err, Bytes, eqb_iff,
}
use oidc4rs.Error.{OidcError}
use oidc4rs.Flow.Callback
use oidc4rs.Flow.Callback.{AuthorizationResponse}
use oidc4rs.Client.Complete.Sound.{with_pending-eq}
use oidc4rs.Client.Complete.Refusal.{
  to_secret, to_public, a_code, a_redirect, a_verifier, IsTrusted, IsCurrent,
}
use oidc4rs.Flow.Token.{
  basic, no_auth, code_form, request_for, needs_secret, from_metadata, build_code_request,
  needs_secret, TokenOps, TokenAuthMethod,
}

module _ (tokens : TokenOps) (readers : Readers) (rp : RelyingParty) (now : SystemTime)
    (metadata : ProviderMetadata) (response : AuthorizationResponse)
    (pending : PendingAuthRequest) where
  pub IsCurrent-checked :
      IsCurrent rp now metadata response pending
      → validate_pending_request pending (Callback.state response) now ≡ ok tt
  IsCurrent-checked c =
      (validate_pending_request_iff pending (Callback.state response) now).1
        (c.same_state, c.past, c.young)

  pub IsTrusted-checked :
      IsTrusted rp now metadata response pending
      → check_response_issuer metadata (Callback.issuer response) ≡ ok tt
  IsTrusted-checked t =
      (check_response_issuer_iff metadata (Callback.issuer response)).1 t.issuer_holds

  OffersNone-from_metadata :
      {e : OidcError}
      → OffersNone rp now metadata response pending e
      → from_metadata metadata.token_endpoint_auth_methods_supported (is_some rp.client_secret)
        ≡ err e
  unfolding from_metadata
  OffersNone-from_metadata (to_secret supported s l b p) = rw (s, l, b, p) refl
  OffersNone-from_metadata (to_public supported s l n) = rw (s, l, n) refl

  pub OffersNone-cases :
      ((method : TokenAuthMethod) × (from_metadata metadata.token_endpoint_auth_methods_supported
            (is_some rp.client_secret)
          ≡ ok method))
      ⊎ ((e : OidcError) × OffersNone rp now metadata response pending e)
  unfolding from_metadata
  OffersNone-cases = elim (Option-cases metadata.token_endpoint_auth_methods_supported) [
    | inl unlisted ↦ inl ((if is_some rp.client_secret then basic else no_auth), rw unlisted refl)
    | inr (supported, l) ↦ elim (Bool-cases (is_some rp.client_secret)) [
      | inr public ↦ elim (Bool-cases (lists "none" supported)) [
        | inl offered ↦ inl (no_auth, rw (l, public, offered) refl)
        | inr n ↦ inr (_, to_public supported public l n)
      ]
      | inl secret ↦ elim (Bool-cases (lists "client_secret_basic" supported)) [
        | inl offered ↦ inl (basic, rw (l, secret, offered) refl)
        | inr b ↦ elim (Bool-cases (lists "client_secret_post" supported)) [
          | inl offered ↦ inl (TokenAuthMethod.post, rw (l, secret, b, offered) refl)
          | inr p ↦ inr (_, to_secret supported secret l b p)
        ]
      ]
    ]
  ]

  Lacks-build :
      {code : Bytes} {e : OidcError} (method : TokenAuthMethod)
      → needs_secret method ≡ is_some rp.client_secret
      → Lacks rp now metadata response pending code e
      → build_code_request tokens (code_request rp metadata method code pending) ≡ err e
  unfolding build_code_request
  Lacks-build method n (a_code h) = ground arith
  Lacks-build method n (a_redirect h r) = ground arith
  Lacks-build method n (a_verifier h r s v) = ground arith

  complete :
      (c : ℕ) (s : Bytes) (method : TokenAuthMethod)
      → needs_secret method ≡ is_some rp.client_secret
      → is_some pending.redirect_uri ≡ true
      → (needs_secret method || is_some pending.pkce_verifier) ≡ true
      → build_code_request tokens (code_request rp metadata method (c ∷ s) pending)
        ≡ ok (
            request_for tokens metadata.token_endpoint method rp.client_id rp.client_secret
              (code_form tokens (code_request rp metadata method (c ∷ s) pending)))
  complete c s method n r v =
      (build_code_request_iff tokens (code_request rp metadata method (c ∷ s) pending) _).1 (
        record {
          secret_known = ground arith;
          has_code = λ e. cc;
          has_redirect = r;
          proves_possession = v;
        },
        refl,
      )

  pub Lacks-cases :
      (code : Bytes) (method : TokenAuthMethod)
      → needs_secret method ≡ is_some rp.client_secret
      → ((built : BuiltTokenRequest) × (build_code_request tokens
              (code_request rp metadata method code pending)
            ≡ ok built))
        ⊎ ((e : OidcError) × Lacks rp now metadata response pending code e)
  Lacks-cases [] method n = inr (_, a_code refl)
  Lacks-cases (c ∷ s) method n = elim (Option-cases pending.redirect_uri) [
    | inl r ↦ inr (_, a_redirect (λ e. cc) r)
    | inr (uri, r) ↦ elim (Option-cases pending.pkce_verifier) [
      | inr (v, proved) ↦
          inl (_, complete c s method n (ground (arith, r)) (ground (arith, proved)))
      | inl unproved ↦ elim (Bool-cases (is_some rp.client_secret)) [
        | inl secret ↦
            inl (_, complete c s method n (ground (arith, r)) (ground (arith, secret, n)))
        | inr public ↦ inr (_, a_verifier (λ e. cc) (ground (arith, r)) public unproved)
      ]
    ]
  ]

  pub Brings-checked :
      {code : Bytes}
      → Brings rp now metadata response pending code
      → code_of response (Callback.state response) ≡ ok code
  unfolding code_of
  Brings-checked b = (code_of-success response (Callback.state response) _ _ _ b.is_success).0

  code_of-denied :
      {e : Bytes} {description error_uri iss : Option Bytes} {st : Bytes} (state : Bytes)
      → response ≡ error e description error_uri st iss
      → code_of response state
        ≡ err (authorization_response (provider_error e description error_uri state iss))
  unfolding code_of
  code_of-denied state h = rw h refl

  validate_from_future :
      pending.state ≡ Callback.state response
      → now < pending.created_at
      → validate_pending_request pending (Callback.state response) now
        ≡ err pending_authorization_from_future
  unfolding validate_pending_request
  validate_from_future same late =
      let bound = (eqb_iff pending.state (Callback.state response)).1 same in
      rw (validate_pending_request, bound, (validate_created_at_lem pending now).1.1 late) refl

  validate_expired :
      pending.state ≡ Callback.state response
      → pending.created_at + default_ttl < now
      → validate_pending_request pending (Callback.state response) now
        ≡ err pending_authorization_expired
  unfolding validate_pending_request
  validate_expired same old =
      let bound = (eqb_iff pending.state (Callback.state response)).1 same in
      rw (validate_pending_request, bound, (validate_created_at_lem pending now).2.1 old) refl

  pub Refusal-prepare :
      {e : OidcError}
      → Refusal rp now metadata response pending e
      → prepare_token_request tokens readers rp now metadata response pending ≡ err e
  unfolding prepare_token_request exchange_code_with_metadata validate_pending_request
      check_response_issuer
  Refusal-prepare (other_state d) = ground (arith, eqb_iff pending.state (Callback.state response))
  Refusal-prepare (from_future same late) =
      rw (prepare_token_request, validate_from_future same late) refl
  Refusal-prepare (expired same old) = rw (prepare_token_request, validate_expired same old) refl
  Refusal-prepare (other_issuer actual c named other) =
      rw (prepare_token_request, IsCurrent-checked c, named)
        (ground (arith, eqb_iff actual metadata.issuer.serialized))
  Refusal-prepare (no_issuer c unnamed required) =
      rw (prepare_token_request, IsCurrent-checked c, unnamed, required) refl
  Refusal-prepare (denied t is_error) =
      rw
        (
          prepare_token_request,
          IsCurrent-checked t.current,
          IsTrusted-checked t,
          code_of-denied (Callback.state response) is_error,
        )
        refl
  Refusal-prepare (no_method b o) =
      rw
        (
          prepare_token_request,
          IsCurrent-checked b.trusted.current,
          IsTrusted-checked b.trusted,
          Brings-checked b,
          OffersNone-from_metadata o,
        )
        refl
  Refusal-prepare (not_built {code} {e} {method} b chosen l) =
      rw
        (
          prepare_token_request,
          IsCurrent-checked b.trusted.current,
          IsTrusted-checked b.trusted,
          Brings-checked b,
          chosen,
          with_pending-eq rp metadata method code pending,
          Lacks-build method (from_metadata_sound _ _ method chosen).1 l,
        )
        refl
