-- ===== src/Client/Complete/Refusal/Cases.antt =====
-- src/client.rs: a token request is made, or there is one of the reasons of a refusal.
use oidc4rs.Flow.Token.Method.{from_metadata_sound}
use oidc4rs.Client.Complete.Sound.{IsAuthorized, prepare_token_request-IsAuthorized}
use oidc4rs.Client.Complete.Refusal.{
  IsCurrent, IsTrusted, Refusal, denied, expired, from_future, no_issuer, no_method, not_built,
  other_issuer, other_state, Brings, default_ttl,
}
use oidc4rs.Client.Complete.{
  Readers, RelyingParty, SystemTime, ProviderMetadata, PendingAuthRequest, BuiltTokenRequest,
  prepare_token_request, exchange_code_with_metadata, error, success,
}
use oidc4rs.Prelude.{
  ◌+◌, ◌≡◌, refl, ◌⊎◌, inl, inr, Option, Bool-cases, le-cases, Option-cases, Bytes, eqb-cases,
}
use oidc4rs.Error.{OidcError}
use oidc4rs.Flow.Callback
use oidc4rs.Flow.Callback.{AuthorizationResponse}
use oidc4rs.Client.Complete.Sound.{with_pending-eq}
use oidc4rs.Client.Complete.Refusal.{IsTrusted, IsCurrent}
use oidc4rs.Flow.Token.{TokenOps}
use oidc4rs.Client.Complete.Refusal.Exact.{
  IsCurrent-checked, IsTrusted-checked, Brings-checked, OffersNone-cases, Lacks-cases,
}

module _ (tokens : TokenOps) (readers : Readers) (rp : RelyingParty) (now : SystemTime)
    (metadata : ProviderMetadata) (response : AuthorizationResponse)
    (pending : PendingAuthRequest) where
  -- Of a trusted callback with a code comes the one request, or what is missing.
  Brings-cases :
      (code : Bytes)
      → Brings rp now metadata response pending code
      → ((built : BuiltTokenRequest) × IsAuthorized tokens readers rp now metadata response pending
            built)
        ⊎ ((e : OidcError) × Refusal rp now metadata response pending e)
  unfolding prepare_token_request exchange_code_with_metadata
  Brings-cases code b = elim (OffersNone-cases tokens readers rp now metadata response pending) [
    | inr (e, o) ↦ inr (e, no_method b o)
    | inl (method, chosen) ↦
        elim (Lacks-cases tokens readers rp now metadata response pending code method
          (from_metadata_sound _ _ method chosen).1) [
            | inr (e, l) ↦ inr (e, not_built b chosen l)
            | inl (built, made) ↦ inl (
              built,
              prepare_token_request-IsAuthorized tokens readers rp now metadata response pending
                  built
                  (rw
                    (
                      prepare_token_request,
                      IsCurrent-checked tokens readers rp now metadata response pending
                          b.trusted.current,
                      IsTrusted-checked tokens readers rp now metadata response pending b.trusted,
                      Brings-checked tokens readers rp now metadata response pending b,
                      exchange_code_with_metadata,
                      chosen,
                      with_pending-eq rp metadata method code pending,
                      made,
                    )
                    refl),
            )
          ]
  ]

  response-cases :
      (r : AuthorizationResponse)
      → ((code : Bytes) × (r ≡ success code (Callback.state r) (Callback.issuer r)))
        ⊎ ((e : Bytes) × (description : Option Bytes) × (error_uri : Option Bytes) × (r
              ≡ error e description error_uri (Callback.state r) (Callback.issuer r)))
  unfolding Callback.state Callback.issuer
  response-cases (success code st iss) = inl (code, refl)
  response-cases (error e description error_uri st iss) = inr (e, description, error_uri, refl)

  IsTrusted-cases :
      IsTrusted rp now metadata response pending
      → ((code : Bytes) × Brings rp now metadata response pending code)
        ⊎ ((e : OidcError) × Refusal rp now metadata response pending e)
  IsTrusted-cases t = elim (response-cases response) [
    | inl (code, is_success) ↦ inl (code, record { trusted = t; is_success = is_success })
    | inr (e, description, error_uri, is_error) ↦ inr (_, denied t is_error)
  ]

  -- Whatever is current is trusted, or refused for the issuer that it names or does not name.
  IsCurrent-cases :
      IsCurrent rp now metadata response pending
      → IsTrusted rp now metadata response pending
        ⊎ ((e : OidcError) × Refusal rp now metadata response pending e)
  IsCurrent-cases c = elim (Option-cases (Callback.issuer response)) [
    | inl unnamed ↦ elim (Bool-cases metadata.authorization_response_iss_parameter_supported) [
      | inl required ↦ inr (_, no_issuer c unnamed required)
      | inr optional ↦ inl (record { current = c; issuer_holds = rw unnamed optional })
    ]
    | inr (actual, named) ↦ elim (eqb-cases actual metadata.issuer.serialized) [
      | inl same ↦ inl (record { current = c; issuer_holds = rw named same })
      | inr other ↦ inr (_, other_issuer actual c named other)
    ]
  ]

  state-cases :
      IsCurrent rp now metadata response pending
      ⊎ ((e : OidcError) × Refusal rp now metadata response pending e)
  state-cases = elim (eqb-cases pending.state (Callback.state response)) [
    | inr d ↦ inr (_, other_state d)
    | inl same ↦ elim (le-cases pending.created_at now) [
      | inr late ↦ inr (_, from_future same late)
      | inl past ↦ elim (le-cases now (pending.created_at + default_ttl)) [
        | inr old ↦ inr (_, expired same old)
        | inl young ↦ inl (record { same_state = same; past = past; young = young })
      ]
    ]
  ]

  pub prepare_token_request-cases :
      ((built : BuiltTokenRequest) × IsAuthorized tokens readers rp now metadata response pending
          built)
      ⊎ ((e : OidcError) × Refusal rp now metadata response pending e)
  prepare_token_request-cases = elim state-cases [
    | inr refused ↦ inr refused
    | inl c ↦ elim (IsCurrent-cases c) [
      | inr refused ↦ inr refused
      | inl t ↦ elim (IsTrusted-cases t) [
        | inr refused ↦ inr refused
        | inl (code, b) ↦ Brings-cases code b
      ]
    ]
  ]
