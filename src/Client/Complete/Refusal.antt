-- ===== src/Client/Complete/Refusal.antt =====
-- src/client.rs: every reason for which no token request is made of a callback and the pending
-- request that was kept for it.
pub mod Exact
pub mod Cases
use oidc4rs.Prelude.{
  ◌+◌, ◌≤◌, ◌<◌, ◌≡◌, ◌≢◌, true, false, Option, none, some, List, [], is_some, ok, Bytes,
}
use oidc4rs.Error.{
  OidcError, authorization_response, parse, say, missing, provider_error, issuer_mismatch,
  pending_authorization_expired, pending_authorization_from_future, invalid_metadata,
  invalid_authorization_request, missing_pkce_verifier,
}
use oidc4rs.Flow.Callback
use oidc4rs.Flow.Callback.{AuthorizationResponse, success, error}
use oidc4rs.Flow.Authorize.{default_ttl}
use oidc4rs.Client.Complete.{RelyingParty, ProviderMetadata, SystemTime, PendingAuthRequest}
use oidc4rs.Flow.Token.{from_metadata, lists, TokenAuthMethod}
use oidc4rs.Client.Complete.Sound.{IssuerHolds}

module _ (rp : RelyingParty) (now : SystemTime) (metadata : ProviderMetadata)
    (response : AuthorizationResponse) (pending : PendingAuthRequest) where
  -- The pending request is of this state, and neither from the future nor too old.
  pub record IsCurrent : Type 0 where
    pub same_state : pending.state ≡ Callback.state response
    pub past : pending.created_at ≤ now
    pub young : now ≤ pending.created_at + default_ttl

  -- It is current, and the response names its issuer where it must.
  pub record IsTrusted : Type 0 where
    pub current : IsCurrent
    pub issuer_holds : IssuerHolds metadata (Callback.issuer response)

  -- It is trusted, and brings a code.
  pub record Brings (code : Bytes) : Type 0 where
    pub trusted : IsTrusted
    pub is_success : response ≡ success code (Callback.state response) (Callback.issuer response)

  -- The provider's document offers no method to a client with, or without, a secret.
  pub data OffersNone : OidcError → Type 0 where
    to_secret :
        (supported : List Bytes)
        → is_some rp.client_secret ≡ true
        → metadata.token_endpoint_auth_methods_supported ≡ some supported
        → lists "client_secret_basic" supported ≡ false
        → lists "client_secret_post" supported ≡ false
        → OffersNone
            (invalid_metadata (say "provider advertises no supported client authentication method"))
    to_public :
        (supported : List Bytes)
        → is_some rp.client_secret ≡ false
        → metadata.token_endpoint_auth_methods_supported ≡ some supported
        → lists "none" supported ≡ false
        → OffersNone
            (invalid_metadata (say "provider does not advertise unauthenticated token requests"))

  -- What is missing of a request for which there is a method.
  pub data Lacks (code : Bytes) : OidcError → Type 0 where
    a_code :
        code ≡ []
        → Lacks code (invalid_authorization_request (say "authorization code is required"))
    a_redirect :
        code ≢ []
        → pending.redirect_uri ≡ none
        → Lacks code (invalid_authorization_request (say "redirect_uri is required"))
    a_verifier :
        code ≢ []
        → is_some pending.redirect_uri ≡ true
        → is_some rp.client_secret ≡ false
        → pending.pkce_verifier ≡ none
        → Lacks code missing_pkce_verifier

  -- Every reason, and its error.
  pub data Refusal : OidcError → Type 0 where
    other_state :
        pending.state ≢ Callback.state response
        → Refusal (
            authorization_response
              (parse (say "state mismatch between callback and pending entry")))
    from_future :
        pending.state ≡ Callback.state response
        → now < pending.created_at
        → Refusal pending_authorization_from_future
    expired :
        pending.state ≡ Callback.state response
        → pending.created_at + default_ttl < now
        → Refusal pending_authorization_expired
    other_issuer :
        (actual : Bytes)
        → IsCurrent
        → Callback.issuer response ≡ some actual
        → actual ≢ metadata.issuer.serialized
        → Refusal (authorization_response (issuer_mismatch metadata.issuer.serialized actual))
    no_issuer :
        IsCurrent
        → Callback.issuer response ≡ none
        → metadata.authorization_response_iss_parameter_supported ≡ true
        → Refusal (authorization_response (missing "iss"))
    denied :
        {e : Bytes} {description error_uri : Option Bytes}
        → IsTrusted
        → response
          ≡ error e description error_uri (Callback.state response) (Callback.issuer response)
        → Refusal (
            authorization_response (
              provider_error e description error_uri
                (Callback.state response)
                (Callback.issuer response)))
    no_method : {code : Bytes} {e : OidcError} → Brings code → OffersNone e → Refusal e
    not_built :
        {code : Bytes} {e : OidcError} {method : TokenAuthMethod}
        → Brings code
        → from_metadata metadata.token_endpoint_auth_methods_supported (is_some rp.client_secret)
          ≡ ok method
        → Lacks code e
        → Refusal e
