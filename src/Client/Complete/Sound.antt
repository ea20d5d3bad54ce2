-- ===== src/Client/Complete/Sound.antt =====
-- What a completed authorization is, and that a pending request is used at most once.
use oidc4rs.Flow.Token.Build.{IsComplete, build_code_request_iff}
use oidc4rs.Flow.Authorize.{default_ttl, validate_created_at}
use oidc4rs.Time.{duration_since}
use oidc4rs.Prelude.{
  ◌+◌, ◌≤◌, ◌≡◌, refl, sym, ◌↔◌, false, Option, none, some, arith, is_some, >>=-eq-ok, ok, Bytes,
  eqb_iff,
}
use oidc4rs.Flow.Callback
use oidc4rs.Flow.Callback.{AuthorizationResponse, success, error}
use oidc4rs.Client.Complete.{
  Readers, RelyingParty, prepare_token_request, ProviderMetadata, check_response_issuer,
  validate_pending_request, with_pending, SystemTime, code_of, exchange_code_with_metadata,
  validate_created_at, PendingAuthRequest, new_code_request, AuthorizationResponse,
  CodeTokenRequest, with_redirect_uri, BuiltTokenRequest, success, with_pkce_verifier, HttpRequest,
  complete_with_metadata, Outcome, post_token_request, HttpResponse, CompleteAuthorization,
  TokenResponse, HttpMethod,
}
use oidc4rs.Flow.Token.{
  TokenOps, from_metadata, TokenAuthMethod, with_pkce_verifier, request_for, with_redirect_uri,
  code_form, new_code_request,
}

-- The response names the issuer, or names none and the provider does not promise to name one.
abbrev pub IssuerHolds : ProviderMetadata → Option Bytes → Type 0
IssuerHolds metadata none = metadata.authorization_response_iss_parameter_supported ≡ false
IssuerHolds metadata (some actual) = actual ≡ metadata.issuer.serialized

pub check_response_issuer_iff :
    (metadata : ProviderMetadata) (iss : Option Bytes)
    → (check_response_issuer metadata iss ≡ ok tt) ↔ IssuerHolds metadata iss
unfolding check_response_issuer
check_response_issuer_iff metadata none = ground arith
check_response_issuer_iff metadata (some actual) =
    ground (arith, eqb_iff actual metadata.issuer.serialized)

pub validate_pending_request_iff :
    (pending : PendingAuthRequest) (state : Bytes) (now : SystemTime)
    → (validate_pending_request pending state now ≡ ok tt) ↔ (
        (pending.state ≡ state)
        × (pending.created_at ≤ now)
        × (now ≤ pending.created_at + default_ttl))
unfolding validate_pending_request validate_created_at duration_since
validate_pending_request_iff pending state now = ground (arith, eqb_iff pending.state state)

-- The request that the client makes of a code and what was kept for it.
abbrev pub code_request :
    RelyingParty
    → ProviderMetadata
    → TokenAuthMethod
    → Bytes
    → PendingAuthRequest
    → CodeTokenRequest
code_request rp metadata method code pending = record {
  endpoint = metadata.token_endpoint;
  client_id = rp.client_id;
  client_secret = rp.client_secret;
  code = code;
  redirect_uri = pending.redirect_uri;
  pkce_verifier = pending.pkce_verifier;
  auth_method = some method;
}

pub with_pending-eq :
    (rp : RelyingParty) (metadata : ProviderMetadata) (method : TokenAuthMethod) (code : Bytes)
    (pending : PendingAuthRequest)
    → with_pending
        (new_code_request metadata.token_endpoint rp.client_id rp.client_secret code (some method))
        pending
      ≡ code_request rp metadata method code pending
unfolding with_pending new_code_request with_redirect_uri with_pkce_verifier
with_pending-eq rp metadata method code pending = ground arith

module _ (tokens : TokenOps) (readers : Readers) (rp : RelyingParty) where
  -- What must hold before a token request is made, and that request.
  pub record IsAuthorized (now : SystemTime) (metadata : ProviderMetadata)
      (response : AuthorizationResponse) (pending : PendingAuthRequest) (built : BuiltTokenRequest)
      : Type 0 where
    pub code : Bytes
    pub method : TokenAuthMethod
    pub response_is : response ≡ success code pending.state (Callback.issuer response)
    pub not_from_future : pending.created_at ≤ now
    pub not_expired : now ≤ pending.created_at + default_ttl
    pub issuer_holds : IssuerHolds metadata (Callback.issuer response)
    pub method_offered :
        from_metadata metadata.token_endpoint_auth_methods_supported (is_some rp.client_secret)
        ≡ ok method
    pub complete : IsComplete tokens (code_request rp metadata method code pending)
    pub built_is :
        built
        ≡ request_for tokens metadata.token_endpoint method rp.client_id rp.client_secret
            (code_form tokens (code_request rp metadata method code pending))

  code_of-ok :
      (response : AuthorizationResponse) (state code : Bytes)
      → code_of response state ≡ ok code
      → response ≡ success code (Callback.state response) (Callback.issuer response)
  unfolding code_of Callback.state Callback.issuer
  code_of-ok (success c s iss) state code h = ground arith
  code_of-ok (error e d u s iss) state code h = ground arith

  -- A token request is made only of a success response that bears the state and, where it must,
  -- the issuer of the pending request, while that request is at most 10 minutes old and not from the
  -- future, by a method that the provider offers, with the pending redirect URI and PKCE verifier.
  pub prepare_token_request-IsAuthorized :
      (now : SystemTime) (metadata : ProviderMetadata) (response : AuthorizationResponse)
      (pending : PendingAuthRequest) (built : BuiltTokenRequest)
      → prepare_token_request tokens readers rp now metadata response pending ≡ ok built
      → IsAuthorized now metadata response pending built
  unfolding prepare_token_request exchange_code_with_metadata
  prepare_token_request-IsAuthorized now metadata response pending built h =
      let (checked, valid, rest) =
        >>=-eq-ok (validate_pending_request pending (Callback.state response) now) _ h in
      let (matched, issuer, rest) =
        >>=-eq-ok (check_response_issuer metadata (Callback.issuer response)) _ rest in
      let (code, found, rest) = >>=-eq-ok (code_of response (Callback.state response)) _ rest in
      let (builder, exchanged, made) =
        >>=-eq-ok (exchange_code_with_metadata rp code metadata) _ rest in
      let (method, chosen, same) =
        >>=-eq-ok
          (from_metadata metadata.token_endpoint_auth_methods_supported (is_some rp.client_secret))
          _ exchanged in
      let (bound, past, young) =
        (validate_pending_request_iff pending (Callback.state response) now).0 valid in
      let request : with_pending builder pending ≡ code_request rp metadata method code pending =
        rw (sym (with_pending-eq rp metadata method code pending)) (ground arith) in
      let (complete, built_is) =
        (build_code_request_iff tokens (code_request rp metadata method code pending) built).0
          (rw (sym request) made) in
      record {
        code = code;
        method = method;
        response_is = rw bound (code_of-ok response (Callback.state response) code found);
        not_from_future = past;
        not_expired = young;
        issuer_holds = (check_response_issuer_iff metadata (Callback.issuer response)).0 issuer;
        method_offered = chosen;
        complete = complete;
        built_is = built_is;
      }

  -- What the completed authorization was made of: a request that was authorized, the answer of
  -- status 200 to exactly that request, and the token response in its body.
  pub record IsCompleted (execute : HttpRequest → Outcome HttpResponse) (now : SystemTime)
      (metadata : ProviderMetadata) (response : AuthorizationResponse) (c : CompleteAuthorization)
      : Type 0 where
    pub built : BuiltTokenRequest
    pub answer : HttpResponse
    pub authorized : IsAuthorized now metadata response c.pending built
    pub answered : execute built.http ≡ ok answer
    pub status_is : answer.status ≡ 200
    pub decoded : readers.read_token answer.body ≡ ok c.token_response

  post_token_request-ok :
      (execute : HttpRequest → Outcome HttpResponse) (built : BuiltTokenRequest)
      (token : TokenResponse)
      → built.http.method ≡ HttpMethod.post
      → post_token_request readers execute built ≡ ok token
      → (answer : HttpResponse) × (execute built.http ≡ ok answer)
        × (answer.status ≡ 200)
        × (readers.read_token answer.body ≡ ok token)
  unfolding post_token_request
  post_token_request-ok execute built token posts h =
      let (answer, answered, accepted) = >>=-eq-ok (execute _) _ h in
      (answer, ground arith, ground arith, ground arith)

  pub complete_with_metadata-IsCompleted :
      (execute : HttpRequest → Outcome HttpResponse) (now : SystemTime)
      (response : AuthorizationResponse) (pending : PendingAuthRequest)
      (metadata : ProviderMetadata) (c : CompleteAuthorization)
      → complete_with_metadata tokens readers rp execute now response pending metadata ≡ ok c
      → (c.pending ≡ pending)
        × (c.callback_state ≡ Callback.state response)
        × IsCompleted execute now metadata response c
  unfolding complete_with_metadata request_for
  complete_with_metadata-IsCompleted execute now response pending metadata c h =
      let (built, prepared, rest) =
        >>=-eq-ok (prepare_token_request tokens readers rp now metadata response pending) _ h in
      let (token, posted, same) = >>=-eq-ok (post_token_request readers execute built) _ rest in
      let authorized =
        prepare_token_request-IsAuthorized now metadata response pending built prepared in
      let (answer, answered, status, decoded) =
        post_token_request-ok execute built token (rw authorized.built_is refl) posted in
      let kept : c.pending ≡ pending = ground arith in
      (
        kept,
        ground arith,
        record {
          built = built;
          answer = answer;
          authorized = rw kept authorized;
          answered = answered;
          status_is = status;
          decoded = ground arith;
        },
      )
