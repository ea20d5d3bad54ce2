-- ===== src/Client/Complete.antt =====
-- src/client.rs: the completion of the authorization-code flow and the other token requests.
-- `execute` is what the HTTP client answers to a request; the readers of JSON are fields of
-- `Readers`, and `kv` is the store that the caller gives.
pub mod Sound
pub mod Whole
pub mod SingleUse
pub mod Live
pub mod Refusal
pub mod Exact
pub mod Outcomes
use oidc4rs.Client.Provider.{ProviderState}
use oidc4rs.Time.{SystemTime, Instant}
use oidc4rs.Metadata.Provider.{ProviderMetadata}
use oidc4rs.Prelude.{
  not, Option, none, some, ◌==◌, is_some, Result, ◌>>=◌, ◌>>◌, ensure, ok_or, map_err, ok, err,
  Bytes, codes, eqb, take,
}
use oidc4rs.Error.{
  Outcome, OidcError, Message, authorization_response, token_endpoint, json, parse, issuer_mismatch,
  provider_error, from_kv, say, missing,
}
use oidc4rs.Error
use oidc4rs.Flow.Callback
use oidc4rs.Flow.Token
use oidc4rs.Flow.Callback.{
  AuthorizationResponse, success, error, Params, parse_authorization_response,
}
use oidc4rs.Flow.Authorize.{PendingAuthRequest, key_for, validate_created_at}
use oidc4rs.Flow.Token.{
  CodeTokenRequest, RefreshTokenRequest, BuiltTokenRequest, TokenOps, new_code_request,
  with_redirect_uri, with_pkce_verifier, build_code_request, from_metadata, new_refresh_request,
}
use oidc4rs.Transport.Store.{KvStore}
use oidc4rs.Transport.Http.{HttpRequest, HttpResponse, HttpMethod}
use oidc4rs.Token.Response.{TokenResponse}
use oidc4rs.Client.Refresh.{Services, Readings, refresh_metadata_if_stale}

-- The fields of `Client` besides its provider state and its HTTP client.
pub record RelyingParty : Type 0 where
  pub client_id : Bytes
  pub client_secret : Option Bytes

-- serde's readers: of a stored pending request, of a token response, and of the two error bodies.
pub record Readers : Type 0 where
  pub read_pending : Bytes → Result Message PendingAuthRequest
  pub read_token : Bytes → Result Message TokenResponse
  pub read_token_error : Bytes → Result Message (Bytes × Option Bytes)
  pub read_info_error : Bytes → Result Message (Option Bytes × Option Bytes)

-- `CompleteAuthorization`.
pub record CompleteAuthorization : Type 0 where
  pub token_response : TokenResponse
  pub pending : PendingAuthRequest
  pub callback_state : Bytes

-- `exchange_code_with_metadata`, and `exchange_code` on the snapshot.
unfoldable pub exchange_code_with_metadata :
    RelyingParty → Bytes → ProviderMetadata → Outcome CodeTokenRequest
exchange_code_with_metadata rp code metadata = do
  method ← from_metadata metadata.token_endpoint_auth_methods_supported (is_some rp.client_secret)
  ok (new_code_request metadata.token_endpoint rp.client_id rp.client_secret code (some method))

-- `exchange_refresh_token`.
unfoldable pub exchange_refresh_token :
    RelyingParty → Bytes → ProviderMetadata → Outcome RefreshTokenRequest
exchange_refresh_token rp refresh_token metadata = do
  method ← from_metadata metadata.token_endpoint_auth_methods_supported (is_some rp.client_secret)
  ok (
      new_refresh_request metadata.token_endpoint rp.client_id rp.client_secret refresh_token
        (some method))

-- `validate_pending_request`, at the time that it reads.
unfoldable pub validate_pending_request :
    PendingAuthRequest → Bytes → SystemTime → Outcome (Unit {0})
validate_pending_request pending callback_state now = do
  ensure (eqb pending.state callback_state)
      (authorization_response (parse (say "state mismatch between callback and pending entry")))
  validate_created_at pending now

-- The check of the issuer that the response names.
unfoldable pub check_response_issuer : ProviderMetadata → Option Bytes → Outcome (Unit {0})
check_response_issuer metadata (some actual) =
    ensure (eqb actual metadata.issuer.serialized)
      (authorization_response (issuer_mismatch metadata.issuer.serialized actual))
check_response_issuer metadata none =
    ensure (not metadata.authorization_response_iss_parameter_supported)
      (authorization_response (missing "iss"))

-- The code of the response, or the provider's error.
unfoldable pub code_of : AuthorizationResponse → Bytes → Outcome Bytes
code_of (success code _ iss) callback_state = ok code
code_of (error e description error_uri _ iss) callback_state =
    err (authorization_response (provider_error e description error_uri callback_state iss))

unfoldable pub with_pending : CodeTokenRequest → PendingAuthRequest → CodeTokenRequest
with_pending r pending =
    let r' : CodeTokenRequest = elim pending.redirect_uri [
      | none ↦ r
      | some uri ↦ with_redirect_uri r uri
    ] in
    elim pending.pkce_verifier [ none ↦ r' | some verifier ↦ with_pkce_verifier r' verifier ]

-- `parse_token_error`.
unfoldable pub parse_token_error : Readers → HttpResponse → OidcError
parse_token_error readers resp = elim (readers.read_token_error resp.body) [
  | ok (e, description) ↦ token_endpoint resp.status e description
  | err m ↦ token_endpoint resp.status (codes "invalid_response") none
]

-- `post_token_request`.
unfoldable pub post_token_request :
    Readers → (HttpRequest → Outcome HttpResponse) → BuiltTokenRequest → Outcome TokenResponse
post_token_request readers execute built = do
  resp ← execute (record {
    method = HttpMethod.post;
    url = built.http.url;
    headers = built.http.headers;
    body = built.http.body;
  })
  ensure (resp.status == 200) (parse_token_error readers resp)
  map_err json (readers.read_token resp.body)

module _ (tokens : TokenOps) (readers : Readers) (rp : RelyingParty) where
  -- `complete_authorization_from_pending`, from the refreshed metadata up to the token request.
  unfoldable pub prepare_token_request :
      SystemTime
      → ProviderMetadata
      → AuthorizationResponse
      → PendingAuthRequest
      → Outcome BuiltTokenRequest
  prepare_token_request now metadata response pending = do
    let callback_state = Callback.state response
    validate_pending_request pending callback_state now
    check_response_issuer metadata (Callback.issuer response)
    code ← code_of response callback_state
    builder ← exchange_code_with_metadata rp code metadata
    build_code_request tokens (with_pending builder pending)

  -- `complete_authorization_from_pending`, after its refresh.
  unfoldable pub complete_with_metadata :
      (HttpRequest → Outcome HttpResponse)
      → SystemTime
      → AuthorizationResponse
      → PendingAuthRequest
      → ProviderMetadata
      → Outcome CompleteAuthorization
  complete_with_metadata execute now response pending metadata = do
    built ← prepare_token_request now metadata response pending
    token_response ← post_token_request readers execute built
    ok (record {
      token_response = token_response;
      pending = pending;
      callback_state = Callback.state response;
    })

  -- `complete_authorization_from_pending`, and the provider state that its refresh leaves.
  unfoldable pub complete_authorization_from_pending :
      {Cache : Type 0}
      → Services Cache
      → (HttpRequest → Outcome HttpResponse)
      → Readings
      → SystemTime
      → AuthorizationResponse
      → PendingAuthRequest
      → ProviderState Cache
      → Outcome CompleteAuthorization × ProviderState Cache
  complete_authorization_from_pending env execute r now response pending p =
      let (refreshed, p') = refresh_metadata_if_stale env execute r p in
      (refreshed >>= complete_with_metadata execute now response pending, p')

  -- The rest of `complete_authorization`, once the pending request was taken or not.
  unfoldable pub complete_taken :
      {Cache : Type 0}
      → Services Cache
      → (HttpRequest → Outcome HttpResponse)
      → Readings
      → SystemTime
      → AuthorizationResponse
      → Outcome PendingAuthRequest
      → ProviderState Cache
      → Outcome CompleteAuthorization × ProviderState Cache
  complete_taken env execute r now response (ok pending) p =
      complete_authorization_from_pending env execute r now response pending p
  complete_taken env execute r now response (err e) p = (err e, p)

-- `take_pending_request`, and the store that it leaves; `at` is the store's clock.
unfoldable pub take_pending_request :
    Readers → (kv : KvStore) → Instant → Bytes → kv.State → Outcome PendingAuthRequest × kv.State
take_pending_request readers kv at state s =
    let (taken, s') = kv.take at (key_for state) s in
    (
      (do
        raw ← from_kv taken
        bytes ← ok_or raw (authorization_response (missing "state"))
        map_err json (readers.read_pending bytes)),
      s',
    )

module _ (tokens : TokenOps) (readers : Readers) (rp : RelyingParty) (kv : KvStore) where
  -- `complete_authorization`, on the provider state and the store.
  unfoldable pub complete_authorization :
      {Cache : Type 0}
      → Services Cache
      → (Bytes → Params)
      → (HttpRequest → Outcome HttpResponse)
      → Readings
      → Instant
      → SystemTime
      → Bytes
      → ProviderState Cache
      → kv.State
      → Outcome CompleteAuthorization × ProviderState Cache × kv.State
  complete_authorization env form_parse execute r at now query p s =
      elim (parse_authorization_response form_parse query) [
        | err e ↦ (err (authorization_response e), p, s)
        | ok response ↦
            (let (taken, s') = take_pending_request readers kv at (Callback.state response) s in
              let (result, p') =
                complete_taken tokens readers rp env execute r now response taken p in
              (result, p', s'))
      ]
