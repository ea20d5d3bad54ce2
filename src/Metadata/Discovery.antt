-- ===== src/Metadata/Discovery.antt =====
-- src/metadata/mod.rs: discovery. `execute` is what the HTTP client answers to the request, and
-- `decode` is serde's reader of the document.
pub mod Outcomes
use oidc4rs.Prelude.{
  ◌≡◌, sym, Option, none, List, [], ◌∷◌, arith, ◌==◌, Result, ◌>>=◌, ◌>>◌, ensure, map_err,
  >>=-eq-ok, ok, Bytes, codes,
}
use oidc4rs.Error
use oidc4rs.Error.{Outcome, discovery, invalid_metadata, say, lit, arg, num}
use oidc4rs.Time.{Duration, SystemTime}
use oidc4rs.Types.Url.{Url, UrlOps, IssuerUrl, issuer_eq, issuer_eq_iff}
use oidc4rs.Transport.Http.{HttpRequest, HttpResponse, HttpMethod}
use oidc4rs.Metadata.Cache.{CachePolicy, policy_from_headers, apply_minimum_cache_duration}
use oidc4rs.Metadata.Provider.{ProviderMetadata, validate, IsValid, validate_iff}

-- `DiscoveredMetadata`.
pub record DiscoveredMetadata : Type 0 where
  pub metadata : ProviderMetadata
  pub response_headers : List (Bytes × Bytes)

-- `DiscoveredMetadata::cache_policy`.
unfoldable pub cache_policy :
    (Bytes → Option SystemTime)
    → SystemTime
    → DiscoveredMetadata
    → Duration
    → Duration
    → CachePolicy
cache_policy http_date now d default_lifetime minimum =
    apply_minimum_cache_duration
      (policy_from_headers http_date now d.response_headers default_lifetime) minimum

module _ (ops : UrlOps) (decode : Bytes → Result Bytes ProviderMetadata) where
  -- The URL of the document, from the issuer's.
  unfoldable pub discovery_url : IssuerUrl → Outcome Url
  discovery_url issuer = do
    ensure (ops.can_be_base issuer.url) (discovery (say "issuer URL cannot be a base"))
    let trimmed = ops.pop_if_empty issuer.url
    let known = ops.push_segment trimmed (codes ".well-known")
    ok (ops.push_segment known (codes "openid-configuration"))

  unfoldable pub discovery_request : Url → HttpRequest
  discovery_request url = record {
    method = HttpMethod.get;
    url = url.text;
    headers = (codes "Accept", codes "application/json") ∷ [];
    body = none;
  }

  -- What is made of the response to the request for `url`.
  unfoldable pub accept_metadata : IssuerUrl → Url → HttpResponse → Outcome DiscoveredMetadata
  accept_metadata issuer url resp = do
    ensure (resp.status == 200)
        (discovery (lit "metadata HTTP " ∷ num resp.status ∷ lit " from " ∷ arg url.text ∷ []))
    metadata ← map_err (λ e. invalid_metadata (arg e ∷ [])) (decode resp.body)
    validate metadata
    ensure (issuer_eq metadata.issuer issuer) (
        invalid_metadata (
          lit "issuer mismatch: expected "
          ∷ arg issuer.serialized
          ∷ lit ", got "
          ∷ arg metadata.issuer.serialized
          ∷ []))
    ok (record { metadata = metadata; response_headers = resp.headers })

  -- `discover_with_cache`.
  unfoldable pub discover_with_cache :
      (HttpRequest → Outcome HttpResponse) → IssuerUrl → Outcome DiscoveredMetadata
  discover_with_cache execute issuer = do
    url ← discovery_url issuer
    resp ← map_err (λ e. discovery (Error.text e)) (execute (discovery_request url))
    accept_metadata issuer url resp

  -- `discover`.
  unfoldable pub discover :
      (HttpRequest → Outcome HttpResponse) → IssuerUrl → Outcome ProviderMetadata
  discover execute issuer = do d ← discover_with_cache execute issuer; ok d.metadata

  accept_metadata-ok :
      (issuer : IssuerUrl) (url : Url) (resp : HttpResponse) (d : DiscoveredMetadata)
      → accept_metadata issuer url resp ≡ ok d
      → (resp.status ≡ 200)
        × (decode resp.body ≡ ok d.metadata)
        × (validate d.metadata ≡ ok tt)
        × (d.metadata.issuer ≡ issuer)
        × (d.response_headers ≡ resp.headers)
  unfolding accept_metadata
  accept_metadata-ok issuer url resp d h = ground (arith, issuer_eq_iff d.metadata.issuer issuer)

  -- Whatever the network answers, a document that discovery returns is valid, was decoded from a
  -- response of status 200, and names the issuer that was asked for, byte for byte.
  pub discover-IsValid :
      (execute : HttpRequest → Outcome HttpResponse) (issuer : IssuerUrl) (d : DiscoveredMetadata)
      → discover_with_cache execute issuer ≡ ok d
      → IsValid d.metadata
        × (d.metadata.issuer ≡ issuer)
        × ((resp : HttpResponse) × (resp.status ≡ 200)
            × (decode resp.body ≡ ok d.metadata)
            × (resp.headers ≡ d.response_headers))
  unfolding discover_with_cache
  discover-IsValid execute issuer d h =
      let (url, located, rest) = >>=-eq-ok (discovery_url issuer) _ h in
      let (resp, answered, accepted) =
        >>=-eq-ok (map_err (λ e. discovery (Error.text e)) (execute (discovery_request url))) _
          rest in
      let (status, decoded, valid, same, headers) = accept_metadata-ok issuer url resp d accepted in
      ((validate_iff d.metadata).0 valid, same, (resp, status, decoded, sym headers))
