-- ===== src/Client/Refresh.antt =====
-- src/client.rs: the refresh of the provider's metadata. `execute` is what the HTTP client answers
-- to each request of one refresh, those of the key cache among them. The functions here run without another task; the
-- steps of several tasks are in Client/Refresh/Steps.antt.
pub mod Laws
pub mod Steps
pub mod Tasks
pub mod Outcomes
use oidc4rs.Client.Keys.{JwksOps, fetch_keys}
use oidc4rs.Transport.Http.{HttpRequest, HttpResponse}
use oidc4rs.Client.Provider.{
  ProviderState, metadata_after_refresh_error, publish, metadata_needs_refresh,
}
use oidc4rs.Time.{Instant, SystemTime}
use oidc4rs.Prelude.{not, Option, if◌then◌else◌, Result, ◌>>=◌, ◌>>◌, ok, err, Bytes}
use oidc4rs.Error.{Outcome}
use oidc4rs.Metadata.Discovery.{DiscoveredMetadata, discover_with_cache}
use oidc4rs.Metadata.Provider.{ProviderMetadata}
use oidc4rs.Types.Url.{UrlOps, url_eq}

-- The readings of the clocks that one refresh makes, in order: the two checks, then the one of the
-- publication, with the system time of the response's age, or the one after an error.
pub record Readings : Type 0 where
  pub checked : Instant
  pub rechecked : Instant
  pub published : Instant
  pub wall : SystemTime
  pub failed : Instant

-- What a refresh is given from outside.
pub record Services (Cache : Type 0) : Type 0 where
  pub urls : UrlOps
  pub decode : Bytes → Result Bytes ProviderMetadata
  pub http_date : Bytes → Option SystemTime
  pub jwks_ops : JwksOps Cache

-- The last lines of `refresh_metadata_if_stale`.
unfoldable pub settle_refresh :
    {Cache : Type 0}
    → Readings
    → Outcome ProviderMetadata × ProviderState Cache
    → Outcome ProviderMetadata × ProviderState Cache
settle_refresh r (ok metadata, p) = (ok metadata, p)
settle_refresh r (err e, p) = metadata_after_refresh_error r.failed e p

module _ {Cache : Type 0} (env : Services Cache) where
  -- The key cache for the new document: the present one while the URL stays, else a new one, whose
  -- keys are fetched first.
  unfoldable pub replacement_cache :
      (HttpRequest → Outcome HttpResponse) → ProviderState Cache → ProviderMetadata → Outcome Cache
  replacement_cache execute current metadata =
      if url_eq metadata.jwks_uri current.metadata.jwks_uri then ok current.jwks else do
        let jwks = env.jwks_ops.new_cache metadata.jwks_uri.text
        env.jwks_ops.keys (fetch_keys execute) jwks
        ok jwks

  -- `refresh_metadata_from`, up to its write section.
  unfoldable pub fetch_replacement :
      (HttpRequest → Outcome HttpResponse)
      → ProviderState Cache
      → Outcome (DiscoveredMetadata × Cache)
  fetch_replacement execute current = do
    discovered ← discover_with_cache env.urls env.decode execute current.metadata.issuer
    jwks ← replacement_cache execute current discovered.metadata
    ok (discovered, jwks)

  -- `refresh_metadata_from`, from a snapshot, on the state at the time of writing.
  unfoldable pub refresh_metadata_from :
      (HttpRequest → Outcome HttpResponse)
      → Readings
      → ProviderState Cache
      → ProviderState Cache
      → Outcome ProviderMetadata × ProviderState Cache
  refresh_metadata_from execute r current p = elim (fetch_replacement execute current) [
    | ok (discovered, jwks) ↦
        (ok discovered.metadata, publish env.http_date r.wall r.published discovered jwks p)
    | err e ↦ (err e, p)
  ]

  -- `refresh_metadata`.
  unfoldable pub refresh_metadata :
      (HttpRequest → Outcome HttpResponse)
      → Readings
      → ProviderState Cache
      → Outcome ProviderMetadata × ProviderState Cache
  refresh_metadata execute r p = refresh_metadata_from execute r p p

  -- `refresh_metadata_if_stale`.
  unfoldable pub refresh_metadata_if_stale :
      (HttpRequest → Outcome HttpResponse)
      → Readings
      → ProviderState Cache
      → Outcome ProviderMetadata × ProviderState Cache
  refresh_metadata_if_stale execute r p =
      if not (metadata_needs_refresh r.checked p)
      then (ok p.metadata, p)
      else if not (metadata_needs_refresh r.rechecked p)
      then (ok p.metadata, p)
      else settle_refresh r (refresh_metadata_from execute r p p)
