-- ===== src/Client/Provider.antt =====
-- src/client.rs: `ProviderState`, which a lock guards, and each section of code that reads or writes
-- it while it holds that lock, as a function of the state. `now` is the reading of the monotonic
-- clock that the section makes. `Cache` is jose4rs' key cache, which `new_cache` makes for a URL.
pub mod Deadlines
pub mod Fresh
pub mod Setting
use oidc4rs.Prelude.{
  ◌*◌, min, max, Bool, true, false, not, ◌&&◌, ◌||◌, Option, none, some, ltb, leb, ◌==◌,
  if◌then◌else◌, is_some, is_none, unwrap_or, ◌>>=?◌, Result, ◌>>=◌, ◌>>◌, ok, err, Bytes, retain,
}
use oidc4rs.Error.{Outcome, OidcError, Message}
use oidc4rs.Client.Keys.{JwksOps, FetchResponse}
use oidc4rs.Time.{Duration, Instant, SystemTime, checked_add, nanos_per_sec}
use oidc4rs.Metadata.Cache.{CachePolicy, cache_for, revalidate, do_not_store}
use oidc4rs.Metadata.Provider.{ProviderMetadata, validate}
use oidc4rs.Metadata.Discovery.{DiscoveredMetadata, cache_policy}

abbrev pub default_refresh_interval : Duration
default_refresh_interval = 60 * 60 * nanos_per_sec

abbrev pub default_minimum_cache_duration : Duration
default_minimum_cache_duration = 60 * nanos_per_sec

abbrev pub default_retain_on_error : Duration
default_retain_on_error = 24 * 60 * 60 * nanos_per_sec

abbrev pub retry_interval : Duration
retry_interval = 30 * nanos_per_sec

-- `ProviderState`.
pub record ProviderState (Cache : Type 0) : Type 0 where
  pub metadata : ProviderMetadata
  pub jwks : Cache
  pub refresh_after : Option Instant
  pub stale_until : Option Instant
  pub retry_after : Option Instant
  pub stale_on_error : Bool
  pub metadata_refresh_interval : Option Duration
  pub metadata_minimum_cache_duration : Duration
  pub metadata_retain_on_error : Duration

-- `is_some_and` and `is_none_or`, for the test that an instant has come.
abbrev pub has_come : Instant → Option Instant → Bool
has_come now none = false
has_come now (some deadline) = leb deadline now

abbrev pub none_or_come : Instant → Option Instant → Bool
none_or_come now none = true
none_or_come now (some deadline) = leb deadline now

unfoldable pub metadata_needs_refresh : {Cache : Type 0} → Instant → ProviderState Cache → Bool
metadata_needs_refresh now p = has_come now p.refresh_after && none_or_come now p.retry_after

unfoldable pub metadata_refresh_deadline : Instant → Duration → Instant
metadata_refresh_deadline now interval = unwrap_or (checked_add now interval) now

unfoldable pub metadata_stale_deadline : Instant → Bool → Duration → Option Instant
metadata_stale_deadline refresh_after stale_on_error retain_on_error =
    if not stale_on_error || retain_on_error == 0
    then none
    else checked_add refresh_after retain_on_error

-- `metadata_cache_deadlines`.
unfoldable pub metadata_cache_deadlines :
    Instant → CachePolicy → Duration → Option Instant × Option Instant × Bool
metadata_cache_deadlines now (cache_for lifetime must_revalidate) retain =
    let refresh_after = metadata_refresh_deadline now lifetime in
    (
      some refresh_after,
      metadata_stale_deadline refresh_after (not must_revalidate) retain,
      not must_revalidate,
    )
metadata_cache_deadlines now revalidate retain = (some now, none, false)
metadata_cache_deadlines now do_not_store retain = (some now, none, false)

-- The test of `set_metadata_minimum_cache_duration`.
abbrev pub none_or_before : Instant → Option Instant → Bool
none_or_before t none = true
none_or_before t (some deadline) = ltb deadline t

-- The retry deadline of `metadata_after_refresh_error`.
unfoldable pub retry_deadline : Instant → Instant → Instant
retry_deadline now stale_until = elim (checked_add now retry_interval) [
  | none ↦ stale_until
  | some deadline ↦ min deadline stale_until
]

module _ {Cache : Type 0} where
  -- `set_metadata_refresh_interval`.
  unfoldable pub set_refresh_interval :
      Instant → Duration → ProviderState Cache → ProviderState Cache
  set_refresh_interval now interval p =
      let refresh_after =
        metadata_refresh_deadline now (max interval p.metadata_minimum_cache_duration) in
      record p {
        metadata_refresh_interval = some interval;
        refresh_after = some refresh_after;
        stale_until =
            metadata_stale_deadline refresh_after p.stale_on_error p.metadata_retain_on_error;
        retry_after = none;
      }

  -- `set_metadata_minimum_cache_duration`.
  unfoldable pub set_minimum_cache_duration :
      Instant → Duration → ProviderState Cache → ProviderState Cache
  set_minimum_cache_duration now duration p =
      let q = record p { metadata_minimum_cache_duration = duration; retry_after = none } in
      let minimum_refresh_after = metadata_refresh_deadline now duration in
      if is_none q.metadata_refresh_interval
      then q
      else if none_or_before minimum_refresh_after q.refresh_after
      then record q {
        refresh_after = some minimum_refresh_after;
        stale_until =
            metadata_stale_deadline minimum_refresh_after q.stale_on_error
              q.metadata_retain_on_error;
      }
      else q

  -- `set_metadata_retain_on_error`.
  unfoldable pub set_retain_on_error : Duration → ProviderState Cache → ProviderState Cache
  set_retain_on_error duration p = record p {
    metadata_retain_on_error = duration;
    stale_until = p.refresh_after >>=? λ r. metadata_stale_deadline r p.stale_on_error duration;
    retry_after = none;
  }

  -- `disable_metadata_refresh`.
  unfoldable pub disable_refresh : ProviderState Cache → ProviderState Cache
  disable_refresh p = record p {
    metadata_refresh_interval = none;
    refresh_after = none;
    stale_until = none;
    retry_after = none;
  }

  -- `metadata_after_refresh_error`.
  unfoldable pub metadata_after_refresh_error :
      Instant → OidcError → ProviderState Cache → Outcome ProviderMetadata × ProviderState Cache
  metadata_after_refresh_error now error p = elim p.stale_until [
    | none ↦ (err error, p)
    | some deadline ↦
        if ltb now deadline
        then (ok p.metadata, record p { retry_after = some (retry_deadline now deadline) })
        else (err error, p)
  ]

  -- The write section of `refresh_metadata_from`: the settings are those at the time of writing.
  unfoldable pub publish :
      (Bytes → Option SystemTime)
      → SystemTime
      → Instant
      → DiscoveredMetadata
      → Cache
      → ProviderState Cache
      → ProviderState Cache
  publish http_date wall now discovered jwks p =
      let policy =
        cache_policy http_date wall discovered
          (unwrap_or p.metadata_refresh_interval default_refresh_interval)
          p.metadata_minimum_cache_duration in
      let deadlines = metadata_cache_deadlines now policy p.metadata_retain_on_error in
      let enabled = is_some p.metadata_refresh_interval in
      record {
        metadata = discovered.metadata;
        jwks = jwks;
        refresh_after = if enabled then deadlines.0 else none;
        stale_until = if enabled then deadlines.1 else none;
        retry_after = none;
        stale_on_error = deadlines.2;
        metadata_refresh_interval = p.metadata_refresh_interval;
        metadata_minimum_cache_duration = p.metadata_minimum_cache_duration;
        metadata_retain_on_error = p.metadata_retain_on_error;
      }

module _ {Cache : Type 0} (jwks_ops : JwksOps Cache) where
  -- The state that `Client::discover` starts from, with what its fetcher answers.
  unfoldable pub discovered_state :
      (Bytes → Result Message FetchResponse)
      → (Bytes → Option SystemTime)
      → SystemTime
      → Instant
      → DiscoveredMetadata
      → Outcome (ProviderState Cache)
  discovered_state fetcher http_date wall now discovered = do
    let policy =
        cache_policy http_date wall discovered default_refresh_interval
          default_minimum_cache_duration
    let deadlines = metadata_cache_deadlines now policy default_retain_on_error
    let jwks = jwks_ops.new_cache discovered.metadata.jwks_uri.text
    jwks_ops.keys fetcher jwks
    ok (record {
      metadata = discovered.metadata;
      jwks = jwks;
      refresh_after = deadlines.0;
      stale_until = deadlines.1;
      retry_after = none;
      stale_on_error = deadlines.2;
      metadata_refresh_interval = some default_refresh_interval;
      metadata_minimum_cache_duration = default_minimum_cache_duration;
      metadata_retain_on_error = default_retain_on_error;
    })

  -- The state that `Client::from_parts` starts from.
  unfoldable pub state_from_parts : ProviderMetadata → Outcome (ProviderState Cache)
  state_from_parts metadata = do
    validate metadata
    ok (record {
      metadata = metadata;
      jwks = jwks_ops.new_cache metadata.jwks_uri.text;
      refresh_after = none;
      stale_until = none;
      retry_after = none;
      stale_on_error = true;
      metadata_refresh_interval = none;
      metadata_minimum_cache_duration = default_minimum_cache_duration;
      metadata_retain_on_error = default_retain_on_error;
    })
