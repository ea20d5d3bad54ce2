-- ===== src/Client/Provider/Deadlines.antt =====
-- The deadlines of `ProviderState`, and that every write section keeps them in order.
use oidc4rs.Prelude.{◌≤◌, ◌≡◌, refl, true, none, some, arith, ◌>>=?◌}
use oidc4rs.Metadata.Cache.{cache_for, revalidate, do_not_store}
use oidc4rs.Client.Provider.{
  ProviderState, Option, is_some, set_refresh_interval, set_minimum_cache_duration,
  set_retain_on_error, disable_refresh, metadata_after_refresh_error, metadata_cache_deadlines,
  publish, Instant, Duration, retry_deadline, metadata_stale_deadline, Bytes, OidcError,
  CachePolicy, SystemTime, DiscoveredMetadata, cache_policy, unwrap_or, default_refresh_interval,
}

-- The retry deadline is at most the deadline that it defers to.
abbrev pub RetryWithin : Option Instant → Option Instant → Type 0
RetryWithin none s = Unit
RetryWithin (some t) none = ⊥
RetryWithin (some t) (some s) = t ≤ s

-- A refresh is scheduled exactly while an interval is set, the stale deadline is the one that the
-- other fields determine, and no retry is put off beyond it.
pub record HasOrderedDeadlines {Cache : Type 0} (p : ProviderState Cache) : Type 0 where
  pub scheduled : is_some p.refresh_after ≡ is_some p.metadata_refresh_interval
  pub stale_matches : p.stale_until ≡ (
      p.refresh_after >>=? λ r.
      metadata_stale_deadline r p.stale_on_error p.metadata_retain_on_error)
  pub retry_bounded : RetryWithin p.retry_after p.stale_until

pub metadata_cache_deadlines_lem :
    (now : Instant) (policy : CachePolicy) (kept : Duration)
    → (is_some (metadata_cache_deadlines now policy kept).0 ≡ true)
      × ((metadata_cache_deadlines now policy kept).1 ≡ (
          (metadata_cache_deadlines now policy kept).0 >>=? λ r.
          metadata_stale_deadline r (metadata_cache_deadlines now policy kept).2 kept))
unfolding metadata_cache_deadlines metadata_stale_deadline
metadata_cache_deadlines_lem now (cache_for lifetime must) kept = (refl, refl)
metadata_cache_deadlines_lem now revalidate kept = (refl, refl)
metadata_cache_deadlines_lem now do_not_store kept = (refl, refl)

module _ {Cache : Type 0} where
  pub set_refresh_interval-HasOrderedDeadlines :
      (now : Instant) (interval : Duration) (p : ProviderState Cache)
      → HasOrderedDeadlines (set_refresh_interval now interval p)
  unfolding set_refresh_interval
  set_refresh_interval-HasOrderedDeadlines now interval p = record {
    scheduled = refl;
    stale_matches = refl;
    retry_bounded = tt;
  }

  pub set_minimum_cache_duration-HasOrderedDeadlines :
      (now : Instant) (duration : Duration) (p : ProviderState Cache)
      → HasOrderedDeadlines p
      → HasOrderedDeadlines (set_minimum_cache_duration now duration p)
  unfolding set_minimum_cache_duration
  set_minimum_cache_duration-HasOrderedDeadlines now duration p w = ground arith

  pub set_retain_on_error-HasOrderedDeadlines :
      (duration : Duration) (p : ProviderState Cache)
      → HasOrderedDeadlines p
      → HasOrderedDeadlines (set_retain_on_error duration p)
  unfolding set_retain_on_error
  set_retain_on_error-HasOrderedDeadlines duration p w = record {
    scheduled = w.scheduled;
    stale_matches = refl;
    retry_bounded = tt;
  }

  pub disable_refresh-HasOrderedDeadlines :
      (p : ProviderState Cache) → HasOrderedDeadlines (disable_refresh p)
  unfolding disable_refresh
  disable_refresh-HasOrderedDeadlines p = record {
    scheduled = refl;
    stale_matches = refl;
    retry_bounded = tt;
  }

  pub metadata_after_refresh_error-HasOrderedDeadlines :
      (now : Instant) (error : OidcError) (p : ProviderState Cache)
      → HasOrderedDeadlines p
      → HasOrderedDeadlines (metadata_after_refresh_error now error p).1
  unfolding metadata_after_refresh_error retry_deadline
  metadata_after_refresh_error-HasOrderedDeadlines now error p w = ground arith

  pub publish-HasOrderedDeadlines :
      (http_date : Bytes → Option SystemTime) (wall : SystemTime) (now : Instant)
      (d : DiscoveredMetadata) (jwks : Cache) (p : ProviderState Cache)
      → HasOrderedDeadlines (publish http_date wall now d jwks p)
  unfolding publish
  publish-HasOrderedDeadlines http_date wall now d jwks p =
      let (scheduled, stale) =
        metadata_cache_deadlines_lem now
          (cache_policy http_date wall d
            (unwrap_or p.metadata_refresh_interval default_refresh_interval)
            p.metadata_minimum_cache_duration)
          p.metadata_retain_on_error in
      ground arith
