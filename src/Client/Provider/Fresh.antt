-- ===== src/Client/Provider/Fresh.antt =====
-- When a snapshot is refreshed: not before its floor, and always once its stale deadline has passed.
use oidc4rs.Metadata.Cache.{do_not_store, policy_from_headers, apply_minimum_cache_duration}
use oidc4rs.Metadata.Discovery.{cache_policy}
use oidc4rs.Metadata.Cache.Directives.{is_named, cache_pieces}
use oidc4rs.Metadata.Cache.Policy.{
  policy-eq-do_not_store_iff, fresh_for, apply_minimum_cache_duration_lem,
}
use oidc4rs.Time.{checked_add, instant_limit}
use oidc4rs.Prelude.{
  ◌+◌, ◌≤◌, ◌<◌, max, ◌≡◌, refl, sym, ◌∙◌, ◌⊎◌, inl, inr, Bool, true, false, Option, none, some,
  arith, ltb, leb, ltb→lt, Bool-cases, Option-cases, is_some, unwrap_or, ◌>>=?◌, ok, err, Bytes,
  codes, any,
}
use oidc4rs.Client.Provider.{
  ProviderState, metadata_needs_refresh, metadata_after_refresh_error, retry_deadline,
  retry_interval, metadata_stale_deadline, Instant, checked_add, OidcError, Duration, SystemTime,
  metadata_cache_deadlines, publish, DiscoveredMetadata, metadata_refresh_deadline, cache_policy,
  CachePolicy, default_refresh_interval, none_or_come,
}
use oidc4rs.Client.Provider.Deadlines.{HasOrderedDeadlines}

abbrev StartsBefore : Option Instant → Instant → Type 0
StartsBefore none deadline = ⊥
StartsBefore (some r) deadline = r ≤ deadline

-- A stale deadline lies behind the freshness that it extends.
stale-StartsBefore :
    (o : Option Instant) (on_error : Bool) (kept : Duration) (deadline : Instant)
    → (o >>=? λ r. metadata_stale_deadline r on_error kept) ≡ some deadline
    → StartsBefore o deadline
unfolding metadata_stale_deadline checked_add
stale-StartsBefore none on_error kept deadline h = cc
stale-StartsBefore (some r) on_error kept deadline h = ground arith

retry_deadline_lem :
    (now deadline : Instant)
    → now < deadline
    → (now < retry_deadline now deadline)
      × (retry_deadline now deadline ≤ deadline)
      × ((retry_deadline now deadline ≤ now + retry_interval)
          ⊎ (instant_limit ≤ now + retry_interval))
unfolding retry_deadline checked_add
retry_deadline_lem now deadline h = ground arith

module _ {Cache : Type 0} where
  -- Once the stale deadline has passed, the snapshot needs a refresh, whatever a deferred retry says.
  pub needs_refresh_of_stale :
      (p : ProviderState Cache) (now deadline : Instant)
      → HasOrderedDeadlines p
      → p.stale_until ≡ some deadline
      → deadline ≤ now
      → metadata_needs_refresh now p ≡ true
  unfolding metadata_needs_refresh
  needs_refresh_of_stale p now deadline w h le = ground (
    arith,
    w.retry_bounded,
    stale-StartsBefore p.refresh_after p.stale_on_error p.metadata_retain_on_error deadline
        (sym w.stale_matches ∙ h),
  )

  -- After a failed refresh the snapshot is handed out exactly while its stale deadline lies ahead;
  -- then the next attempt is put off, up to that deadline and by 30 seconds at most where the
  -- clock can hold the sum, and all else is kept. Otherwise the error is returned and the state
  -- stays.
  pub metadata_after_refresh_error_lem :
      (now : Instant) (error : OidcError) (p : ProviderState Cache)
      → ((deadline : Instant) × (p.stale_until ≡ some deadline)
          × (now < deadline)
          × (metadata_after_refresh_error now error p
              ≡ (ok p.metadata, record p { retry_after = some (retry_deadline now deadline) }))
          × (now < retry_deadline now deadline)
          × (retry_deadline now deadline ≤ deadline)
          × ((retry_deadline now deadline ≤ now + retry_interval)
              ⊎ (instant_limit ≤ now + retry_interval)))
        ⊎ ((metadata_after_refresh_error now error p ≡ (err error, p))
            × (none_or_come now p.stale_until ≡ true))
  unfolding metadata_after_refresh_error
  metadata_after_refresh_error_lem now error p = elim (Option-cases p.stale_until) [
    | inl absent ↦ inr (ground arith, ground arith)
    | inr (deadline, e) ↦ elim (Bool-cases (ltb now deadline)) [
      | inl ahead ↦
          let (a, b, c) = retry_deadline_lem now deadline (ltb→lt now deadline ahead) in
          inl (deadline, e, ltb→lt now deadline ahead, ground arith, a, b, c)
      | inr passed ↦ inr (ground arith, ground arith)
    ]
  ]

-- The lifetime that the headers give, or the configured floor where that is longer.
abbrev pub granted :
    {Cache : Type 0}
    → (Bytes → Option SystemTime)
    → SystemTime
    → DiscoveredMetadata
    → ProviderState Cache
    → Duration
granted http_date wall d p =
    max
      (fresh_for (
        policy_from_headers http_date wall d.response_headers
          (unwrap_or p.metadata_refresh_interval default_refresh_interval)))
      p.metadata_minimum_cache_duration

metadata_cache_deadlines-first :
    (now : Instant) (policy : CachePolicy) (kept : Duration)
    → now + fresh_for policy < instant_limit
    → (metadata_cache_deadlines now policy kept).0 ≡ some (now + fresh_for policy)
unfolding metadata_cache_deadlines metadata_refresh_deadline checked_add
metadata_cache_deadlines-first now policy kept h = ground arith

-- While automatic refresh is enabled, a snapshot that was published at `now` needs a refresh exactly
-- from `now` plus the lifetime granted to it on: the longer of the lifetime of its headers and of
-- the floor that is configured when it is published. The sum must be an instant.
pub publish-needs_refresh :
    {Cache : Type 0} (http_date : Bytes → Option SystemTime) (wall : SystemTime)
    (now later : Instant) (d : DiscoveredMetadata) (jwks : Cache) (p : ProviderState Cache)
    → is_some p.metadata_refresh_interval ≡ true
    → now + granted http_date wall d p < instant_limit
    → metadata_needs_refresh later (publish http_date wall now d jwks p)
      ≡ leb (now + granted http_date wall d p) later
unfolding publish metadata_needs_refresh cache_policy
publish-needs_refresh http_date wall now later d jwks p enabled fits =
    let policy =
      policy_from_headers http_date wall d.response_headers
        (unwrap_or p.metadata_refresh_interval default_refresh_interval) in
    let longest = (apply_minimum_cache_duration_lem policy p.metadata_minimum_cache_duration).0 in
    rw
      (
        enabled,
        metadata_cache_deadlines-first now
            (apply_minimum_cache_duration policy p.metadata_minimum_cache_duration)
            p.metadata_retain_on_error (ground (arith, longest)),
        longest,
      )
      (ground arith)

-- The deadlines of a response whose policy was `do_not_store` before the floor.
do_not_store-deadlines :
    (now : Instant) (minimum kept : Duration)
    → now + minimum < instant_limit
    → metadata_cache_deadlines now (apply_minimum_cache_duration do_not_store minimum) kept
      ≡ (some (now + minimum), none, false)
unfolding metadata_cache_deadlines metadata_refresh_deadline checked_add metadata_stale_deadline
    apply_minimum_cache_duration
do_not_store-deadlines now minimum kept fits = ground arith

-- A `no-store` directive in a `Cache-Control` field of the response, whatever else its headers say,
-- is no more than a floor on how long its document serves: the document is published all the same;
-- while automatic refresh is enabled, it needs a refresh exactly from the configured floor after its
-- publication on, if the sum is an instant; and a refresh that fails, at whatever time, returns its
-- error and leaves the state alone, in place of handing the document out again.
pub publish_no_store :
    {Cache : Type 0} (http_date : Bytes → Option SystemTime) (wall : SystemTime)
    (now later failed : Instant) (error : OidcError) (d : DiscoveredMetadata) (jwks : Cache)
    (p : ProviderState Cache)
    → any (is_named (codes "no-store")) (cache_pieces d.response_headers) ≡ true
    → is_some p.metadata_refresh_interval ≡ true
    → now + p.metadata_minimum_cache_duration < instant_limit
    → ((publish http_date wall now d jwks p).metadata ≡ d.metadata)
      × (metadata_needs_refresh later (publish http_date wall now d jwks p)
          ≡ leb (now + p.metadata_minimum_cache_duration) later)
      × (metadata_after_refresh_error failed error (publish http_date wall now d jwks p)
          ≡ (err error, publish http_date wall now d jwks p))
unfolding publish metadata_needs_refresh metadata_after_refresh_error cache_policy
publish_no_store http_date wall now later failed error d jwks p directive enabled fits =
    let policy =
      (policy-eq-do_not_store_iff http_date wall d.response_headers
          (unwrap_or p.metadata_refresh_interval default_refresh_interval)).1
        directive in
    let deadlines =
      do_not_store-deadlines now p.metadata_minimum_cache_duration p.metadata_retain_on_error
        fits in
    (
      refl,
      rw (publish, enabled, policy, deadlines) (ground arith),
      rw (publish, enabled, policy, deadlines) refl,
    )
