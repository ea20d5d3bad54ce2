-- ===== src/Client/Refresh/Steps.antt =====
-- src/client.rs: the tasks of one client as steps. `provider` is behind a read-write lock and
-- `metadata_refresh_lock` lets one task refresh at a time, so a step is one section that holds a
-- lock of the state: a setter, the start of a refresh with its snapshot, or its end. Between start
-- and end, where the task awaits the network, any setter may run.
use oidc4rs.Client.Keys.{fetch_keys}
use oidc4rs.Metadata.Discovery.{discover-IsValid, cache_policy}
use oidc4rs.Metadata.Provider.{validate, validate_iff}
use oidc4rs.Error.{OidcError}
use oidc4rs.Client.Provider.Deadlines.{metadata_cache_deadlines_lem}
use oidc4rs.Client.Provider.{
  state_from_parts, publish, metadata_after_refresh_error, discovered_state,
  default_refresh_interval, default_minimum_cache_duration, default_retain_on_error,
}
use oidc4rs.Types.Url.{IssuerUrl}
use oidc4rs.Prelude.{◌≡◌, Option, none, some, arith, >>=-eq-ok, ok}
use oidc4rs.Client.Provider.Setting.{
  Setting, configure, configure-HasOrderedDeadlines, configure_keeps,
}
use oidc4rs.Client.Refresh.{
  Services, fetch_replacement, ProviderState, Instant, ProviderMetadata, HttpRequest, Outcome,
  HttpResponse, SystemTime, DiscoveredMetadata, discover_with_cache,
}
use oidc4rs.Client.Refresh.Laws.{IsSound, publish-IsSound, metadata_after_refresh_error-IsSound}

-- The client's shared state: `provider`, and the snapshot of the task that holds the refresh lock.
pub record Shared (Cache : Type 0) : Type 0 where
  pub provider : ProviderState Cache
  pub refreshing : Option (ProviderState Cache)

module _ {Cache : Type 0} (env : Services Cache) where
  pub data Step : Shared Cache → Shared Cache → Type 0 where
    set :
        (x : Setting) (p : ProviderState Cache) (held : Option (ProviderState Cache))
        → Step
            (record { provider = p; refreshing = held })
            (record { provider = configure x p; refreshing = held })
    -- The lock is free, and the task that gets it takes its snapshot.
    begin :
        (p : ProviderState Cache)
        → Step
            (record { provider = p; refreshing = none })
            (record { provider = p; refreshing = some p })
    -- The lock is given back with nothing written: a forced refresh failed, or the caller dropped it.
    release :
        (p current : ProviderState Cache)
        → Step
            (record { provider = p; refreshing = some current })
            (record { provider = p; refreshing = none })
    finish :
        (execute : HttpRequest → Outcome HttpResponse) (wall : SystemTime) (now : Instant)
        (p current : ProviderState Cache) (d : DiscoveredMetadata) (jwks : Cache)
        → fetch_replacement env execute current ≡ ok (d, jwks)
        → Step
            (record { provider = p; refreshing = some current })
            (record { provider = publish env.http_date wall now d jwks p; refreshing = none })
    fail :
        (now : Instant) (error : OidcError) (p current : ProviderState Cache)
        → Step
            (record { provider = p; refreshing = some current })
            (record { provider = (metadata_after_refresh_error now error p).1; refreshing = none })

  -- The states that the tasks can reach from a client's first state.
  pub data Reaches (p : ProviderState Cache) : Shared Cache → Type 0 where
    start : Reaches p (record { provider = p; refreshing = none })
    then_step : {s t : Shared Cache} → Reaches p s → Step s t → Reaches p t

  abbrev pub HoldsSound : IssuerUrl → Option (ProviderState Cache) → Type 0
  HoldsSound issuer none = Unit
  HoldsSound issuer (some current) = IsSound env issuer current

  pub record IsSoundShared (issuer : IssuerUrl) (s : Shared Cache) : Type 0 where
    pub sound : IsSound env issuer s.provider
    pub snapshot : HoldsSound issuer s.refreshing

  Step-IsSoundShared :
      (issuer : IssuerUrl) {s t : Shared Cache}
      → Step s t
      → IsSoundShared issuer s
      → IsSoundShared issuer t
  Step-IsSoundShared issuer (set x p held) w = record {
    sound = record {
      serves = rw ((configure_keeps x p).0, (configure_keeps x p).1) w.sound.serves;
      ordered = configure-HasOrderedDeadlines x p w.sound.ordered;
    };
    snapshot = w.snapshot;
  }
  Step-IsSoundShared issuer (begin p) w = record { sound = w.sound; snapshot = w.sound }
  Step-IsSoundShared issuer (release p current) w = record { sound = w.sound; snapshot = tt }
  Step-IsSoundShared issuer (finish execute wall now p current d jwks h) w = record {
    sound = publish-IsSound env execute wall now issuer current p d jwks w.snapshot h;
    snapshot = tt;
  }
  Step-IsSoundShared issuer (fail now error p current) w = record {
    sound = metadata_after_refresh_error-IsSound env now error issuer p w.sound;
    snapshot = tt;
  }

  pub Reaches-IsSoundShared :
      (issuer : IssuerUrl) (p : ProviderState Cache) (s : Shared Cache)
      → IsSound env issuer p
      → Reaches p s
      → IsSoundShared issuer s
  Reaches-IsSoundShared issuer p s w start = record { sound = w; snapshot = tt }
  Reaches-IsSoundShared issuer p s w (then_step r step) =
      Step-IsSoundShared issuer step (Reaches-IsSoundShared issuer p _ w r)

  -- The two ways to make a client: of a document that the caller has, or by discovery.
  pub data Created : IssuerUrl → ProviderState Cache → Type 0 where
    from_parts :
        (metadata : ProviderMetadata) (p : ProviderState Cache)
        → state_from_parts env.jwks_ops metadata ≡ ok p
        → Created metadata.issuer p
    discovered :
        (execute : HttpRequest → Outcome HttpResponse) (issuer : IssuerUrl) (wall : SystemTime)
        (now : Instant) (d : DiscoveredMetadata) (p : ProviderState Cache)
        → discover_with_cache env.urls env.decode execute issuer ≡ ok d
        → discovered_state env.jwks_ops (fetch_keys execute) env.http_date wall now d ≡ ok p
        → Created issuer p

  pub Created-IsSound :
      (issuer : IssuerUrl) (p : ProviderState Cache) → Created issuer p → IsSound env issuer p
  unfolding state_from_parts discovered_state
  Created-IsSound _ _ (from_parts metadata p h) =
      let (checked, valid, made) = >>=-eq-ok (validate metadata) _ h in
      let document : p.metadata ≡ metadata = ground arith in
      record {
        serves = record {
          valid = rw document ((validate_iff metadata).0 valid);
          issued = ground arith;
          keyed = rw document (ground arith);
        };
        ordered = record {
          scheduled = ground arith;
          stale_matches = ground arith;
          retry_bounded = ground arith;
        };
      }
  Created-IsSound _ _ (discovered execute issuer wall now d p found h) =
      let (valid, same, response) = discover-IsValid env.urls env.decode execute issuer d found in
      let (scheduled, stale) =
        metadata_cache_deadlines_lem now
          (cache_policy env.http_date wall d default_refresh_interval
            default_minimum_cache_duration)
          default_retain_on_error in
      let document : p.metadata ≡ d.metadata = ground arith in
      record {
        serves = record {
          valid = rw document valid;
          issued = ground arith;
          keyed = rw document (ground arith);
        };
        ordered = record {
          scheduled = ground arith;
          stale_matches = ground arith;
          retry_bounded = ground arith;
        };
      }

  -- However a client for an issuer was created, in every interleaving of its tasks it holds a valid
  -- document of that issuer, the key cache for that document's URL, and its deadlines in order.
  pub Reaches-IsSound :
      (issuer : IssuerUrl) (p : ProviderState Cache) (s : Shared Cache)
      → Created issuer p
      → Reaches p s
      → IsSound env issuer s.provider
  Reaches-IsSound issuer p s created r =
      (Reaches-IsSoundShared issuer p s (Created-IsSound issuer p created) r).sound
