-- ===== src/Client/Provider/Setting.antt =====
-- The four setters of the client, as values: each is one write section.
use oidc4rs.Prelude.{◌≡◌, refl, arith}
use oidc4rs.Client.Provider.{
  ProviderState, set_refresh_interval, set_minimum_cache_duration, set_retain_on_error,
  disable_refresh, Instant, Duration,
}
use oidc4rs.Client.Provider.Deadlines.{
  HasOrderedDeadlines, set_refresh_interval-HasOrderedDeadlines,
  set_minimum_cache_duration-HasOrderedDeadlines, set_retain_on_error-HasOrderedDeadlines,
  disable_refresh-HasOrderedDeadlines,
}

-- A call of a setter, with the reading of the clock that it makes.
pub data Setting : Type 0 where
  interval : (now : Instant) → Duration → Setting
  minimum : (now : Instant) → Duration → Setting
  retention : Duration → Setting
  disabled : Setting

module _ {Cache : Type 0} where
  unfoldable pub configure : Setting → ProviderState Cache → ProviderState Cache
  configure (interval now d) p = set_refresh_interval now d p
  configure (minimum now d) p = set_minimum_cache_duration now d p
  configure (retention d) p = set_retain_on_error d p
  configure disabled p = disable_refresh p

  pub configure-HasOrderedDeadlines :
      (x : Setting) (p : ProviderState Cache)
      → HasOrderedDeadlines p
      → HasOrderedDeadlines (configure x p)
  unfolding configure
  configure-HasOrderedDeadlines (interval now d) p w =
      set_refresh_interval-HasOrderedDeadlines now d p
  configure-HasOrderedDeadlines (minimum now d) p w =
      set_minimum_cache_duration-HasOrderedDeadlines now d p w
  configure-HasOrderedDeadlines (retention d) p w = set_retain_on_error-HasOrderedDeadlines d p w
  configure-HasOrderedDeadlines disabled p w = disable_refresh-HasOrderedDeadlines p

  -- No setter touches the document or the keys.
  pub configure_keeps :
      (x : Setting) (p : ProviderState Cache)
      → ((configure x p).metadata ≡ p.metadata) × ((configure x p).jwks ≡ p.jwks)
  unfolding configure set_refresh_interval set_minimum_cache_duration set_retain_on_error
      disable_refresh
  configure_keeps (interval now d) p = (refl, refl)
  configure_keeps (minimum now d) p = ground arith
  configure_keeps (retention d) p = (refl, refl)
  configure_keeps disabled p = (refl, refl)
