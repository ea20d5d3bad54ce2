-- ===== src/Client/Refresh/Outcomes.antt =====
-- src/client.rs: every way in which `refresh_metadata_if_stale` ends, and what it leaves.
use oidc4rs.Client.Provider.Fresh.{metadata_after_refresh_error_lem}
use oidc4rs.Prelude.{
  ◌<◌, ◌≡◌, refl, sym, ◌∙◌, ◌↔◌, inl, inr, true, false, some, arith, Bool-cases, Result-cases, ok,
  err,
}
use mathlib.Core.Path.{subst}
use oidc4rs.Error.{OidcError, Outcome}
use oidc4rs.Client.Provider.{
  ProviderState, metadata_needs_refresh, metadata_after_refresh_error, publish, retry_deadline,
  none_or_come,
}
use oidc4rs.Metadata.Discovery.{DiscoveredMetadata, discover_with_cache}
use oidc4rs.Metadata.Discovery.Outcomes.{Discovers, discover_iff}
use oidc4rs.Client.Keys.{fetch_keys}
use oidc4rs.Client.Refresh.{
  Services, Readings, fetch_replacement, replacement_cache, refresh_metadata_if_stale,
  refresh_metadata_from, settle_refresh, HttpRequest, HttpResponse, url_eq, ProviderMetadata,
  Instant,
}

module _ {Cache : Type 0} (env : Services Cache)
    (execute : HttpRequest → Outcome HttpResponse) where
  abbrev Found : ProviderState Cache → Outcome DiscoveredMetadata → Type 0
  Found p o = Discovers env.urls env.decode execute p.metadata.issuer o

  -- How the fetch of a replacement ends, of the document and of the keys that it names.
  pub data Replaces (p : ProviderState Cache) : Outcome (DiscoveredMetadata × Cache) → Type 0 where
    not_found : (e : OidcError) → Found p (err e) → Replaces p (err e)
    same_keys :
        (d : DiscoveredMetadata)
        → Found p (ok d)
        → url_eq d.metadata.jwks_uri p.metadata.jwks_uri ≡ true
        → Replaces p (ok (d, p.jwks))
    no_keys :
        (d : DiscoveredMetadata) (e : OidcError)
        → Found p (ok d)
        → url_eq d.metadata.jwks_uri p.metadata.jwks_uri ≡ false
        → env.jwks_ops.keys (fetch_keys execute) (env.jwks_ops.new_cache d.metadata.jwks_uri.text)
          ≡ err e
        → Replaces p (err e)
    new_keys :
        (d : DiscoveredMetadata)
        → Found p (ok d)
        → url_eq d.metadata.jwks_uri p.metadata.jwks_uri ≡ false
        → env.jwks_ops.keys (fetch_keys execute) (env.jwks_ops.new_cache d.metadata.jwks_uri.text)
          ≡ ok tt
        → Replaces p (ok (d, env.jwks_ops.new_cache d.metadata.jwks_uri.text))

  discovers :
      (p : ProviderState Cache) (o : Outcome DiscoveredMetadata)
      → Found p o
      → discover_with_cache env.urls env.decode execute p.metadata.issuer ≡ o
  discovers p o = (discover_iff env.urls env.decode execute p.metadata.issuer o).1

  Replaces-fetch :
      {p : ProviderState Cache} {o : Outcome (DiscoveredMetadata × Cache)}
      → Replaces p o
      → fetch_replacement env execute p ≡ o
  unfolding fetch_replacement replacement_cache
  Replaces-fetch {p} (not_found e f) = rw (fetch_replacement, discovers p _ f) refl
  Replaces-fetch {p} (same_keys d f u) = rw (fetch_replacement, discovers p _ f, u) refl
  Replaces-fetch {p} (no_keys d e f u k) = rw (fetch_replacement, discovers p _ f, u, k) refl
  Replaces-fetch {p} (new_keys d f u k) = rw (fetch_replacement, discovers p _ f, u, k) refl

  fetch-total :
      (p : ProviderState Cache) → (o : Outcome (DiscoveredMetadata × Cache)) × Replaces p o
  fetch-total p =
      let run = discover_with_cache env.urls env.decode execute p.metadata.issuer in
      let ends = (discover_iff env.urls env.decode execute p.metadata.issuer run).0 refl in
      elim (Result-cases run) [
        | inr (e, is) ↦ (_, not_found e (subst (Found p) is ends))
        | inl (d, is) ↦
            let f = subst (Found p) is ends in
            elim (Bool-cases (url_eq d.metadata.jwks_uri p.metadata.jwks_uri)) [
              | inl u ↦ (_, same_keys d f u)
              | inr u ↦
                  elim (Result-cases (
                    env.jwks_ops.keys (fetch_keys execute)
                      (env.jwks_ops.new_cache d.metadata.jwks_uri.text))) [
                        | inr (e, k) ↦ (_, no_keys d e f u k)
                        | inl (done, k) ↦ (_, new_keys d f u k)
                      ]
            ]
      ]

  module _ (r : Readings) (p : ProviderState Cache) where
    -- The document needs a refresh at both checks.
    pub record IsStale : Type 0 where
      pub at_first : metadata_needs_refresh r.checked p ≡ true
      pub at_second : metadata_needs_refresh r.rechecked p ≡ true

    pub data Refreshes : Outcome ProviderMetadata → ProviderState Cache → Type 0 where
      fresh_at_once : metadata_needs_refresh r.checked p ≡ false → Refreshes (ok p.metadata) p
      fresh_meanwhile :
          metadata_needs_refresh r.checked p ≡ true
          → metadata_needs_refresh r.rechecked p ≡ false
          → Refreshes (ok p.metadata) p
      replaced :
          (d : DiscoveredMetadata) (jwks : Cache)
          → IsStale
          → Replaces p (ok (d, jwks))
          → Refreshes (ok d.metadata) (publish env.http_date r.wall r.published d jwks p)
      retained :
          (e : OidcError) (deadline : Instant)
          → IsStale
          → Replaces p (err e)
          → p.stale_until ≡ some deadline
          → r.failed < deadline
          → Refreshes
              (ok p.metadata)
              (record p { retry_after = some (retry_deadline r.failed deadline) })
      failed :
          (e : OidcError)
          → IsStale
          → Replaces p (err e)
          → none_or_come r.failed p.stale_until ≡ true
          → Refreshes (err e) p

    Refreshes-run :
        {o : Outcome ProviderMetadata} {p' : ProviderState Cache}
        → Refreshes o p'
        → refresh_metadata_if_stale env execute r p ≡ (o, p')
    unfolding refresh_metadata_if_stale refresh_metadata_from settle_refresh
        metadata_after_refresh_error
    Refreshes-run (fresh_at_once h) = rw (refresh_metadata_if_stale, h) refl
    Refreshes-run (fresh_meanwhile h k) = rw (refresh_metadata_if_stale, h, k) refl
    Refreshes-run (replaced d jwks s f) =
        rw
          (
            refresh_metadata_if_stale,
            s.at_first,
            s.at_second,
            refresh_metadata_from,
            Replaces-fetch f,
          )
          refl
    Refreshes-run (retained e deadline s f h lt) =
        rw
          (
            refresh_metadata_if_stale,
            s.at_first,
            s.at_second,
            refresh_metadata_from,
            Replaces-fetch f,
            h,
          )
          (ground (arith, lt))
    Refreshes-run (failed e s f passed) =
        rw
          (
            refresh_metadata_if_stale,
            s.at_first,
            s.at_second,
            refresh_metadata_from,
            Replaces-fetch f,
          )
          (ground (arith, passed))

    stale-total :
        IsStale → (o : Outcome ProviderMetadata) × (p' : ProviderState Cache) × Refreshes o p'
    stale-total s =
        let (o, f) = fetch-total p in
        elim (Result-cases o) [
          | inl ((d, jwks), is) ↦ (_, _, replaced d jwks s (subst (Replaces p) is f))
          | inr (e, is) ↦
              let failure = subst (Replaces p) is f in
              elim (metadata_after_refresh_error_lem r.failed e p) [
                | inl (deadline, until, ahead, kept, a, b, c) ↦
                    (_, _, retained e deadline s failure until ahead)
                | inr (reported, passed) ↦ (_, _, failed e s failure passed)
              ]
        ]

    Refreshes-total : (o : Outcome ProviderMetadata) × (p' : ProviderState Cache) × Refreshes o p'
    Refreshes-total = elim (Bool-cases (metadata_needs_refresh r.checked p)) [
      | inr h ↦ (_, _, fresh_at_once h)
      | inl h ↦ elim (Bool-cases (metadata_needs_refresh r.rechecked p)) [
        | inr k ↦ (_, _, fresh_meanwhile h k)
        | inl k ↦ stale-total (record { at_first = h; at_second = k })
      ]
    ]

    -- A refresh ends with this result and this state exactly if it ends in one of these ways. It
    -- returns the present document and changes nothing, if that needs no refresh at one of the two
    -- checks. Otherwise it fetches a replacement, with new keys if the URL of the keys is another.
    -- It publishes and returns that; or, if the fetch fails, it returns the present document while
    -- the deadline of stale use lies ahead, and puts off the next attempt; or it returns the
    -- error of the fetch and changes nothing.
    pub refresh_metadata_if_stale_iff :
        (o : Outcome ProviderMetadata) (p' : ProviderState Cache)
        → (refresh_metadata_if_stale env execute r p ≡ (o, p')) ↔ Refreshes o p'
    refresh_metadata_if_stale_iff o p' = (
      λ h.
          let (o1, p1, x) = Refreshes-total in
          let same : (o1, p1) ≡ (o, p') = sym (Refreshes-run x) ∙ h in
          subst (λ t. Refreshes t.0 t.1) same x,
      λ x. Refreshes-run x,
    )
