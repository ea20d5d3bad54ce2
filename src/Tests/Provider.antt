-- ===== src/Tests/Provider.antt =====
-- Runs of the provider state: refreshes, deadlines, and the freshness of responses.
use oidc4rs.Error.{http, say}
use oidc4rs.Prelude.{
  ◌+◌, ◌≡◌, refl, ◌↔◌, true, none, some, [], ◌∷◌, arith, leb, ok, err, Bytes, codes, eqb, is_empty,
  eq_ignore_ascii_case, is_ascii_space, trim_start_by, trim_by, split_once, split_from, split, any,
  here,
}
use oidc4rs.Metadata.Cache.{directive_parts}
use oidc4rs.Types.Url.{issuer_eq}
use oidc4rs.Client.Refresh.Outcomes.{Refreshes, refresh_metadata_if_stale_iff}
use oidc4rs.Tests.Env.{offline}
use oidc4rs.Time.{checked_add}
use oidc4rs.Metadata.Discovery.Outcomes.{Discovers, discover_iff}
use oidc4rs.Prelude.{
  ◌+◌, ◌≡◌, refl, ◌↔◌, true, none, some, [], ◌∷◌, arith, leb, ok, err, Bytes, codes, eqb, is_empty,
  eq_ignore_ascii_case, is_ascii_space, trim_start_by, trim_by, split_once, split_from, split, any,
  here,
}
use oidc4rs.Metadata.Cache.Directives.{is_named, cache_pieces}
use oidc4rs.Time.{checked_add}
use oidc4rs.Metadata.Cache.{
  policy_from_headers, compute_policy_from_directives, collect_directives, lifetime_of, header,
  response_age, expires_lifetime,
}
use oidc4rs.Prelude.{
  ◌+◌, ◌≡◌, refl, ◌↔◌, true, none, some, [], ◌∷◌, arith, leb, ok, err, Bytes, codes, eqb, is_empty,
  eq_ignore_ascii_case, is_ascii_space, trim_start_by, trim_by, split_once, split_from, split, any,
  here,
}
use oidc4rs.Tests.Env.{services, online, readings, stale_state, manual_state, document, op, urls}
use oidc4rs.Client.Refresh.{
  refresh_metadata_if_stale, fetch_replacement, refresh_metadata_from, settle_refresh,
  replacement_cache,
}
use oidc4rs.Client.Refresh.Laws.{IsSound, refresh_metadata_if_stale-Fetched}
use oidc4rs.Client.Refresh.Steps.{
  Reaches-IsSound, Reaches, start, then_step, begin, finish, from_parts,
}
use oidc4rs.Client.Provider.{
  ProviderState, publish, metadata_after_refresh_error, metadata_stale_deadline,
  metadata_needs_refresh, state_from_parts, retry_deadline,
}
use oidc4rs.Client.Provider.Deadlines.{HasOrderedDeadlines}
use oidc4rs.Client.Provider.Fresh.{publish_no_store, publish-needs_refresh, granted}
use oidc4rs.Metadata.Provider.{IsValid, validate}
use oidc4rs.Metadata.Discovery.{
  DiscoveredMetadata, discover_with_cache, discovery_url, discovery_request, accept_metadata,
}

abbrev pub found : DiscoveredMetadata
found = record { metadata = document; response_headers = [] }

document-IsValid : IsValid document
document-IsValid = record {
  has_response_types = λ e. cc;
  has_subject_types = λ e. cc;
  has_rs256 = here;
}

stale_state-ordered : HasOrderedDeadlines stale_state
unfolding metadata_stale_deadline checked_add
stale_state-ordered = record { scheduled = refl; stale_matches = refl; retry_bounded = tt }

pub stale_state-IsSound : IsSound services op stale_state
stale_state-IsSound = record {
  serves = record { valid = document-IsValid; issued = refl; keyed = refl };
  ordered = stale_state-ordered;
}

pub manual_state-IsSound : IsSound services op manual_state
manual_state-IsSound = record {
  serves = record { valid = document-IsValid; issued = refl; keyed = refl };
  ordered = record { scheduled = refl; stale_matches = refl; retry_bounded = tt };
}

fetched : fetch_replacement services online stale_state ≡ ok (found, codes "https://op/keys")
unfolding fetch_replacement discover_with_cache discovery_url discovery_request accept_metadata
    validate replacement_cache any eqb issuer_eq
fetched = refl

refreshed : (refresh_metadata_if_stale services online readings stale_state).0 ≡ ok document
unfolding refresh_metadata_if_stale metadata_needs_refresh refresh_metadata_from settle_refresh
refreshed = rw (refresh_metadata_if_stale, refresh_metadata_from, fetched) refl

refresh_metadata_if_stale-Fetched_example :
    (d : DiscoveredMetadata) × (jwks : Bytes) × (fetch_replacement services online stale_state
      ≡ ok (d, jwks))
    × (document ≡ d.metadata)
    × ((refresh_metadata_if_stale services online readings stale_state).1
        ≡ publish services.http_date 100 100 d jwks stale_state)
refresh_metadata_if_stale-Fetched_example =
    refresh_metadata_if_stale-Fetched services online readings stale_state 50 document
      stale_state-ordered refl (omega arith) (omega arith) (omega arith) refreshed

pub manual_state_made : state_from_parts services.jwks_ops document ≡ ok manual_state
unfolding state_from_parts validate any eqb
manual_state_made = refl

pub manual_fetched :
    fetch_replacement services online manual_state ≡ ok (found, codes "https://op/keys")
unfolding fetch_replacement discover_with_cache discovery_url discovery_request accept_metadata
    validate replacement_cache any eqb issuer_eq
manual_fetched = refl

abbrev reached : ProviderState Bytes
reached = publish services.http_date 100 100 found (codes "https://op/keys") manual_state

reached-Reaches : Reaches services manual_state (record { provider = reached; refreshing = none })
reached-Reaches =
    then_step (then_step start (begin manual_state)) (
      finish online 100 100 manual_state manual_state found (codes "https://op/keys")
        manual_fetched)

Reaches-IsSound_example : IsSound services op reached
Reaches-IsSound_example =
    Reaches-IsSound services op manual_state (record { provider = reached; refreshing = none })
      (from_parts document manual_state manual_state_made) reached-Reaches

granted-found : granted services.http_date 100 found stale_state ≡ 10
unfolding policy_from_headers compute_policy_from_directives collect_directives lifetime_of header
    response_age expires_lifetime
granted-found = refl

publish-needs_refresh_example :
    metadata_needs_refresh 103 (publish services.http_date 100 100 found (codes "k") stale_state)
    ≡ leb (100 + granted services.http_date 100 found stale_state) 103
publish-needs_refresh_example =
    publish-needs_refresh services.http_date 100 100 103 found (codes "k") stale_state refl
      (rw granted-found (omega arith))

discovered : discover_with_cache urls services.decode online op ≡ ok found
unfolding discover_with_cache discovery_url discovery_request accept_metadata validate any eqb
    issuer_eq
discovered = refl

abbrev unstored : DiscoveredMetadata
unstored = record {
  metadata = document;
  response_headers = (codes "Cache-Control", codes "max-age=300, no-store") ∷ [];
}

unstored-directive :
    any (is_named (codes "no-store")) (cache_pieces unstored.response_headers) ≡ true
unfolding eq_ignore_ascii_case split split_from trim_by trim_start_by is_ascii_space directive_parts
    split_once any is_empty
unstored-directive = refl

publish_no_store_example :
    ((publish services.http_date 100 100 unstored (codes "k") stale_state).metadata ≡ document)
    × (metadata_needs_refresh 104
          (publish services.http_date 100 100 unstored (codes "k") stale_state)
        ≡ leb (100 + 5) 104)
    × (metadata_after_refresh_error 110
          (http (say "offline"))
          (publish services.http_date 100 100 unstored (codes "k") stale_state)
        ≡ (
          err (http (say "offline")),
          publish services.http_date 100 100 unstored (codes "k") stale_state,
        ))
publish_no_store_example =
    publish_no_store services.http_date 100 100 104 110 (http (say "offline")) unstored (codes "k")
      stale_state unstored-directive refl (omega arith)

discover_iff_example :
    (discover_with_cache urls services.decode online op ≡ ok found)
    ↔ Discovers urls services.decode online op (ok found)
discover_iff_example = discover_iff urls services.decode online op (ok found)

-- The snapshot is stale, and the fetched document is published with the present keys.
refresh_metadata_if_stale_iff_example :
    (refresh_metadata_if_stale services online readings stale_state
      ≡ (ok document, publish services.http_date 100 100 found stale_state.jwks stale_state))
    ↔ Refreshes services online readings stale_state
        (ok document)
        (publish services.http_date 100 100 found stale_state.jwks stale_state)
refresh_metadata_if_stale_iff_example =
    refresh_metadata_if_stale_iff services online readings stale_state (ok document)
      (publish services.http_date 100 100 found stale_state.jwks stale_state)

-- At 20, offline: the present document is retained, and the next attempt put off up to 50.
retains :
    refresh_metadata_if_stale services offline (record readings { failed = 20 }) stale_state
    ≡ (ok document, record stale_state { retry_after = some 50 })
unfolding refresh_metadata_if_stale metadata_needs_refresh refresh_metadata_from settle_refresh
    fetch_replacement discover_with_cache discovery_url discovery_request
    metadata_after_refresh_error retry_deadline checked_add
retains = refl
