-- ===== src/Client/Refresh/Laws.antt =====
-- What a refresh returns.
use oidc4rs.Error.{OidcError}
use oidc4rs.Client.Provider.Fresh.{metadata_after_refresh_error_lem, needs_refresh_of_stale}
use oidc4rs.Client.Provider.Deadlines.{
  HasOrderedDeadlines, publish-HasOrderedDeadlines,
  metadata_after_refresh_error-HasOrderedDeadlines,
}
use oidc4rs.Client.Provider.{metadata_after_refresh_error, publish, metadata_needs_refresh}
use oidc4rs.Metadata.Discovery.{discover-IsValid}
use oidc4rs.Metadata.Provider.{IsValid}
use oidc4rs.Types.Url.{IssuerUrl, url_eq_iff}
use oidc4rs.Prelude.{
  ◌≤◌, ◌<◌, ◌≡◌, refl, inl, inr, some, arith, Bool-cases, Result-cases, >>=-eq-ok, ok, err,
}
use oidc4rs.Client.Refresh.{
  Services, fetch_replacement, replacement_cache, ProviderState, HttpRequest, ProviderMetadata,
  Outcome, url_eq, HttpResponse, DiscoveredMetadata, discover_with_cache, refresh_metadata_if_stale,
  refresh_metadata_from, settle_refresh, publish, metadata_after_refresh_error, Readings, Instant,
  SystemTime,
}

-- A document that was returned is the given one.
abbrev pub IsReturned : Outcome ProviderMetadata → ProviderMetadata → Type 0
IsReturned (ok m) metadata = m ≡ metadata
IsReturned (err e) metadata = Unit

module _ {Cache : Type 0} (env : Services Cache) where
  -- What every state of a provider is: a valid document of the issuer, with the key cache that
  -- belongs to it.
  pub record Serves (issuer : IssuerUrl) (metadata : ProviderMetadata) (jwks : Cache) : Type 0 where
    pub valid : IsValid metadata
    pub issued : metadata.issuer ≡ issuer
    pub keyed : jwks ≡ env.jwks_ops.new_cache metadata.jwks_uri.text

  replacement_cache-keyed :
      (execute : HttpRequest → Outcome HttpResponse) (current : ProviderState Cache)
      (metadata : ProviderMetadata) (jwks : Cache)
      → current.jwks ≡ env.jwks_ops.new_cache current.metadata.jwks_uri.text
      → replacement_cache env execute current metadata ≡ ok jwks
      → jwks ≡ env.jwks_ops.new_cache metadata.jwks_uri.text
  unfolding replacement_cache
  replacement_cache-keyed execute current metadata jwks keyed h =
      elim (Bool-cases (url_eq metadata.jwks_uri current.metadata.jwks_uri)) [
        | inl same ↦
            rw ((url_eq_iff metadata.jwks_uri current.metadata.jwks_uri).0 same) (ground arith)
        | inr other ↦ ground arith
      ]

  -- A refresh from a state that serves an issuer fetches a replacement that serves the same issuer.
  pub fetch_replacement-Serves :
      (execute : HttpRequest → Outcome HttpResponse) (issuer : IssuerUrl)
      (current : ProviderState Cache) (d : DiscoveredMetadata) (jwks : Cache)
      → Serves issuer current.metadata current.jwks
      → fetch_replacement env execute current ≡ ok (d, jwks)
      → Serves issuer d.metadata jwks
  unfolding fetch_replacement
  fetch_replacement-Serves execute issuer current d jwks s h =
      let (d', found, rest) =
        >>=-eq-ok (discover_with_cache env.urls env.decode execute current.metadata.issuer) _ h in
      let (jwks', replaced, done) =
        >>=-eq-ok (replacement_cache env execute current d'.metadata) _ rest in
      let (valid, same, response) =
        discover-IsValid env.urls env.decode execute current.metadata.issuer d' found in
      let keyed = replacement_cache-keyed execute current d'.metadata jwks' s.keyed replaced in
      let same_document : d.metadata ≡ d'.metadata = ground arith in
      record {
        valid = rw same_document valid;
        issued = ground arith;
        keyed = rw same_document (ground arith);
      }

  -- A state that serves the issuer, with its deadlines in order.
  pub record IsSound (issuer : IssuerUrl) (p : ProviderState Cache) : Type 0 where
    pub serves : Serves issuer p.metadata p.jwks
    pub ordered : HasOrderedDeadlines p

  pub metadata_after_refresh_error-IsSound :
      (now : Instant) (error : OidcError) (issuer : IssuerUrl) (p : ProviderState Cache)
      → IsSound issuer p
      → IsSound issuer (metadata_after_refresh_error now error p).1
  metadata_after_refresh_error-IsSound now error issuer p s = record {
    serves = elim (metadata_after_refresh_error_lem now error p) [
      | inl (deadline, stale, ahead, kept, a, b, c) ↦ rw kept s.serves
      | inr (failed, passed) ↦ rw failed s.serves
    ];
    ordered = metadata_after_refresh_error-HasOrderedDeadlines now error p s.ordered;
  }

  pub publish-IsSound :
      (execute : HttpRequest → Outcome HttpResponse) (wall : SystemTime) (now : Instant)
      (issuer : IssuerUrl) (current p : ProviderState Cache) (d : DiscoveredMetadata) (jwks : Cache)
      → IsSound issuer current
      → fetch_replacement env execute current ≡ ok (d, jwks)
      → IsSound issuer (publish env.http_date wall now d jwks p)
  unfolding publish
  publish-IsSound execute wall now issuer current p d jwks s h = record {
    serves = fetch_replacement-Serves execute issuer current d jwks s.serves h;
    ordered = publish-HasOrderedDeadlines env.http_date wall now d jwks p;
  }

  -- The state is sound, and a document that was returned is the one in it.
  pub record IsSettled (issuer : IssuerUrl) (o : Outcome ProviderMetadata) (p : ProviderState Cache)
      : Type 0 where
    pub sound : IsSound issuer p
    pub returned : IsReturned o p.metadata

  refresh_metadata_from-IsSettled :
      (execute : HttpRequest → Outcome HttpResponse) (r : Readings) (issuer : IssuerUrl)
      (current p : ProviderState Cache)
      → IsSound issuer current
      → IsSound issuer p
      → IsSettled issuer
          (refresh_metadata_from env execute r current p).0
          (refresh_metadata_from env execute r current p).1
  unfolding refresh_metadata_from publish
  refresh_metadata_from-IsSettled execute r issuer current p s t =
      elim (Result-cases (fetch_replacement env execute current)) [
        | inl ((d, jwks), fetched) ↦
            rw (refresh_metadata_from, fetched)
              (record {
                sound =
                    publish-IsSound execute r.wall r.published issuer current p d jwks s fetched;
                returned = refl;
              })
        | inr (error, failed) ↦
            rw (refresh_metadata_from, failed) (record { sound = t; returned = tt })
      ]

  settle_refresh-IsSettled :
      (r : Readings) (issuer : IssuerUrl) (o : Outcome ProviderMetadata) (p : ProviderState Cache)
      → IsSettled issuer o p
      → IsSettled issuer (settle_refresh r (o, p)).0 (settle_refresh r (o, p)).1
  unfolding settle_refresh
  settle_refresh-IsSettled r issuer (ok m) p s = s
  settle_refresh-IsSettled r issuer (err error) p s = record {
    sound = metadata_after_refresh_error-IsSound r.failed error issuer p s.sound;
    returned = elim (metadata_after_refresh_error_lem r.failed error p) [
      | inl (deadline, stale, ahead, kept, a, b, c) ↦ rw kept refl
      | inr (failed, passed) ↦ rw failed tt
    ];
  }

  -- Whatever the network answers, the refresh of a sound state leaves a sound state of the same
  -- issuer: a valid document, the key cache for the URL that it names, and deadlines in order. The
  -- document that it returns, if any, is the one in that state.
  pub refresh_metadata_if_stale-IsSettled :
      (execute : HttpRequest → Outcome HttpResponse) (r : Readings) (issuer : IssuerUrl)
      (p : ProviderState Cache)
      → IsSound issuer p
      → IsSettled issuer
          (refresh_metadata_if_stale env execute r p).0
          (refresh_metadata_if_stale env execute r p).1
  unfolding refresh_metadata_if_stale
  refresh_metadata_if_stale-IsSettled execute r issuer p s =
      let kept : IsSettled issuer (ok p.metadata) p = record { sound = s; returned = refl } in
      let refreshed = refresh_metadata_from-IsSettled execute r issuer p p s s in
      elim (Bool-cases (metadata_needs_refresh r.checked p)) [
        | inr fresh ↦ rw fresh kept
        | inl stale ↦ elim (Bool-cases (metadata_needs_refresh r.rechecked p)) [
          | inr fresh ↦ rw (stale, fresh) kept
          | inl still ↦ rw (stale, still) (settle_refresh-IsSettled r issuer _ _ refreshed)
        ]
      ]

  settle_refresh-err :
      (r : Readings) (error : OidcError) (p : ProviderState Cache) (m : ProviderMetadata)
      → (settle_refresh r (err error, p)).0 ≡ ok m
      → (deadline : Instant) × (p.stale_until ≡ some deadline) × (r.failed < deadline)
  unfolding settle_refresh
  settle_refresh-err r error p m h = elim (metadata_after_refresh_error_lem r.failed error p) [
    | inl (deadline, stale, ahead, kept, a, b, c) ↦ (deadline, stale, ahead)
    | inr (failed, passed) ↦ absurd (ground arith)
  ]

  -- Let the deadlines be in order and the deadline of stale use have passed at both checks and
  -- after a failure. Then a document is returned only if this refresh fetched it, and it is
  -- published.
  pub refresh_metadata_if_stale-Fetched :
      (execute : HttpRequest → Outcome HttpResponse) (r : Readings) (p : ProviderState Cache)
      (deadline : Instant) (m : ProviderMetadata)
      → HasOrderedDeadlines p
      → p.stale_until ≡ some deadline
      → deadline ≤ r.checked
      → deadline ≤ r.rechecked
      → deadline ≤ r.failed
      → (refresh_metadata_if_stale env execute r p).0 ≡ ok m
      → (d : DiscoveredMetadata) × (jwks : Cache) × (fetch_replacement env execute p ≡ ok (d, jwks))
        × (m ≡ d.metadata)
        × ((refresh_metadata_if_stale env execute r p).1
            ≡ publish env.http_date r.wall r.published d jwks p)
  unfolding refresh_metadata_if_stale refresh_metadata_from settle_refresh
  refresh_metadata_if_stale-Fetched execute r p deadline m w stale first second failed h =
      let needs_first = needs_refresh_of_stale p r.checked deadline w stale first in
      let needs_second = needs_refresh_of_stale p r.rechecked deadline w stale second in
      elim (Result-cases (fetch_replacement env execute p)) [
        | inl ((d, jwks), fetched) ↦ (d, jwks, fetched, ground arith, ground arith)
        | inr (error, refused) ↦
            let (other, e, ahead) = settle_refresh-err r error p m (ground arith) in
            absurd (ground arith)
      ]
