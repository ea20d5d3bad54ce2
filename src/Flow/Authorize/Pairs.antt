-- ===== src/Flow/Authorize/Pairs.antt =====
-- The parameters of the authorization URL.
use mathlib.Core.List.{append-nil, append_assoc}
use oidc4rs.Flow.Authorize.{AuthorizeUrlBuilder, append_pairs, build, build_pairs}
use oidc4rs.Types.Url.{UrlOps, Url}
use oidc4rs.Prelude.{◌≡◌, ◌∙◌, List, [], ◌∷◌, ◌++◌, Bytes}

-- The pairs of a URL's query, and what the crate `url` documents of its editor: opening it changes
-- no pair, and each `append_pair` adds one at the end.
pub record QueryLaws (ops : UrlOps) (query_pairs : Url → List (Bytes × Bytes)) : Type 0 where
  pub opened : (u : Url) → query_pairs (ops.query_pairs_mut u) ≡ query_pairs u
  pub appended :
      (u : Url) (k v : Bytes) → query_pairs (ops.append_pair u k v) ≡ query_pairs u ++ ((k, v) ∷ [])

module _ (ops : UrlOps) (query_pairs : Url → List (Bytes × Bytes))
    (laws : QueryLaws ops query_pairs) where
  pub query-append_pairs :
      (u : Url) (ps : List (Bytes × Bytes))
      → query_pairs (append_pairs ops u ps) ≡ query_pairs u ++ ps
  unfolding append_pairs
  query-append_pairs u [] = rw append-nil
  query-append_pairs u ((k, v) ∷ ps) =
      query-append_pairs (ops.append_pair u k v) ps ∙ rw (laws.appended u k v, append_assoc)

  -- The authorization URL has the pairs of the endpoint, then the required ones, then the state and
  -- the nonce, then the optional ones in the order of the source.
  pub query-build :
      (b : AuthorizeUrlBuilder)
      → query_pairs (build ops b).authorization_url ≡ query_pairs b.url ++ build_pairs b
  unfolding build
  query-build b =
      query-append_pairs (ops.query_pairs_mut b.url) (build_pairs b) ∙ rw (laws.opened b.url)
