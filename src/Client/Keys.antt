-- ===== src/Client/Keys.antt =====
-- src/client.rs: `HttpJwksFetcher`, through which jose4rs' key cache reads the keys of a provider, and
-- the cache itself, whose code is jose4rs'.
use oidc4rs.Time.{Duration, from_secs}
use oidc4rs.Prelude.{
  ◌^◌, Option, none, some, List, [], ◌∷◌, ◌==◌, if◌then◌else◌, ◌>>=?◌, Result, ◌>>=◌, ◌>>◌, ensure,
  map_err, ok, Bytes, codes, eq_ignore_ascii_case, parse_uint,
}
use oidc4rs.Error
use oidc4rs.Error.{Outcome, Message, lit, num}
use oidc4rs.Transport.Http.{HttpRequest, HttpResponse, HttpMethod}

-- The value of the first header of the name, in any case.
unfoldable pub first_header : Bytes → List (Bytes × Bytes) → Option Bytes
first_header name [] = none
first_header name ((k, v) ∷ hs) =
    if eq_ignore_ascii_case k name then some v else first_header name hs

-- `FetchResponse`.
pub record FetchResponse : Type 0 where
  pub body : Bytes
  pub cache_control : Option Bytes
  pub expires : Option Bytes
  pub age : Option Duration

-- `HttpJwksFetcher::fetch`, with the text that it puts into a `JoseError::JwksFetch`.
unfoldable pub fetch_keys :
    (HttpRequest → Outcome HttpResponse) → Bytes → Result Message FetchResponse
fetch_keys execute url = do
  resp ←
      map_err (λ e. lit "jwks fetch failed: " ∷ Error.text e)
        (execute (record {
          method = HttpMethod.get;
          url = url;
          headers = (codes "Accept", codes "application/json") ∷ [];
          body = none;
        }))
  ensure (resp.status == 200) (lit "jwks fetch status " ∷ num resp.status ∷ [])
  ok (record {
    body = resp.body;
    cache_control = first_header (codes "cache-control") resp.headers;
    expires = first_header (codes "expires") resp.headers;
    age = first_header (codes "age") resp.headers >>=? λ v.
        (parse_uint (2 ^ 64) v >>=? λ n. some (from_secs n));
  })

-- `AsyncHttpsJwks`: `new_cache` makes the cache for a URL, and `keys` is the call that has it hold the
-- keys, which may ask the fetcher for them, so that what it returns is the network's at the time.
-- A cache is known here by its identity: the source never looks into it.
pub record JwksOps (Cache : Type 0) : Type 0 where
  pub new_cache : Bytes → Cache
  pub keys : (Bytes → Result Message FetchResponse) → Cache → Outcome (Unit {0})
