-- ===== src/Metadata/Cache/Policy.antt =====
-- The freshness policy: what decides it, the bounds on its lifetime, and the caller's floor.
use oidc4rs.Time.{nanos_per_sec, from_secs}
use mathlib.Core.List.{Perm}
use oidc4rs.Metadata.Cache.Directives.{
  is_named, cache_pieces, collect-add_all, add_all-perm, add_all-no_store,
}
use oidc4rs.Prelude.{
  ◌+◌, ◌*◌, ◌≤◌, max, ◌≡◌, ◌↔◌, Bool, true, Option, none, some, List, [], ◌∷◌, arith, unwrap_or,
  Bytes, codes, any, In, here, there,
}
use oidc4rs.Metadata.Cache.{
  CachePolicy, cache_for, revalidate, do_not_store, SystemTime, policy_from_headers, Duration,
  parse_delta_seconds, add_directive, add_all, apply_minimum_cache_duration, Headers, response_age,
  max_delta_seconds, from_secs, add_named, CacheDirectives, compute_policy_from_directives,
  add_max_age, lifetime_of, header, directive_parts, no_directives,
}

module _ (http_date : Bytes → Option SystemTime) (now : SystemTime) (headers : Headers)
    (default : Duration) where
  -- The policy of the headers is `do_not_store` exactly when a `no-store` directive stands in a
  -- `Cache-Control` field, whatever else they say.
  pub policy-eq-do_not_store_iff :
      (policy_from_headers http_date now headers default ≡ do_not_store)
      ↔ (any (is_named (codes "no-store")) (cache_pieces headers) ≡ true)
  unfolding policy_from_headers compute_policy_from_directives
  policy-eq-do_not_store_iff = ground (
    arith,
    collect-add_all headers no_directives,
    add_all-no_store no_directives (cache_pieces headers),
  )

-- Two responses whose directives are the same in another order, in one field or in several, have
-- the same policy if they have the same `Expires`, `Date` and `Age`.
pub policy-perm :
    (http_date : Bytes → Option SystemTime) (now : SystemTime) (headers headers' : Headers)
    (default : Duration)
    → Perm (cache_pieces headers) (cache_pieces headers')
    → header headers (codes "expires") ≡ header headers' (codes "expires")
    → header headers (codes "date") ≡ header headers' (codes "date")
    → header headers (codes "age") ≡ header headers' (codes "age")
    → policy_from_headers http_date now headers default
      ≡ policy_from_headers http_date now headers' default
unfolding policy_from_headers response_age
policy-perm http_date now headers headers' default p e d a =
    simp (collect-add_all, add_all-perm no_directives p, e, d, a)

-- The bound on a stated age.
abbrev pub delta_limit : Duration
delta_limit = max_delta_seconds * nanos_per_sec

pub parse_delta_seconds-le : (value : Bytes) → parse_delta_seconds value ≤ delta_limit
unfolding parse_delta_seconds from_secs
parse_delta_seconds-le value = ground arith

-- The least of the stated ages bounds the lifetime.
abbrev pub BoundsAge : Option Duration → Duration → Type 0
BoundsAge none bound = ⊥
BoundsAge (some age) bound = age ≤ bound

add_directive-BoundsAge :
    (d : CacheDirectives) (part : Bytes) (bound : Duration)
    → BoundsAge d.max_age bound
    → BoundsAge (add_directive d part).max_age bound
unfolding add_directive add_named add_max_age
add_directive-BoundsAge d part bound h = ground arith

add_all-BoundsAge :
    (d : CacheDirectives) (ps : List Bytes) (bound : Duration)
    → BoundsAge d.max_age bound
    → BoundsAge (add_all d ps).max_age bound
unfolding add_all
add_all-BoundsAge d [] bound h = h
add_all-BoundsAge d (p ∷ ps) bound h =
    add_all-BoundsAge (add_directive d p) ps bound (add_directive-BoundsAge d p bound h)

add_directive-states :
    (d : CacheDirectives) (part argument : Bytes)
    → is_named (codes "max-age") part ≡ true
    → (directive_parts part).1 ≡ some argument
    → BoundsAge (add_directive d part).max_age (parse_delta_seconds argument)
unfolding add_directive add_named add_max_age
add_directive-states d part argument h e = ground arith

add_all-states :
    (part argument : Bytes) (d : CacheDirectives) (ps : List Bytes)
    → In part ps
    → is_named (codes "max-age") part ≡ true
    → (directive_parts part).1 ≡ some argument
    → BoundsAge (add_all d ps).max_age (parse_delta_seconds argument)
unfolding add_all
add_all-states part argument d _ (here {xs}) h e =
    add_all-BoundsAge (add_directive d part) xs _ (add_directive-states d part argument h e)
add_all-states part argument d _ (there {x} {xs} m) h e =
    add_all-states part argument (add_directive d x) xs m h e

-- Every stated `max-age` bounds the sum of the lifetime of what is cached and the age of the
-- response, unless the age alone is longer, and the lifetime is at most 2147483648 seconds.
pub policy-lifetime-le :
    (http_date : Bytes → Option SystemTime) (now : SystemTime) (headers : Headers)
    (default : Duration) (part argument : Bytes) (lifetime : Duration) (must : Bool)
    → In part (cache_pieces headers)
    → is_named (codes "max-age") part ≡ true
    → (directive_parts part).1 ≡ some argument
    → policy_from_headers http_date now headers default ≡ cache_for lifetime must
    → (lifetime + unwrap_or (response_age http_date now headers) 0
        ≤ max (parse_delta_seconds argument) (unwrap_or (response_age http_date now headers) 0))
      × (lifetime ≤ delta_limit)
unfolding policy_from_headers compute_policy_from_directives lifetime_of
policy-lifetime-le http_date now headers default part argument lifetime must m h e p = ground (
  arith,
  collect-add_all headers no_directives,
  add_all-states part argument no_directives (cache_pieces headers) m h e,
  parse_delta_seconds-le argument,
)

-- What a policy says of reuse: whether a stale response may be reused, and for how long it is fresh.
abbrev pub requires_revalidation : CachePolicy → Bool
requires_revalidation (cache_for lifetime must) = must
requires_revalidation revalidate = true
requires_revalidation do_not_store = true

abbrev pub fresh_for : CachePolicy → Duration
fresh_for (cache_for lifetime must) = lifetime
fresh_for revalidate = 0
fresh_for do_not_store = 0

-- A response is fresh for the longer of its lifetime and the floor, and what must not be reused stale
-- stays so; a zero floor changes nothing.
pub apply_minimum_cache_duration_lem :
    (policy : CachePolicy) (minimum : Duration)
    → (fresh_for (apply_minimum_cache_duration policy minimum) ≡ max (fresh_for policy) minimum)
      × (requires_revalidation (apply_minimum_cache_duration policy minimum)
          ≡ requires_revalidation policy)
      × (apply_minimum_cache_duration policy 0 ≡ policy)
unfolding apply_minimum_cache_duration
apply_minimum_cache_duration_lem (cache_for lifetime must) minimum = ground arith
apply_minimum_cache_duration_lem _ minimum = ground arith
