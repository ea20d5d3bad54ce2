-- ===== src/Metadata/Cache.antt =====
-- src/metadata/cache.rs: the freshness of the discovery response from its HTTP headers. The clock
-- is read at most once by `policy_from_headers`, either for the apparent age or for the base of
-- `Expires`, so that reading is its argument `now`. `httpdate::parse_http_date` is the parameter
-- `http_date`.
pub mod Directives
pub mod Policy
use oidc4rs.Prelude.{
  ℕ, ◌-◌, ◌^◌, min, max, Bool, true, false, Option, none, some, List, [], ◌∷◌, map, ◌==◌,
  if◌then◌else◌, unwrap_or, ◌>>=?◌, Bytes, codes, is_empty, eq_ignore_ascii_case, is_ascii_space,
  trim_by, split_once, split, parse_uint,
}
use oidc4rs.Time.{Duration, SystemTime, from_secs, duration_since}

abbrev pub max_delta_seconds : ℕ
max_delta_seconds = 2_147_483_648

-- `CachePolicy`.
pub data CachePolicy : Type 0 where
  cache_for : (lifetime : Duration) (must_revalidate : Bool) → CachePolicy
  revalidate : CachePolicy
  do_not_store : CachePolicy

-- `CacheDirectives`.
pub record CacheDirectives : Type 0 where
  pub max_age : Option Duration
  pub no_cache : Bool
  pub no_store : Bool
  pub must_revalidate : Bool

abbrev pub no_directives : CacheDirectives
no_directives = record {
  max_age = none;
  no_cache = false;
  no_store = false;
  must_revalidate = false;
}

unfoldable pub apply_minimum_cache_duration : CachePolicy → Duration → CachePolicy
apply_minimum_cache_duration (cache_for lifetime must) minimum =
    if minimum == 0 then cache_for lifetime must else cache_for (max lifetime minimum) must
apply_minimum_cache_duration revalidate minimum =
    if minimum == 0 then revalidate else cache_for minimum true
apply_minimum_cache_duration do_not_store minimum =
    if minimum == 0 then do_not_store else cache_for minimum true

unfoldable pub parse_delta_seconds : Bytes → Duration
parse_delta_seconds value =
    from_secs
      (min (unwrap_or (parse_uint (2 ^ 128) (trim_by (λ c. c == b'"') value)) 0) max_delta_seconds)

-- The name and the argument of one directive.
unfoldable pub directive_parts : Bytes → Bytes × Option Bytes
directive_parts part = elim (split_once b'=' part) [
  | none ↦ (part, none)
  | some (name, argument) ↦ (trim_by is_ascii_space name, some (trim_by is_ascii_space argument))
]

abbrev pub least_age : Option Duration → Duration → Option Duration
least_age none lifetime = some lifetime
least_age (some current) lifetime = some (min current lifetime)

-- `max-age`, with and without an argument.
unfoldable pub add_max_age : CacheDirectives → Option Bytes → CacheDirectives
add_max_age d none = d
add_max_age d (some argument) = record d {
  max_age = least_age d.max_age (parse_delta_seconds argument);
}

-- The `if` ladder over a directive's name.
unfoldable pub add_named : CacheDirectives → Bytes → Option Bytes → CacheDirectives
add_named d name argument =
    if eq_ignore_ascii_case name (codes "max-age")
    then add_max_age d argument
    else if eq_ignore_ascii_case name (codes "no-cache")
    then record d { no_cache = true }
    else if eq_ignore_ascii_case name (codes "no-store")
    then record d { no_store = true }
    else if eq_ignore_ascii_case name (codes "must-revalidate")
    then record d { must_revalidate = true }
    else d

-- One round of the loop, on a trimmed piece.
unfoldable pub add_directive : CacheDirectives → Bytes → CacheDirectives
add_directive d part =
    if is_empty part then d else add_named d (directive_parts part).0 (directive_parts part).1

abbrev pub pieces : Bytes → List Bytes
pieces value = map (trim_by is_ascii_space) (split b',' value)

unfoldable pub add_all : CacheDirectives → List Bytes → CacheDirectives
add_all d [] = d
add_all d (part ∷ parts) = add_all (add_directive d part) parts

unfoldable pub parse_cache_control : Bytes → CacheDirectives → CacheDirectives
parse_cache_control value d = add_all d (pieces value)

abbrev pub Headers : Type 0
Headers = List (Bytes × Bytes)

-- The first header of a name.
unfoldable pub header : Headers → Bytes → Option Bytes
header [] name = none
header ((k, v) ∷ hs) name = if eq_ignore_ascii_case k name then some v else header hs name

-- The loop over the `Cache-Control` fields.
unfoldable pub collect_directives : Headers → CacheDirectives → CacheDirectives
collect_directives [] d = d
collect_directives ((k, v) ∷ hs) d =
    collect_directives hs
      (if eq_ignore_ascii_case k (codes "cache-control") then parse_cache_control v d else d)

-- `Option::max`.
abbrev pub max_option : Option Duration → Option Duration → Option Duration
max_option none b = b
max_option (some a) none = some a
max_option (some a) (some b) = some (max a b)

module _ (http_date : Bytes → Option SystemTime) where
  unfoldable pub expires_lifetime :
      SystemTime → Bytes → Option SystemTime → Option Duration → Duration
  expires_lifetime now value response_date age = elim (http_date value) [
    | none ↦ 0
    | some expires ↦
        unwrap_or (duration_since expires (unwrap_or response_date now)) 0 - unwrap_or age 0
  ]

  -- The lifetime by precedence: `max-age`, then `Expires`, then the default.
  unfoldable pub lifetime_of :
      SystemTime
      → Option Duration
      → Option Bytes
      → Option SystemTime
      → Option Duration
      → Duration
      → Duration
  lifetime_of now (some lifetime) expires date age default = lifetime - unwrap_or age 0
  lifetime_of now none (some expires) date age default = expires_lifetime now expires date age
  lifetime_of now none none date age default = default - unwrap_or age 0

  unfoldable pub compute_policy_from_directives :
      SystemTime
      → CacheDirectives
      → Option Bytes
      → Option SystemTime
      → Option Duration
      → Duration
      → CachePolicy
  compute_policy_from_directives now d expires date age default =
      if d.no_store
      then do_not_store
      else if d.no_cache
      then revalidate
      else cache_for (lifetime_of now d.max_age expires date age default) d.must_revalidate

  -- The greater of the stated `Age` and the time since `Date`.
  unfoldable pub response_age : SystemTime → Headers → Option Duration
  response_age now headers =
      let date = header headers (codes "date") >>=? http_date in
      let stated = header headers (codes "age") >>=? (λ v. parse_uint (2 ^ 64) v) in
      max_option (stated >>=? (λ s. some (from_secs s))) (date >>=? (λ t. duration_since now t))

  unfoldable pub policy_from_headers : SystemTime → Headers → Duration → CachePolicy
  policy_from_headers now headers default =
      compute_policy_from_directives now (collect_directives headers no_directives)
        (header headers (codes "expires")) (header headers (codes "date") >>=? http_date)
        (response_age now headers) default
