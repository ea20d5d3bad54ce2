-- ===== src/Tests/Freshness.antt =====
-- Runs of the cache policy on response headers.
use oidc4rs.Time.{SystemTime, nanos_per_sec, from_secs}
use oidc4rs.Prelude.{
  ◌+◌, ◌*◌, ◌≤◌, max, ◌≡◌, refl, false, Option, none, [], ◌∷◌, unwrap_or, Bytes, codes,
  eq_ignore_ascii_case, is_ascii_space, trim_start_by, trim_by, split_once, split_from, split, In,
  here, parse_uint, parse_digits,
}
use mathlib.Core.List.{Permᴰ, Perm}
use oidc4rs.Metadata.Cache.{
  Headers, policy_from_headers, cache_for, header, directive_parts, response_age,
  parse_delta_seconds, compute_policy_from_directives, collect_directives, parse_cache_control,
  add_all, add_directive, add_named, add_max_age, lifetime_of, expires_lifetime,
}
use oidc4rs.Metadata.Cache.Policy.{policy-perm, policy-lifetime-le, delta_limit}
use oidc4rs.Metadata.Cache.Directives.{cache_pieces}

abbrev no_date : Bytes → Option SystemTime
no_date s = none

abbrev in_order : Headers
in_order =
    (codes "Cache-Control", codes "no-cache") ∷ (codes "Cache-Control", codes "max-age=60") ∷ []

abbrev reordered : Headers
reordered =
    (codes "Cache-Control", codes "max-age=60") ∷ (codes "Cache-Control", codes "no-cache") ∷ []

in_order-pieces : cache_pieces in_order ≡ codes "no-cache" ∷ codes "max-age=60" ∷ []
unfolding eq_ignore_ascii_case split split_from trim_by trim_start_by is_ascii_space
in_order-pieces = refl

reordered-pieces : cache_pieces reordered ≡ codes "max-age=60" ∷ codes "no-cache" ∷ []
unfolding eq_ignore_ascii_case split split_from trim_by trim_start_by is_ascii_space
reordered-pieces = refl

swapped : Perm (cache_pieces in_order) (cache_pieces reordered)
swapped = rw (in_order-pieces, reordered-pieces) (∣ Permᴰ.swap refl refl ∣₁)

policy-perm_example :
    policy_from_headers no_date 100 in_order 60 ≡ policy_from_headers no_date 100 reordered 60
unfolding header eq_ignore_ascii_case
policy-perm_example = policy-perm no_date 100 in_order reordered 60 swapped refl refl refl

abbrev sixty : Headers
sixty = (codes "Cache-Control", codes "max-age=60") ∷ []

sixty-policy : policy_from_headers no_date 100 sixty 5 ≡ cache_for (60 * nanos_per_sec) false
unfolding policy_from_headers eq_ignore_ascii_case compute_policy_from_directives collect_directives
    parse_cache_control add_all split split_from add_directive trim_by trim_start_by is_ascii_space
    add_named directive_parts split_once add_max_age lifetime_of parse_delta_seconds from_secs
    parse_uint parse_digits response_age expires_lifetime header
sixty-policy = refl

sixty-piece : In (codes "max-age=60") (cache_pieces sixty)
unfolding eq_ignore_ascii_case split split_from trim_by trim_start_by is_ascii_space
sixty-piece = here

policy-lifetime-le_example :
    (60 * nanos_per_sec + unwrap_or (response_age no_date 100 sixty) 0
      ≤ max (parse_delta_seconds (codes "60")) (unwrap_or (response_age no_date 100 sixty) 0))
    × (60 * nanos_per_sec ≤ delta_limit)
unfolding directive_parts split_once trim_by trim_start_by is_ascii_space eq_ignore_ascii_case
policy-lifetime-le_example =
    policy-lifetime-le no_date 100 sixty 5 (codes "max-age=60") (codes "60") (60 * nanos_per_sec)
      false sixty-piece refl refl sixty-policy
