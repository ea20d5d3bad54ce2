-- ===== src/Metadata/Cache/Directives.antt =====
-- `Cache-Control` directives: their order does not matter, and each flag is set by its name alone.
use mathlib.Core.Logic.{∥∥₁_elim}
use mathlib.Core.List.{Permᴰ, Perm}
use oidc4rs.Prelude.{
  ◌≡◌, refl, sym, ap, ◌∙◌, inl, inr, Bool, true, false, not, ◌&&◌, ◌||◌, List, [], ◌∷◌, ◌++◌, arith,
  if◌then◌else◌, Bool-cases, Bytes, codes, is_empty, eq_ignore_ascii_case, eq_ignore_lower, any,
}
use oidc4rs.Metadata.Cache.{
  CacheDirectives, add_max_age, add_named, add_directive, add_all, Headers, collect_directives,
  directive_parts, pieces, parse_cache_control,
}

CacheDirectives-set : IsSet CacheDirectives
CacheDirectives-set = hlevel

-- Two directives have the same effect in either order.
pub add_directive_comm :
    (d : CacheDirectives) (p q : Bytes)
    → add_directive (add_directive d p) q ≡ add_directive (add_directive d q) p
unfolding add_directive add_named add_max_age
add_directive_comm d p q = ground arith

add_all-permᴰ :
    {ps qs : List Bytes} (d : CacheDirectives) → Permᴰ ps qs → add_all d ps ≡ add_all d qs
unfolding add_all
add_all-permᴰ d Permᴰ.nil = refl
add_all-permᴰ d (Permᴰ.cons {a} {b} {l₁} {l₂} e h) = add_all-permᴰ (add_directive d a) h ∙ rw e refl
add_all-permᴰ d (Permᴰ.swap {a} {b} {l} e f) =
    rw (← e, ← f) (ap (λ c. add_all c l) (add_directive_comm d a b))
add_all-permᴰ d (Permᴰ.trans h k) = add_all-permᴰ d h ∙ add_all-permᴰ d k

pub add_all-perm :
    {ps qs : List Bytes} (d : CacheDirectives) → Perm ps qs → add_all d ps ≡ add_all d qs
add_all-perm d h = ∥∥₁_elim h (CacheDirectives-set _ _) (add_all-permᴰ d)

-- All the pieces of the `Cache-Control` fields, in order.
abbrev pub cache_pieces : Headers → List Bytes
cache_pieces [] = []
cache_pieces ((k, v) ∷ hs) =
    if eq_ignore_ascii_case k (codes "cache-control")
    then pieces v ++ cache_pieces hs
    else cache_pieces hs

add_all-append :
    (d : CacheDirectives) (ps qs : List Bytes) → add_all d (ps ++ qs) ≡ add_all (add_all d ps) qs
unfolding add_all
add_all-append d [] qs = refl
add_all-append d (p ∷ ps) qs = add_all-append (add_directive d p) ps qs

pub collect-add_all :
    (hs : Headers) (d : CacheDirectives) → collect_directives hs d ≡ add_all d (cache_pieces hs)
unfolding collect_directives parse_cache_control
collect-add_all [] d = unfold add_all in refl
collect-add_all ((k, v) ∷ hs) d =
    elim (Bool-cases (eq_ignore_ascii_case k (codes "cache-control"))) [
      | inl is ↦ rw is (
          collect-add_all hs (add_all d (pieces v))
          ∙ sym (add_all-append d (pieces v) (cache_pieces hs)))
      | inr other ↦ rw other (collect-add_all hs d)
    ]

-- A directive by its name, whatever its case and its argument.
abbrev pub is_named : Bytes → Bytes → Bool
is_named name part = not (is_empty part) && eq_ignore_ascii_case (directive_parts part).0 name

-- No text has two names that differ after lowering.
names_differ :
    (a b c : Bytes)
    → eq_ignore_ascii_case b c ≡ false
    → eq_ignore_ascii_case a b ≡ true
    → eq_ignore_ascii_case a c ≡ false
names_differ a b c ne h =
    ground (arith, eq_ignore_lower a b, eq_ignore_lower a c, eq_ignore_lower b c)

age_store : eq_ignore_ascii_case (codes "max-age") (codes "no-store") ≡ false
unfolding eq_ignore_ascii_case
age_store = refl

cache_store : eq_ignore_ascii_case (codes "no-cache") (codes "no-store") ≡ false
unfolding eq_ignore_ascii_case
cache_store = refl

add_directive-no_store :
    (d : CacheDirectives) (part : Bytes)
    → (add_directive d part).no_store ≡ (d.no_store || is_named (codes "no-store") part)
unfolding add_directive add_named add_max_age
add_directive-no_store d part =
    let name = (directive_parts part).0 in
    ground (
      arith,
      names_differ name (codes "max-age") (codes "no-store") age_store,
      names_differ name (codes "no-cache") (codes "no-store") cache_store,
    )

pub add_all-no_store :
    (d : CacheDirectives) (ps : List Bytes)
    → (add_all d ps).no_store ≡ (d.no_store || any (is_named (codes "no-store")) ps)
unfolding add_all any
add_all-no_store d [] = ground arith
add_all-no_store d (p ∷ ps) =
    ground (arith, add_all-no_store (add_directive d p) ps, add_directive-no_store d p)
