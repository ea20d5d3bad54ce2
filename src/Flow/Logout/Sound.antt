-- ===== src/Flow/Logout/Sound.antt =====
-- What the logout URL carries.
use Prim.Native.String.{String}
use oidc4rs.Prelude.{
  ℕ, ◌≡◌, ◌⊎◌, true, Option, none, some, List, [], ◌∷◌, is_some, ok, Bytes, codes, In,
}
use oidc4rs.Types.Url.{Url, UrlOps}
use oidc4rs.Flow.Authorize.Pairs.{QueryLaws}
use oidc4rs.Flow.Logout.{EndSessionUrlBuilder, join_spaces}

-- Besides: taking off an empty query changes no pair, and a URL that is printed and parsed again is
-- the same.
pub record UrlLaws (ops : UrlOps) (query_pairs : Url → List (Bytes × Bytes)) : Type 0 where
  pub edited : QueryLaws ops query_pairs
  pub cleared : (u : Url) → ops.query u ≡ some [] → query_pairs (ops.clear_query u) ≡ query_pairs u
  pub reparsed : (u v : Url) → ops.parse_url u.text ≡ ok v → v ≡ u

-- A value that is there is among the pairs, under the name.
abbrev pub Carries : Bytes → Option Bytes → List (Bytes × Bytes) → Type 0
Carries name none pairs = Unit
Carries name (some value) pairs = In (name, value) pairs

abbrev pub url_text : Option Url → Option Bytes
url_text none = none
url_text (some u) = some u.text

-- The locales with spaces between them, if there are any.
abbrev pub locales_text : List Bytes → Option Bytes
locales_text [] = none
locales_text (l ∷ ls) = some (join_spaces (l ∷ ls))

-- What the pairs of a logout URL are, for the builder and the state that is handed out.
pub record IsLogout (b : EndSessionUrlBuilder) (state : Option Bytes) (pairs : List (Bytes × Bytes))
    : Type 0 where
  pub sends_hint : Carries (codes "id_token_hint") b.id_token_hint pairs
  pub sends_redirect :
      Carries (codes "post_logout_redirect_uri") (url_text b.post_logout_redirect_uri) pairs
  pub sends_state : Carries (codes "state") state pairs
  pub sends_client_id : Carries (codes "client_id") b.client_id pairs
  pub sends_logout_hint : Carries (codes "logout_hint") b.logout_hint pairs
  pub sends_locales : Carries (codes "ui_locales") (locales_text b.ui_locales) pairs

module _ (pairs : List (Bytes × Bytes)) where
  abbrev Holds : List (Bytes × Bytes) → Type 0
  Holds some_pairs = (p : Bytes × Bytes) → In p some_pairs → In p pairs

-- The state that is handed out: the caller's, which a redirect never lacks, or a fresh one for a
-- redirect without one.
abbrev pub IsSettled : (ℕ → Bytes × ℕ) → ℕ → EndSessionUrlBuilder → Option Bytes → Type 0
IsSettled fresh calls b state =
    ((state ≡ b.state) × ((b.post_logout_redirect_uri ≡ none) ⊎ (is_some state ≡ true)))
    ⊎ ((b.state ≡ none)
        × (is_some b.post_logout_redirect_uri ≡ true)
        × (state ≡ some (fresh calls).0))
