-- ===== src/Flow/Logout.antt =====
-- src/flow/logout.rs: the RP-initiated logout URL. Of its `Client` the builder keeps a reference,
-- whose metadata `build` reads when it runs: the document of that time is its first argument.
pub mod Sound
use Prim.Native.String.{String}
use oidc4rs.Prelude.{
  ℕ, Option, none, some, List, [], ◌∷◌, ◌++◌, if◌then◌else◌, ◌>>=◌, ◌>>◌, ok_or, map_err, ok, Bytes,
  codes, is_empty,
}
use oidc4rs.Error
use oidc4rs.Error.{Outcome, OidcError, invalid_metadata, say, lit}
use oidc4rs.Types.Url.{Url, UrlOps, https_from_str}
use oidc4rs.Metadata.Provider.{ProviderMetadata}
use oidc4rs.Flow.Authorize.{append_pairs}

-- `EndSessionUrlBuilder`.
pub record EndSessionUrlBuilder : Type 0 where
  pub id_token_hint : Option Bytes
  pub post_logout_redirect_uri : Option Url
  pub state : Option Bytes
  pub client_id : Option Bytes
  pub logout_hint : Option Bytes
  pub ui_locales : List Bytes

unfoldable pub new_end_session : EndSessionUrlBuilder
new_end_session = record {
  id_token_hint = none;
  post_logout_redirect_uri = none;
  state = none;
  client_id = none;
  logout_hint = none;
  ui_locales = [];
}

-- The setters.
unfoldable pub with_id_token_hint : EndSessionUrlBuilder → Bytes → EndSessionUrlBuilder
with_id_token_hint b hint = record b { id_token_hint = some hint }

unfoldable pub with_post_logout_redirect_uri : EndSessionUrlBuilder → Url → EndSessionUrlBuilder
with_post_logout_redirect_uri b uri = record b { post_logout_redirect_uri = some uri }

unfoldable pub with_state : EndSessionUrlBuilder → Bytes → EndSessionUrlBuilder
with_state b s = record b { state = some s }

unfoldable pub with_client_id : EndSessionUrlBuilder → Bytes → EndSessionUrlBuilder
with_client_id b id = record b { client_id = some id }

unfoldable pub with_logout_hint : EndSessionUrlBuilder → Bytes → EndSessionUrlBuilder
with_logout_hint b hint = record b { logout_hint = some hint }

unfoldable pub add_ui_locale : EndSessionUrlBuilder → Bytes → EndSessionUrlBuilder
add_ui_locale b locale = record b { ui_locales = b.ui_locales ++ (locale ∷ []) }

-- `join(" ")`.
unfoldable pub join_spaces : List Bytes → Bytes
join_spaces [] = []
join_spaces (s ∷ []) = s
join_spaces (s ∷ t ∷ ss) = s ++ (32 ∷ join_spaces (t ∷ ss))

abbrev pub optional_pair : String → Option Bytes → List (Bytes × Bytes)
optional_pair name none = []
optional_pair name (some v) = (codes name, v) ∷ []

abbrev pub redirect_pair : Option Url → List (Bytes × Bytes)
redirect_pair none = []
redirect_pair (some u) = (codes "post_logout_redirect_uri", u.text) ∷ []

abbrev pub locales_pair : List Bytes → List (Bytes × Bytes)
locales_pair [] = []
locales_pair (l ∷ ls) = (codes "ui_locales", join_spaces (l ∷ ls)) ∷ []

-- The pairs that `build` appends, for the state it settled on.
unfoldable pub end_session_pairs : EndSessionUrlBuilder → Option Bytes → List (Bytes × Bytes)
end_session_pairs b state =
    optional_pair "id_token_hint" b.id_token_hint
    ++ (redirect_pair b.post_logout_redirect_uri
        ++ (optional_pair "state" state
            ++ (optional_pair "client_id" b.client_id
                ++ (optional_pair "logout_hint" b.logout_hint ++ locales_pair b.ui_locales))))

-- The state: the caller's, or a fresh one if there is a redirect URI.
unfoldable pub settle_state : (ℕ → Bytes × ℕ) → ℕ → Option Bytes → Option Url → Option Bytes
settle_state fresh calls (some s) redirect = some s
settle_state fresh calls none (some u) = some (fresh calls).0
settle_state fresh calls none none = none

module _ (ops : UrlOps) (fresh : ℕ → Bytes × ℕ) where
  -- A query that is empty is taken off.
  unfoldable pub drop_empty_query : Url → Url
  drop_empty_query url = elim (ops.query url) [
    | none ↦ url
    | some q ↦ if is_empty q then ops.clear_query url else url
  ]

  -- `build` puts the name of the endpoint in front of the error's text.
  abbrev pub end_session_error : OidcError → OidcError
  end_session_error e = invalid_metadata (lit "end_session URL: " ∷ Error.text e)

  -- `build`: the URL is printed and parsed again.
  unfoldable pub build_end_session :
      ProviderMetadata → EndSessionUrlBuilder → ℕ → Outcome (Url × Option Bytes)
  build_end_session metadata b calls = do
    endpoint ←
        ok_or metadata.end_session_endpoint
          (invalid_metadata (say "end_session_endpoint not advertised"))
    let state = settle_state fresh calls b.state b.post_logout_redirect_uri
    let url =
        drop_empty_query
          (append_pairs ops (ops.query_pairs_mut endpoint) (end_session_pairs b state))
    parsed ← map_err end_session_error (https_from_str ops "EndSessionUrl" url.text)
    ok (parsed, state)
