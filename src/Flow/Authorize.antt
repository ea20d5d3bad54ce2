-- ===== src/Flow/Authorize.antt =====
-- src/flow/authorize.rs: the authorization request URL and the state to keep across the redirect.
-- `encode` is the unpadded base64 encoding, `fill` the random bytes by number of the call (see
-- Types/Identifiers.antt), and the number of calls made so far is passed on. Of its `Client` the
-- builder reads the metadata, the client id and whether there is a secret.
pub mod Pairs
pub mod Settings
pub mod Agreement
pub mod Pending
use oidc4rs.Prelude.{
  ℕ, ◌*◌, ◌/◌, Bool, Option, none, some, List, [], ◌∷◌, ◌++◌, leb, if◌then◌else◌, is_some, ◌>>=◌,
  ◌>>◌, ensure, ok_or, ok, Bytes, codes, eqb, any, decimal,
}
use oidc4rs.Error.{
  Outcome, invalid_authorization_request, pending_authorization_expired,
  pending_authorization_from_future, say,
}
use oidc4rs.Time.{Duration, SystemTime, duration_since, nanos_per_sec}
use oidc4rs.Types.Url.{Url, UrlOps}
use oidc4rs.Types.Identifiers.{
  PkceCodeChallenge, ResponseMode, AuthPrompt, prompt_as_str, mode_as_str, scope_iter, new_state,
  new_nonce, new_verifier, s256_from_verifier,
}
use oidc4rs.Metadata.Provider.{ProviderMetadata}

-- `AuthRequestState`.
pub record AuthRequestState : Type 0 where
  pub state : Bytes
  pub nonce : Bytes
  pub pkce_verifier : Option Bytes
  pub max_age : Option Duration
  pub redirect_uri : Url
  pub scopes : Bytes
  pub authorization_url : Url

-- `PendingAuthRequest`.
pub record PendingAuthRequest : Type 0 where
  pub state : Bytes
  pub nonce : Bytes
  pub pkce_verifier : Option Bytes
  pub max_age : Option Duration
  pub redirect_uri : Option Bytes
  pub scopes : List Bytes
  pub created_at : SystemTime

abbrev pub default_ttl : Duration
default_ttl = 10 * 60 * nanos_per_sec

-- `PendingAuthRequest::key_for`, and `AuthRequestState::storage_key`.
unfoldable pub key_for : Bytes → Bytes
key_for state = codes "oidc4rs:pending:" ++ state

unfoldable pub storage_key : AuthRequestState → Bytes
storage_key s = codes "oidc4rs:pending:" ++ s.state

-- `to_pending`, at the time that it reads.
unfoldable pub to_pending : SystemTime → AuthRequestState → PendingAuthRequest
to_pending now s = record {
  state = s.state;
  nonce = s.nonce;
  pkce_verifier = s.pkce_verifier;
  max_age = s.max_age;
  redirect_uri = some s.redirect_uri.text;
  scopes = scope_iter s.scopes;
  created_at = now;
}

-- `validate_created_at`.
unfoldable pub validate_created_at : PendingAuthRequest → SystemTime → Outcome (Unit {0})
validate_created_at p now = do
  age ← ok_or (duration_since now p.created_at) pending_authorization_from_future
  ensure (leb age default_ttl) pending_authorization_expired

-- `AuthorizeUrlBuilder`.
pub record AuthorizeUrlBuilder : Type 0 where
  pub url : Url
  pub state : Bytes
  pub nonce : Bytes
  pub pkce_verifier : Option Bytes
  pub pkce_challenge : Option PkceCodeChallenge
  pub response_mode : Option ResponseMode
  pub prompt : Option AuthPrompt
  pub max_age : Option Duration
  pub id_token_hint : Option Bytes
  pub extra : List (Bytes × Bytes)
  pub redirect_uri : Url
  pub scopes : Bytes

-- The setters.
unfoldable pub set_prompt : AuthorizeUrlBuilder → AuthPrompt → AuthorizeUrlBuilder
set_prompt b p = record b { prompt = some p }

unfoldable pub set_max_age : AuthorizeUrlBuilder → Duration → AuthorizeUrlBuilder
set_max_age b d = record b { max_age = some d }

unfoldable pub extra_param : AuthorizeUrlBuilder → Bytes → Bytes → AuthorizeUrlBuilder
extra_param b key value = record b { extra = b.extra ++ ((key, value) ∷ []) }

unfoldable pub acr_values : AuthorizeUrlBuilder → Bytes → AuthorizeUrlBuilder
acr_values b value = record b { extra = b.extra ++ ((codes "acr_values", value) ∷ []) }

unfoldable pub login_hint : AuthorizeUrlBuilder → Bytes → AuthorizeUrlBuilder
login_hint b value = record b { extra = b.extra ++ ((codes "login_hint", value) ∷ []) }

unfoldable pub ui_locales : AuthorizeUrlBuilder → Bytes → AuthorizeUrlBuilder
ui_locales b value = record b { extra = b.extra ++ ((codes "ui_locales", value) ∷ []) }

unfoldable pub set_id_token_hint : AuthorizeUrlBuilder → Bytes → AuthorizeUrlBuilder
set_id_token_hint b hint = record b { id_token_hint = some hint }

unfoldable pub set_response_mode : AuthorizeUrlBuilder → ResponseMode → AuthorizeUrlBuilder
set_response_mode b mode = record b { response_mode = some mode }

-- The optional parameters of `build`, each absent or one pair.
abbrev pub challenge_pairs : Option PkceCodeChallenge → List (Bytes × Bytes)
challenge_pairs none = []
challenge_pairs (some c) =
    (codes "code_challenge", c.value) ∷ (codes "code_challenge_method", codes "S256") ∷ []

abbrev pub mode_pairs : Option ResponseMode → List (Bytes × Bytes)
mode_pairs none = []
mode_pairs (some m) = (codes "response_mode", mode_as_str m) ∷ []

abbrev pub prompt_pairs : Option AuthPrompt → List (Bytes × Bytes)
prompt_pairs none = []
prompt_pairs (some p) = (codes "prompt", prompt_as_str p) ∷ []

-- `as_secs` drops the part below one second.
abbrev pub max_age_pairs : Option Duration → List (Bytes × Bytes)
max_age_pairs none = []
max_age_pairs (some d) = (codes "max_age", decimal (d / nanos_per_sec)) ∷ []

abbrev pub hint_pairs : Option Bytes → List (Bytes × Bytes)
hint_pairs none = []
hint_pairs (some h) = (codes "id_token_hint", h) ∷ []

-- The pairs that `build` appends, in order.
unfoldable pub build_pairs : AuthorizeUrlBuilder → List (Bytes × Bytes)
build_pairs b =
    (codes "state", b.state)
    ∷ (codes "nonce", b.nonce)
    ∷ (challenge_pairs b.pkce_challenge
        ++ (mode_pairs b.response_mode
            ++ (prompt_pairs b.prompt
                ++ (max_age_pairs b.max_age ++ (hint_pairs b.id_token_hint ++ b.extra)))))

module _ (ops : UrlOps) where
  -- A run of `append_pair` calls.
  unfoldable pub append_pairs : Url → List (Bytes × Bytes) → Url
  append_pairs url [] = url
  append_pairs url ((k, v) ∷ ps) = append_pairs (ops.append_pair url k v) ps

  -- `build`.
  unfoldable pub build : AuthorizeUrlBuilder → AuthRequestState
  build b = record {
    state = b.state;
    nonce = b.nonce;
    pkce_verifier = b.pkce_verifier;
    max_age = b.max_age;
    redirect_uri = b.redirect_uri;
    scopes = b.scopes;
    authorization_url = append_pairs (ops.query_pairs_mut b.url) (build_pairs b);
  }

  -- The pairs that `new` appends.
  abbrev pub new_pairs : Bytes → Url → Bytes → List (Bytes × Bytes)
  new_pairs client_id redirect_uri scope =
      (codes "response_type", codes "code")
      ∷ (codes "client_id", client_id)
      ∷ (codes "redirect_uri", redirect_uri.text)
      ∷ (codes "scope", scope)
      ∷ []

  module _ (encode sha256 : Bytes → Bytes) (fill : ℕ → ℕ → Bytes) where
    -- The verifier and the challenge of a public client.
    unfoldable pub initial_pkce : Bool → ℕ → (Option Bytes × Option PkceCodeChallenge) × ℕ
    initial_pkce has_secret calls =
        if has_secret
        then ((none, none), calls)
        else (let (verifier, calls') = new_verifier encode fill calls in
            ((some verifier, some (s256_from_verifier encode sha256 verifier)), calls'))

    -- `AuthorizeUrlBuilder::new`, with the calls of the generator before and after.
    unfoldable pub new_builder :
        ProviderMetadata
        → Bytes
        → Option Bytes
        → Url
        → Bytes
        → ℕ
        → Outcome (AuthorizeUrlBuilder × ℕ)
    new_builder metadata client_id client_secret redirect_uri scope calls = do
      ensure (any (λ s. eqb s (codes "openid")) (scope_iter scope)) (
          invalid_authorization_request
            (say "scope must include `openid` per OIDC Core 1.0 section 3.1.2"))
      let url =
          append_pairs (ops.query_pairs_mut metadata.authorization_endpoint)
            (new_pairs client_id redirect_uri scope)
      let pkce = initial_pkce (is_some client_secret) calls
      let state = new_state encode fill pkce.1
      let nonce = new_nonce encode fill state.1
      ok (
        record {
          url = url;
          state = state.0;
          nonce = nonce.0;
          pkce_verifier = pkce.0.0;
          pkce_challenge = pkce.0.1;
          response_mode = none;
          prompt = none;
          max_age = none;
          id_token_hint = none;
          extra = [];
          redirect_uri = redirect_uri;
          scopes = scope;
        },
        nonce.1,
      )

    -- `pkce_s256`.
    unfoldable pub pkce_s256 : AuthorizeUrlBuilder → ℕ → AuthorizeUrlBuilder × ℕ
    pkce_s256 b calls =
        let (verifier, calls') = new_verifier encode fill calls in
        (
          record b {
            pkce_verifier = some verifier;
            pkce_challenge = some (s256_from_verifier encode sha256 verifier);
          },
          calls',
        )
