-- ===== src/Flow/Authorize/Settings.antt =====
-- The setters of `AuthorizeUrlBuilder`, and what they keep of the builder.
use oidc4rs.Flow.Authorize.{
  AuthorizeUrlBuilder, pkce_s256, new_builder, append_pairs, set_prompt, initial_pkce, set_max_age,
  set_id_token_hint, new_pairs, set_response_mode, extra_param, ResponseMode, ProviderMetadata,
}
use oidc4rs.Time.{Duration}
use oidc4rs.Types.Identifiers.{AuthPrompt, PkceCodeChallenge, s256_from_verifier}
use oidc4rs.Types.Url.{UrlOps, Url}
use oidc4rs.Prelude.{
  ℕ, ◌≡◌, refl, ◌∙◌, true, ◌||◌, Option, none, some, List, [], ◌∷◌, arith, is_some, is_none, ok,
  Bytes,
}

-- One call of a setter; a fresh PKCE verifier takes the calls of the generator.
pub data Setting : Type 0 where
  use_pkce : ℕ → Setting
  prompted : AuthPrompt → Setting
  aged : Duration → Setting
  hinted : Bytes → Setting
  moded : ResponseMode → Setting
  param : Bytes → Bytes → Setting

module _ (ops : UrlOps) (encode sha256 : Bytes → Bytes) (fill : ℕ → ℕ → Bytes) where
  unfoldable pub apply_setting : AuthorizeUrlBuilder → Setting → AuthorizeUrlBuilder
  apply_setting b (use_pkce calls) = (pkce_s256 ops encode sha256 fill b calls).0
  apply_setting b (prompted p) = set_prompt b p
  apply_setting b (aged d) = set_max_age b d
  apply_setting b (hinted h) = set_id_token_hint b h
  apply_setting b (moded m) = set_response_mode b m
  apply_setting b (param k v) = extra_param b k v

  unfoldable pub apply_settings : AuthorizeUrlBuilder → List Setting → AuthorizeUrlBuilder
  apply_settings b [] = b
  apply_settings b (s ∷ ss) = apply_settings (apply_setting b s) ss

  abbrev pub challenge_of : Option Bytes → Option PkceCodeChallenge
  challenge_of none = none
  challenge_of (some v) = some (s256_from_verifier encode sha256 v)

  -- The challenge is the one of the verifier.
  abbrev pub IsBound : AuthorizeUrlBuilder → Type 0
  IsBound b = b.pkce_challenge ≡ challenge_of b.pkce_verifier

  apply_setting-IsBound :
      (b : AuthorizeUrlBuilder) (s : Setting) → IsBound b → IsBound (apply_setting b s)
  unfolding apply_setting pkce_s256 set_prompt set_max_age set_id_token_hint set_response_mode
      extra_param
  apply_setting-IsBound b (use_pkce calls) h = refl
  apply_setting-IsBound b _ h = h

  pub apply_settings-IsBound :
      (b : AuthorizeUrlBuilder) (ss : List Setting) → IsBound b → IsBound (apply_settings b ss)
  unfolding apply_settings
  apply_settings-IsBound b [] h = h
  apply_settings-IsBound b (s ∷ ss) h =
      apply_settings-IsBound (apply_setting b s) ss (apply_setting-IsBound b s h)

  pub new_builder-IsBound :
      (metadata : ProviderMetadata) (client_id : Bytes) (secret : Option Bytes) (redirect : Url)
      (scope : Bytes) (calls calls' : ℕ) (b : AuthorizeUrlBuilder)
      → new_builder ops encode sha256 fill metadata client_id secret redirect scope calls
        ≡ ok (b, calls')
      → IsBound b × (is_some b.pkce_verifier ≡ is_none secret)
  unfolding new_builder initial_pkce
  new_builder-IsBound metadata client_id none redirect scope calls calls' b h = ground arith
  new_builder-IsBound metadata client_id (some secret) redirect scope calls calls' b h =
      ground arith

  apply_setting-is_some :
      (b : AuthorizeUrlBuilder) (s : Setting)
      → is_some b.pkce_verifier ≡ true
      → is_some (apply_setting b s).pkce_verifier ≡ true
  unfolding apply_setting pkce_s256 set_prompt set_max_age set_id_token_hint set_response_mode
      extra_param
  apply_setting-is_some b (use_pkce calls) h = refl
  apply_setting-is_some b _ h = h

  apply_settings-is_some :
      (b : AuthorizeUrlBuilder) (ss : List Setting)
      → is_some b.pkce_verifier ≡ true
      → is_some (apply_settings b ss).pkce_verifier ≡ true
  unfolding apply_settings
  apply_settings-is_some b [] h = h
  apply_settings-is_some b (s ∷ ss) h =
      apply_settings-is_some (apply_setting b s) ss (apply_setting-is_some b s h)

  pub public_client-is_some :
      (secret : Option Bytes) (b : AuthorizeUrlBuilder) (ss : List Setting)
      → is_some b.pkce_verifier ≡ is_none secret
      → (is_some secret || is_some (apply_settings b ss).pkce_verifier) ≡ true
  public_client-is_some none b ss h = ground (arith, apply_settings-is_some b ss)
  public_client-is_some (some s) b ss h = ground arith

  -- What no setter changes.
  abbrev pub Keeps : AuthorizeUrlBuilder → AuthorizeUrlBuilder → Type 0
  Keeps b c = (c.url ≡ b.url) × (c.redirect_uri ≡ b.redirect_uri) × (c.scopes ≡ b.scopes)

  apply_setting-Keeps : (b : AuthorizeUrlBuilder) (s : Setting) → Keeps b (apply_setting b s)
  unfolding apply_setting pkce_s256 set_prompt set_max_age set_id_token_hint set_response_mode
      extra_param
  apply_setting-Keeps b (use_pkce calls) = (refl, refl, refl)
  apply_setting-Keeps b _ = (refl, refl, refl)

  pub apply_settings-Keeps :
      (b : AuthorizeUrlBuilder) (ss : List Setting) → Keeps b (apply_settings b ss)
  unfolding apply_settings
  apply_settings-Keeps b [] = (refl, refl, refl)
  apply_settings-Keeps b (s ∷ ss) =
      let (url, redirect, scopes) = apply_setting-Keeps b s in
      let (url', redirect', scopes') = apply_settings-Keeps (apply_setting b s) ss in
      (url' ∙ url, redirect' ∙ redirect, scopes' ∙ scopes)

  pub new_builder-url :
      (metadata : ProviderMetadata) (client_id : Bytes) (secret : Option Bytes) (redirect : Url)
      (scope : Bytes) (calls calls' : ℕ) (b : AuthorizeUrlBuilder)
      → new_builder ops encode sha256 fill metadata client_id secret redirect scope calls
        ≡ ok (b, calls')
      → (b.url
          ≡ append_pairs ops
              (ops.query_pairs_mut metadata.authorization_endpoint)
              (new_pairs ops client_id redirect scope))
        × (b.redirect_uri ≡ redirect)
        × (b.scopes ≡ scope)
  unfolding new_builder
  new_builder-url metadata client_id secret redirect scope calls calls' b h = ground arith
