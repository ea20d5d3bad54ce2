-- ===== src/Flow/Authorize/Agreement.antt =====
-- The authorization URL and the stored request belong to each other.
use oidc4rs.Flow.Authorize.Pairs.{QueryLaws, query-build, query-append_pairs}
use oidc4rs.Flow.Authorize.{
  AuthorizeUrlBuilder, new_builder, build, build_pairs, new_pairs, max_age_pairs, mode_pairs,
  prompt_pairs, PendingAuthRequest, to_pending, challenge_pairs, ProviderMetadata, decimal,
  SystemTime,
}
use oidc4rs.Time.{Duration, nanos_per_sec}
use oidc4rs.Types.Identifiers.{s256_from_verifier, scope_iter}
use oidc4rs.Types.Url.{UrlOps, Url}
use oidc4rs.Prelude.{
  ℕ, ◌/◌, ◌^◌, ◌<◌, ◌≡◌, refl, true, ◌||◌, Option, none, some, List, ◌++◌, is_some, ok, Bytes,
  codes, In, In-append_right, In-append_left, here, there, parse_uint, parse_uint-decimal,
}
use oidc4rs.Flow.Authorize.Settings.{
  Setting, apply_settings, IsBound, challenge_of, apply_settings-IsBound, new_builder-IsBound,
  public_client-is_some, apply_settings-Keeps, new_builder-url,
}

-- A time whose whole seconds are a `u64`, as those of a `Duration` are.
abbrev pub IsRepresentable : Option Duration → Type 0
IsRepresentable none = Unit
IsRepresentable (some d) = d / nanos_per_sec < 2 ^ 64

module _ (ops : UrlOps) (encode sha256 : Bytes → Bytes) (fill : ℕ → ℕ → Bytes) where
  -- The challenge of a verifier that is kept is in the query.
  abbrev pub SendsChallenge : List (Bytes × Bytes) → Option Bytes → Type 0
  SendsChallenge pairs none = Unit
  SendsChallenge pairs (some v) =
      In (codes "code_challenge", encode (sha256 v)) pairs
      × In (codes "code_challenge_method", codes "S256") pairs

  -- Also the time that an authentication may be old, in whole seconds that can be read back.
  abbrev pub SendsMaxAge : List (Bytes × Bytes) → Option Duration → Type 0
  SendsMaxAge pairs none = Unit
  SendsMaxAge pairs (some d) =
      (text : Bytes) × In (codes "max_age", text) pairs
      × (parse_uint (2 ^ 64) text ≡ some (d / nanos_per_sec))

  abbrev pub SendsRedirect : List (Bytes × Bytes) → Option Bytes → Type 0
  SendsRedirect pairs none = ⊥
  SendsRedirect pairs (some uri) = In (codes "redirect_uri", uri) pairs

  -- The stored request and the query agree.
  pub record Agrees (pairs : List (Bytes × Bytes)) (p : PendingAuthRequest) : Type 0 where
    pub sends_state : In (codes "state", p.state) pairs
    pub sends_nonce : In (codes "nonce", p.nonce) pairs
    pub sends_challenge : SendsChallenge pairs p.pkce_verifier
    pub sends_max_age : SendsMaxAge pairs p.max_age
    pub sends_redirect : SendsRedirect pairs p.redirect_uri
    pub sends_scope :
        (scope : Bytes) × In (codes "scope", scope) pairs × (p.scopes ≡ scope_iter scope)

  SendsChallenge-of_pairs :
      (v : Option Bytes) (pairs : List (Bytes × Bytes))
      → ((p : Bytes × Bytes)
          → In p (challenge_pairs (challenge_of ops encode sha256 fill v))
          → In p pairs)
      → SendsChallenge pairs v
  unfolding s256_from_verifier
  SendsChallenge-of_pairs none pairs f = tt
  SendsChallenge-of_pairs (some v) pairs f = (f _ here, f _ (there here))

  build_pairs-SendsChallenge :
      (b : AuthorizeUrlBuilder) (before : List (Bytes × Bytes))
      → IsBound ops encode sha256 fill b
      → SendsChallenge (before ++ build_pairs b) b.pkce_verifier
  unfolding build_pairs
  build_pairs-SendsChallenge b before h =
      SendsChallenge-of_pairs b.pkce_verifier _
        (λ p m. In-append_right before (there (there (rw h (In-append_left _ m)))))

  SendsMaxAge-of_pairs :
      (age : Option Duration) (pairs : List (Bytes × Bytes))
      → IsRepresentable age
      → ((p : Bytes × Bytes) → In p (max_age_pairs age) → In p pairs)
      → SendsMaxAge pairs age
  SendsMaxAge-of_pairs none pairs fits f = tt
  SendsMaxAge-of_pairs (some d) pairs fits f =
      (decimal (d / nanos_per_sec), f _ here, parse_uint-decimal (d / nanos_per_sec) fits)

  build_pairs-SendsMaxAge :
      (b : AuthorizeUrlBuilder) (before : List (Bytes × Bytes))
      → IsRepresentable b.max_age
      → SendsMaxAge (before ++ build_pairs b) b.max_age
  unfolding build_pairs
  build_pairs-SendsMaxAge b before fits = SendsMaxAge-of_pairs b.max_age _ fits (λ p m.
      In-append_right before (
        there (
          there (
            In-append_right (challenge_pairs b.pkce_challenge) (
              In-append_right (mode_pairs b.response_mode)
                (In-append_right (prompt_pairs b.prompt) (In-append_left _ m)))))))

  module _ (query_pairs : Url → List (Bytes × Bytes)) (laws : QueryLaws ops query_pairs) where
    -- The redirect URI and the scopes are in the query from the start.
    new_pairs-In :
        (metadata : ProviderMetadata) (client_id : Bytes) (secret : Option Bytes) (redirect : Url)
        (scope : Bytes) (calls calls' : ℕ) (b : AuthorizeUrlBuilder) (settings : List Setting)
        → new_builder ops encode sha256 fill metadata client_id secret redirect scope calls
          ≡ ok (b, calls')
        → In
            (
              codes "redirect_uri",
              (apply_settings ops encode sha256 fill b settings).redirect_uri.text,
            )
            (query_pairs (apply_settings ops encode sha256 fill b settings).url)
          × In
              (codes "scope", (apply_settings ops encode sha256 fill b settings).scopes)
              (query_pairs (apply_settings ops encode sha256 fill b settings).url)
    new_pairs-In metadata client_id secret redirect scope calls calls' b settings h =
        let (url, same_redirect, same_scope) =
          new_builder-url ops encode sha256 fill metadata client_id secret redirect scope calls
            calls' b h in
        let (kept_url, kept_redirect, kept_scope) =
          apply_settings-Keeps ops encode sha256 fill b settings in
        let opened = ops.query_pairs_mut metadata.authorization_endpoint in
        let pairs =
          query-append_pairs ops query_pairs laws opened (new_pairs ops client_id redirect scope) in
        rw (kept_url, kept_redirect, kept_scope, url, same_redirect, same_scope, pairs)
          (
            In-append_right (query_pairs opened) (there (there here)),
            In-append_right (query_pairs opened) (there (there (there here))),
          )

    -- Whatever settings follow the constructor, the URL that `build` returns carries the state, the
    -- nonce, the redirect URI and the scopes of the request that is stored, the S256 challenge of
    -- its verifier if it has one, and its maximal age if it has one, as text that reads back as
    -- those seconds, if they are a `u64`; and a client with no secret has a verifier.
    pub authorize-Agrees :
        (metadata : ProviderMetadata) (client_id : Bytes) (secret : Option Bytes) (redirect : Url)
        (scope : Bytes) (calls calls' : ℕ) (b : AuthorizeUrlBuilder) (settings : List Setting)
        (now : SystemTime)
        → new_builder ops encode sha256 fill metadata client_id secret redirect scope calls
          ≡ ok (b, calls')
        → IsRepresentable (apply_settings ops encode sha256 fill b settings).max_age
        → Agrees
            (query_pairs
              (build ops (apply_settings ops encode sha256 fill b settings)).authorization_url)
            (to_pending now (build ops (apply_settings ops encode sha256 fill b settings)))
          × ((is_some secret
                || is_some
                    (to_pending now
                      (build ops (apply_settings ops encode sha256 fill b settings))).pkce_verifier)
              ≡ true)
    unfolding to_pending build build_pairs
    authorize-Agrees metadata client_id secret redirect scope calls calls' b settings now h fits =
        let (bound, public) =
          new_builder-IsBound ops encode sha256 fill metadata client_id secret redirect scope calls
            calls' b h in
        let final = apply_settings ops encode sha256 fill b settings in
        let before = query_pairs final.url in
        (
          rw (query-build ops query_pairs laws final) (record {
            sends_state = In-append_right before here;
            sends_nonce = In-append_right before (there here);
            sends_challenge =
                build_pairs-SendsChallenge final before
                  (apply_settings-IsBound ops encode sha256 fill b settings bound);
            sends_max_age = build_pairs-SendsMaxAge final before fits;
            sends_redirect =
                In-append_left (build_pairs final)
                  (new_pairs-In metadata client_id secret redirect scope calls calls' b settings
                    h).0;
            sends_scope = (
              final.scopes,
              In-append_left (build_pairs final)
                  (new_pairs-In metadata client_id secret redirect scope calls calls' b settings
                    h).1,
              refl,
            );
          }),
          public_client-is_some ops encode sha256 fill secret b settings public,
        )
