-- ===== src/Flow/Token/Build.antt =====
-- When the builders succeed, and where the client's credentials go.
use oidc4rs.Flow.Token.{
  TokenOps, TokenAuthMethod, build_code_request, CodeTokenRequest, build_refresh_request,
  HttpRequest, request_for, BuiltTokenRequest, needs_secret, basic, RefreshTokenRequest,
  auth_headers, Form, code_form, refresh_form, auth_form, pair_if_some, no_auth,
}
use oidc4rs.Flow.Token.{post}
use oidc4rs.Prelude.{
  ◌≡◌, ◌≢◌, ◌↔◌, inl, inr, true, false, ◌&&◌, ◌||◌, some, [], ◌∷◌, ◌++◌, arith, Option-cases,
  is_some, is_none, unwrap_or, ok, Bytes, codes, In, In-append_right, In-append_left, here,
}

module _ (ops : TokenOps) where
  -- What a code request needs.
  pub record IsComplete (r : CodeTokenRequest) : Type 0 where
    pub secret_known :
        (needs_secret (unwrap_or r.auth_method basic) && is_none r.client_secret) ≡ false
    pub has_code : r.code ≢ []
    pub has_redirect : is_some r.redirect_uri ≡ true
    pub proves_possession :
        (needs_secret (unwrap_or r.auth_method basic) || is_some r.pkce_verifier) ≡ true

  -- A code request is built exactly when its method's secret is known, it has a code and a redirect
  -- URI, and it proves possession by a secret or by a PKCE verifier; what is built posts the form of
  -- the grant, with the fields and headers of the method behind it.
  pub build_code_request_iff :
      (r : CodeTokenRequest) (built : BuiltTokenRequest)
      → (build_code_request ops r ≡ ok built) ↔ (
          IsComplete r
          × (built
              ≡ request_for ops r.endpoint
                  (unwrap_or r.auth_method basic)
                  r.client_id
                  r.client_secret
                  (code_form ops r)))
  unfolding build_code_request
  build_code_request_iff r built = ground arith

  pub build_refresh_request_iff :
      (r : RefreshTokenRequest) (built : BuiltTokenRequest)
      → (build_refresh_request ops r ≡ ok built) ↔ (
          ((needs_secret (unwrap_or r.auth_method basic) && is_none r.client_secret) ≡ false)
          × (r.refresh_token ≢ [])
          × (built
              ≡ request_for ops r.endpoint
                  (unwrap_or r.auth_method basic)
                  r.client_id
                  r.client_secret
                  (refresh_form ops r)))
  unfolding build_refresh_request
  build_refresh_request_iff r built = ground arith

-- The place of the secret: with `client_secret_basic` the body, with `client_secret_post` the
-- headers, and with no authentication the whole request are the same whatever the secret is.
abbrev pub SecretStaysIn : TokenAuthMethod → HttpRequest → HttpRequest → Type 0
SecretStaysIn basic a b = a.body ≡ b.body
SecretStaysIn post a b = a.headers ≡ b.headers
SecretStaysIn no_auth a b = a ≡ b

-- Of two requests that are built with different secrets the URL is the same, and so is the body with
-- `client_secret_basic`, the headers with `client_secret_post`, and the whole request with no
-- authentication.
pub build-SecretStaysIn :
    (ops : TokenOps) (r : CodeTokenRequest) (secret : Bytes) (a b : BuiltTokenRequest)
    → build_code_request ops r ≡ ok a
    → build_code_request ops (record r { client_secret = some secret }) ≡ ok b
    → SecretStaysIn (unwrap_or r.auth_method basic) a.http b.http × (a.http.url ≡ b.http.url)
unfolding build_code_request request_for auth_headers auth_form needs_secret
build-SecretStaysIn ops r secret a b h k = ground arith

-- A field of the posted form.
abbrev pub Posts : TokenOps → BuiltTokenRequest → Bytes → Bytes → Type 0
Posts ops built name value =
    (form : Form) × (built.http.body ≡ some (ops.extend_pairs form)) × In (name, value) form

-- Every request that is built posts the PKCE verifier that it was given.
pub build-Posts_verifier :
    (ops : TokenOps) (r : CodeTokenRequest) (built : BuiltTokenRequest)
    → build_code_request ops r ≡ ok built
    → (verifier : Bytes) → r.pkce_verifier ≡ some verifier
    → Posts ops built (codes "code_verifier") verifier
unfolding build_code_request request_for
build-Posts_verifier ops r built h verifier e =
    let method = unwrap_or r.auth_method basic in
    let grant : Form =
      (codes "grant_type", codes "authorization_code") ∷ (codes "code", r.code) ∷ [] in
    let own : In (codes "code_verifier", verifier) (pair_if_some "code_verifier" r.pkce_verifier) =
      rw e here in
    (
      code_form ops r ++ auth_form ops method r.client_id r.client_secret,
      ground arith,
      In-append_left _ (
          In-append_right grant (In-append_right (pair_if_some "redirect_uri" r.redirect_uri) own)),
    )

-- A client with no authentication has a verifier to post.
pub build-no_auth-Posts :
    (ops : TokenOps) (r : CodeTokenRequest) (built : BuiltTokenRequest)
    → build_code_request ops r ≡ ok built
    → r.auth_method ≡ some no_auth
    → (verifier : Bytes) × (r.pkce_verifier ≡ some verifier)
      × Posts ops built (codes "code_verifier") verifier
unfolding needs_secret
build-no_auth-Posts ops r built h e =
    let proof = ((build_code_request_iff ops r built).0 h).0.proves_possession in
    elim (Option-cases r.pkce_verifier) [
      | inl missing ↦ absurd (ground (arith, proof))
      | inr (v, present) ↦ (v, present, build-Posts_verifier ops r built h v present)
    ]
