-- ===== src/Debug.antt =====
-- The `Debug` impls that hide secrets: `redacted_debug!` of src/types/identifiers.rs, and those of
-- src/flow/authorize.rs, src/token/response.rs and src/transport/http.rs. What a `debug_struct`
-- prints is its list of fields.
use Prim.Native.String.{String}
use oidc4rs.Prelude.{◌≡◌, refl, Option, none, some, List, [], ◌∷◌, is_some, Bytes}
use oidc4rs.Transport.Http.{HttpRequest, AgreeInPublic, debug_headers, debug_body, debug_headers-eq}
use oidc4rs.Flow.Authorize.{PendingAuthRequest}
use oidc4rs.Token.Response.{TokenResponse, IdToken}

-- What a field prints: a value of its own, `***`, or an option around it.
pub data Shown : Type 1 where
  shown : {A : Type 0} → A → Shown
  masked : Shown
  absent : Shown
  given : Shown → Shown

abbrev pub Fields : Type 1
Fields = List (String × Shown)

-- A newtype under `redacted_debug!` or the `secret` arm of `nonempty_string_newtype!`.
unfoldable pub debug_secret : Bytes → Shown
debug_secret s = masked

-- `.as_ref().map(|_| "***")`.
unfoldable pub debug_optional_secret : Option Bytes → Shown
debug_optional_secret none = absent
debug_optional_secret (some s) = given masked

unfoldable pub debug_pending : PendingAuthRequest → Fields
debug_pending p =
    ("state", shown p.state)
    ∷ ("nonce", masked)
    ∷ ("pkce_verifier", debug_optional_secret p.pkce_verifier)
    ∷ ("max_age", shown p.max_age)
    ∷ ("redirect_uri", shown p.redirect_uri)
    ∷ ("scopes", shown p.scopes)
    ∷ ("created_at", shown p.created_at)
    ∷ []

-- `Option<RefreshToken>`, whose value is under `redacted_debug!`.
unfoldable pub debug_refresh_token : Option Bytes → Shown
debug_refresh_token none = absent
debug_refresh_token (some t) = given (debug_secret t)

unfoldable pub debug_token_response : TokenResponse → Fields
debug_token_response t =
    ("access_token", debug_secret t.access_token)
    ∷ ("token_type", shown t.token_type)
    ∷ ("expires_in", shown t.expires_in)
    ∷ ("refresh_token", debug_refresh_token t.refresh_token)
    ∷ ("id_token", debug_optional_secret t.id_token)
    ∷ ("scope", shown t.scope)
    ∷ []

unfoldable pub debug_id_token : {Claims : Type 0} → IdToken Claims → Fields
debug_id_token t =
    ("raw", masked) ∷ ("header_alg", shown t.header_alg) ∷ ("header_kid", shown t.header_kid) ∷ []

unfoldable pub debug_request : HttpRequest → Fields
debug_request r =
    ("method", shown r.method)
    ∷ ("url", shown r.url)
    ∷ ("headers", shown (debug_headers r.headers))
    ∷ ("body", shown (debug_body r.body))
    ∷ []

optional_secret_eq :
    (a b : Option Bytes) → is_some a ≡ is_some b → debug_optional_secret a ≡ debug_optional_secret b
unfolding debug_optional_secret
optional_secret_eq none none h = refl
optional_secret_eq (some a) (some b) h = refl
optional_secret_eq none (some b) h = cc
optional_secret_eq (some a) none h = cc

refresh_token_eq :
    (a b : Option Bytes) → is_some a ≡ is_some b → debug_refresh_token a ≡ debug_refresh_token b
unfolding debug_refresh_token debug_secret
refresh_token_eq none none h = refl
refresh_token_eq (some a) (some b) h = refl
refresh_token_eq none (some b) h = cc
refresh_token_eq (some a) none h = cc

-- A pending request with another nonce and, if it had one, another verifier; a token response with
-- another access token and, where it had them, another refresh token and ID token; an ID token with
-- another text and claims; and a request with other values of its sensitive headers and another body
-- of the same length: each has the debug output of the first.
pub debug_hides :
    {Claims : Type 0} (p : PendingAuthRequest) (t : TokenResponse) (i : IdToken Claims)
    (r : HttpRequest) (nonce access raw : Bytes) (verifier refresh id : Option Bytes)
    (claims : Claims) (headers : List (Bytes × Bytes)) (body : Option Bytes)
    → is_some verifier ≡ is_some p.pkce_verifier
    → is_some refresh ≡ is_some t.refresh_token
    → is_some id ≡ is_some t.id_token
    → AgreeInPublic headers r.headers
    → debug_body body ≡ debug_body r.body
    → (debug_pending (record p { nonce = nonce; pkce_verifier = verifier }) ≡ debug_pending p)
      × (debug_token_response
            (record t { access_token = access; refresh_token = refresh; id_token = id })
          ≡ debug_token_response t)
      × (debug_id_token (record i { raw = raw; claims = claims }) ≡ debug_id_token i)
      × (debug_request (record r { headers = headers; body = body }) ≡ debug_request r)
unfolding debug_pending debug_token_response debug_id_token debug_request debug_secret
debug_hides p t i r nonce access raw verifier refresh id claims headers body v w x h b = (
  rw (optional_secret_eq verifier p.pkce_verifier v) refl,
  rw (refresh_token_eq refresh t.refresh_token w, optional_secret_eq id t.id_token x) refl,
  refl,
  rw (debug_headers-eq headers r.headers h, b) refl,
)
