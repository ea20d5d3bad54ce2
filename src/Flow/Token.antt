-- ===== src/Flow/Token.antt =====
-- src/flow/token.rs: the token-endpoint requests. The form serializer of the crate `url` and the
-- padded base64 encoding are the fields of `TokenOps`.
pub mod Method
pub mod Build
use Prim.Native.String.{String}
use oidc4rs.Prelude.{
  ℕ, ◌≡◌, Bool, true, false, not, ◌&&◌, ◌||◌, Option, none, some, List, [], ◌∷◌, ◌++◌, ◌==◌,
  if◌then◌else◌, is_some, is_none, unwrap_or, ◌>>=◌, ◌>>◌, ensure, ok, err, Bytes, codes, eqb,
  is_empty, any,
}
use mathlib.Core.Bool.{false≢true}
use oidc4rs.Error.{
  Outcome, OidcError, invalid_metadata, invalid_authorization_request, missing_pkce_verifier, say,
}
use oidc4rs.Types.Url.{Url}
use oidc4rs.Types.Identifiers.{TokenEndpointAuthMethod}
use oidc4rs.Transport.Http.{HttpRequest, HttpMethod}

abbrev pub Form : Type 0
Form = List (Bytes × Bytes)

-- `BuiltTokenRequest`.
pub record BuiltTokenRequest : Type 0 where
  pub url : Url
  pub http : HttpRequest

-- `TokenAuthMethod`.
pub data TokenAuthMethod : Type 0 where
  basic post no_auth : TokenAuthMethod

unfoldable pub as_str : TokenAuthMethod → Bytes
as_str basic = codes "client_secret_basic"
as_str post = codes "client_secret_post"
as_str no_auth = codes "none"

-- `From<TokenEndpointAuthMethod>`.
unfoldable pub from_endpoint_method : TokenEndpointAuthMethod → TokenAuthMethod
from_endpoint_method TokenEndpointAuthMethod.client_secret_basic = basic
from_endpoint_method TokenEndpointAuthMethod.client_secret_post = post
from_endpoint_method TokenEndpointAuthMethod.no_auth = no_auth

abbrev pub lists : String → List Bytes → Bool
lists name supported = any (λ m. eqb m (codes name)) supported

-- `from_metadata`.
unfoldable pub from_metadata : Option (List Bytes) → Bool → Outcome TokenAuthMethod
from_metadata none has_secret = ok (if has_secret then basic else no_auth)
from_metadata (some supported) has_secret =
    if has_secret
    then if lists "client_secret_basic" supported
      then ok basic
      else if lists "client_secret_post" supported
      then ok post
      else err
          (invalid_metadata (say "provider advertises no supported client authentication method"))
    else if lists "none" supported
    then ok no_auth
    else err (invalid_metadata (say "provider does not advertise unauthenticated token requests"))

-- `strip_prefix` at one byte, and `expect` where the value is known to be there.
unfoldable pub strip_prefix : ℕ → Bytes → Option Bytes
strip_prefix c [] = none
strip_prefix c (d ∷ s) = if d == c then some s else none

unfoldable pub expect : (o : Option Bytes) → is_some o ≡ true → Bytes
expect none h = absurd (false≢true h)
expect (some s) h = s

pub record TokenOps : Type 0 where
  pub extend_pairs : Form → Bytes
  pub base64_standard : Bytes → Bytes
  -- The serialization of a pair with an empty name starts with `=`.
  pub empty_name : (v : Bytes) → is_some (strip_prefix b'=' (extend_pairs (([], v) ∷ []))) ≡ true

-- `CodeTokenRequest`.
pub record CodeTokenRequest : Type 0 where
  pub endpoint : Url
  pub client_id : Bytes
  pub client_secret : Option Bytes
  pub code : Bytes
  pub redirect_uri : Option Bytes
  pub pkce_verifier : Option Bytes
  pub auth_method : Option TokenAuthMethod

-- `CodeTokenRequest::new` and its setters.
unfoldable pub new_code_request :
    Url → Bytes → Option Bytes → Bytes → Option TokenAuthMethod → CodeTokenRequest
new_code_request endpoint client_id client_secret code auth_method = record {
  endpoint = endpoint;
  client_id = client_id;
  client_secret = client_secret;
  code = code;
  redirect_uri = none;
  pkce_verifier = none;
  auth_method = auth_method;
}

unfoldable pub with_redirect_uri : CodeTokenRequest → Bytes → CodeTokenRequest
with_redirect_uri r uri = record r { redirect_uri = some uri }

unfoldable pub with_pkce_verifier : CodeTokenRequest → Bytes → CodeTokenRequest
with_pkce_verifier r verifier = record r { pkce_verifier = some verifier }

unfoldable pub with_auth_method : CodeTokenRequest → TokenAuthMethod → CodeTokenRequest
with_auth_method r method = record r { auth_method = some method }

-- `RefreshTokenRequest`.
pub record RefreshTokenRequest : Type 0 where
  pub endpoint : Url
  pub client_id : Bytes
  pub client_secret : Option Bytes
  pub refresh_token : Bytes
  pub scope : Option Bytes
  pub auth_method : Option TokenAuthMethod

unfoldable pub new_refresh_request :
    Url → Bytes → Option Bytes → Bytes → Option TokenAuthMethod → RefreshTokenRequest
new_refresh_request endpoint client_id client_secret refresh_token auth_method = record {
  endpoint = endpoint;
  client_id = client_id;
  client_secret = client_secret;
  refresh_token = refresh_token;
  scope = none;
  auth_method = auth_method;
}

unfoldable pub with_scope : RefreshTokenRequest → Bytes → RefreshTokenRequest
with_scope r scope = record r { scope = some scope }

unfoldable pub with_refresh_auth_method :
    RefreshTokenRequest → TokenAuthMethod → RefreshTokenRequest
with_refresh_auth_method r method = record r { auth_method = some method }

-- The guard on the secret that both builders begin with.
unfoldable pub needs_secret : TokenAuthMethod → Bool
needs_secret basic = true
needs_secret post = true
needs_secret no_auth = false

abbrev pub secret_required : OidcError
secret_required =
    invalid_authorization_request
      (say "client_secret required for client_secret_basic / client_secret_post")

abbrev pub pair_if_some : String → Option Bytes → Form
pair_if_some name none = []
pair_if_some name (some v) = (codes name, v) ∷ []

abbrev pub base_headers : List (Bytes × Bytes)
base_headers =
    (codes "Accept", codes "application/json")
    ∷ (codes "Content-Type", codes "application/x-www-form-urlencoded")
    ∷ []

module _ (ops : TokenOps) where
  unfoldable pub form_encode_component : Bytes → Bytes
  form_encode_component v =
      expect (strip_prefix b'=' (ops.extend_pairs (([], v) ∷ []))) (ops.empty_name v)

  -- The `match method` of both builders: the pushed headers and the pushed form fields.
  unfoldable pub auth_headers : TokenAuthMethod → Bytes → Option Bytes → List (Bytes × Bytes)
  auth_headers basic client_id secret =
      let creds =
        form_encode_component client_id ++ (b':' ∷ form_encode_component (unwrap_or secret [])) in
      (codes "Authorization", codes "Basic " ++ ops.base64_standard creds) ∷ []
  auth_headers post client_id secret = []
  auth_headers no_auth client_id secret = []

  unfoldable pub auth_form : TokenAuthMethod → Bytes → Option Bytes → Form
  auth_form basic client_id secret = []
  auth_form post client_id secret =
      (codes "client_id", client_id) ∷ (codes "client_secret", unwrap_or secret []) ∷ []
  auth_form no_auth client_id secret = (codes "client_id", client_id) ∷ []

  -- The request that both builders end with.
  unfoldable pub request_for :
      Url → TokenAuthMethod → Bytes → Option Bytes → Form → BuiltTokenRequest
  request_for endpoint method client_id secret form = record {
    url = endpoint;
    http = record {
      method = HttpMethod.post;
      url = endpoint.text;
      headers = base_headers ++ auth_headers method client_id secret;
      body = some (ops.extend_pairs (form ++ auth_form method client_id secret));
    };
  }

  abbrev pub code_form : CodeTokenRequest → Form
  code_form r =
      ((codes "grant_type", codes "authorization_code") ∷ (codes "code", r.code) ∷ [])
      ++ (pair_if_some "redirect_uri" r.redirect_uri
          ++ pair_if_some "code_verifier" r.pkce_verifier)

  -- `CodeTokenRequest::build`.
  unfoldable pub build_code_request : CodeTokenRequest → Outcome BuiltTokenRequest
  build_code_request r = do
    let method = unwrap_or r.auth_method basic
    ensure (not (needs_secret method && is_none r.client_secret)) secret_required
    ensure (not (is_empty r.code))
        (invalid_authorization_request (say "authorization code is required"))
    ensure (is_some r.redirect_uri) (invalid_authorization_request (say "redirect_uri is required"))
    ensure (needs_secret method || is_some r.pkce_verifier) missing_pkce_verifier
    ok (request_for r.endpoint method r.client_id r.client_secret (code_form r))

  abbrev pub refresh_form : RefreshTokenRequest → Form
  refresh_form r =
      ((codes "grant_type", codes "refresh_token") ∷ (codes "refresh_token", r.refresh_token) ∷ [])
      ++ pair_if_some "scope" r.scope

  -- `RefreshTokenRequest::build`.
  unfoldable pub build_refresh_request : RefreshTokenRequest → Outcome BuiltTokenRequest
  build_refresh_request r = do
    let method = unwrap_or r.auth_method basic
    ensure (not (needs_secret method && is_none r.client_secret)) secret_required
    ensure (not (is_empty r.refresh_token))
        (invalid_authorization_request (say "refresh_token is required"))
    ok (request_for r.endpoint method r.client_id r.client_secret (refresh_form r))
