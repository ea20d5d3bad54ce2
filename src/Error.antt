-- ===== src/Error.antt =====
-- src/error.rs: the error of the whole crate, with the errors of src/flow/callback.rs and
-- src/transport/kv.rs that it wraps. The text that `format!` joins is kept as its pieces; the
-- foreign errors of jose4rs, serde_json and base64 are kept as the text that they print.
use Prim.Native.String.{String}
use oidc4rs.Prelude.{ℕ, Option, List, [], ◌∷◌, Result, map_err, Bytes}

-- A piece of a message: literal text, a value, a number, or, as `{:?}` prints them, an optional
-- value and a text.
pub data Piece : Type 0 where
  lit : String → Piece
  arg : Bytes → Piece
  num : ℕ → Piece
  debug : Option Bytes → Piece
  quoted : Bytes → Piece

abbrev pub Message : Type 0
Message = List Piece

abbrev pub say : String → Message
say s = lit s ∷ []

pub data KvError : Type 0 where
  invalid_ttl : KvError
  storage : Message → KvError

-- `CallbackError`.
pub data CallbackError : Type 0 where
  missing : String → CallbackError
  provider_error :
      (error : Bytes) (description error_uri : Option Bytes) (state : Bytes) (iss : Option Bytes)
      → CallbackError
  duplicate_parameter : Bytes → CallbackError
  ambiguous_response : CallbackError
  invalid_parameter : String → CallbackError
  issuer_mismatch : (expected actual : Bytes) → CallbackError
  parse : Message → CallbackError

-- `OidcError`.
pub data OidcError : Type 0 where
  discovery : Message → OidcError
  http : Message → OidcError
  invalid_metadata : Message → OidcError
  invalid_url : Message → OidcError
  invalid_id_token : Message → OidcError
  token_endpoint : (status : ℕ) (error : Bytes) (error_description : Option Bytes) → OidcError
  user_info : (status : ℕ) (error : Bytes) (error_description : Option Bytes) → OidcError
  invalid_user_info_jwt : Message → OidcError
  user_info_subject_mismatch : OidcError
  jose : Message → OidcError
  no_matching_jwk : (kid : Option Bytes) (alg : Bytes) → OidcError
  at_hash_mismatch : OidcError
  unsupported_algorithm : Message → OidcError
  kv : KvError → OidcError
  json : Message → OidcError
  base64 : Message → OidcError
  authorization_response : CallbackError → OidcError
  invalid_authorization_request : Message → OidcError
  missing_pkce_verifier : OidcError
  unexpected_pkce : OidcError
  pending_authorization_expired : OidcError
  pending_authorization_from_future : OidcError

-- The texts of the `#[error]` attributes.
unfoldable pub kv_text : KvError → Message
kv_text invalid_ttl = say "time-to-live must be greater than zero and representable"
kv_text (storage m) = lit "storage backend error: " ∷ m

unfoldable pub callback_text : CallbackError → Message
callback_text (missing name) = lit "missing required parameter: " ∷ lit name ∷ []
callback_text (provider_error error description error_uri state iss) =
    lit "provider returned an error: " ∷ arg error ∷ lit " - " ∷ debug description ∷ []
callback_text (duplicate_parameter name) =
    lit "authorization response parameter appears more than once: " ∷ arg name ∷ []
callback_text ambiguous_response =
    say "authorization response contains both success and error parameters"
callback_text (invalid_parameter name) =
    lit "authorization response parameter has an invalid value: " ∷ lit name ∷ []
callback_text (issuer_mismatch expected actual) =
    lit "authorization response issuer mismatch: expected "
    ∷ arg expected
    ∷ lit ", got "
    ∷ arg actual
    ∷ []
callback_text (parse m) = lit "failed to parse redirect: " ∷ m

unfoldable pub text : OidcError → Message
text (discovery m) = lit "discovery failed: " ∷ m
text (http m) = lit "HTTP transport error: " ∷ m
text (invalid_metadata m) = lit "invalid provider metadata: " ∷ m
text (invalid_url m) = lit "invalid URL: " ∷ m
text (invalid_id_token m) = lit "ID-token validation failed: " ∷ m
text (token_endpoint status error d) =
    lit "token endpoint error (status " ∷ num status ∷ lit "): " ∷ arg error ∷ []
text (user_info status error d) =
    lit "userinfo error (status " ∷ num status ∷ lit "): " ∷ arg error ∷ []
text (invalid_user_info_jwt m) = lit "signed UserInfo validation failed: " ∷ m
text user_info_subject_mismatch = say "UserInfo subject does not match the ID-token subject"
text (jose m) = lit "JOSE error: " ∷ m
text (no_matching_jwk kid alg) =
    lit "no matching JWK for kid=" ∷ debug kid ∷ lit ", alg=" ∷ arg alg ∷ []
text at_hash_mismatch = say "at_hash mismatch"
text (unsupported_algorithm m) = lit "unsupported signing algorithm: " ∷ m
text (kv e) = lit "key-value store error: " ∷ kv_text e
text (json m) = lit "JSON error: " ∷ m
text (base64 m) = lit "base64 decode error: " ∷ m
text (authorization_response e) = lit "authorization response error: " ∷ callback_text e
text (invalid_authorization_request m) = lit "invalid authorization request: " ∷ m
text missing_pkce_verifier = say "missing PKCE verifier in pending request"
text unexpected_pkce = say "expected PKCE challenge on pending request"
text pending_authorization_expired = say "pending authorization request has expired"
text pending_authorization_from_future =
    say "pending authorization request timestamp is in the future"

-- Every fallible operation of the crate.
abbrev pub Outcome {ℓ} : Type ℓ → Type ℓ
Outcome A = Result OidcError A

-- The conversions that `?` makes by `From`.
abbrev pub from_callback {ℓ} : {A : Type ℓ} → Result CallbackError A → Outcome A
from_callback r = map_err authorization_response r

abbrev pub from_kv {ℓ} : {A : Type ℓ} → Result KvError A → Outcome A
from_kv r = map_err kv r
