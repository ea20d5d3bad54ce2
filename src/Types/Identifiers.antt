-- ===== src/Types/Identifiers.antt =====
-- src/types/identifiers.rs: the newtypes that reject an empty text, scopes, random values and PKCE.
-- A value of such a newtype is kept as its text: `as_str`, `Display` and `AsRef` are the identity.
-- The base64 encoding is the parameter `encode`, and `fill i n` is the bytes that the i-th call of
-- `fill_bytes` stores for a buffer of n bytes.
use Prim.Native.String.{String}
use oidc4rs.Prelude.{
  ℕ, ◌+◌, ◌*◌, ◌/◌, ◌≡◌, not, List, arith, if◌then◌else◌, ok, err, Bytes, codes, is_empty, split,
  length, retain,
}
use oidc4rs.Error.{Outcome, invalid_metadata, say}

-- `ClientId`, `ClientSecret`, `LogoutHint`, `AccessToken` and `RefreshToken`: the constructor `new`.
unfoldable pub new_non_empty : String → Bytes → Outcome Bytes
new_non_empty message s = if is_empty s then err (invalid_metadata (say message)) else ok s

abbrev pub client_id_new : Bytes → Outcome Bytes
client_id_new = new_non_empty "ClientId must not be empty"

abbrev pub client_secret_new : Bytes → Outcome Bytes
client_secret_new = new_non_empty "ClientSecret must not be empty"

abbrev pub logout_hint_new : Bytes → Outcome Bytes
logout_hint_new = new_non_empty "LogoutHint must not be empty"

abbrev pub access_token_new : Bytes → Outcome Bytes
access_token_new = new_non_empty "AccessToken must not be empty"

abbrev pub refresh_token_new : Bytes → Outcome Bytes
refresh_token_new = new_non_empty "RefreshToken must not be empty"

-- `Scope::openid` and `Scope::iter`: the pieces between spaces that are not empty.
abbrev pub scope_openid : Bytes
scope_openid = codes "openid"

unfoldable pub scope_iter : Bytes → List Bytes
scope_iter s = retain (λ p. not (is_empty p)) (split 32 s)

-- `PkceCodeChallengeMethod`, `ResponseType`, `GrantType`.
pub data PkceCodeChallengeMethod : Type 0 where
  s256 plain : PkceCodeChallengeMethod

pub data ResponseType : Type 0 where
  code id_token token : ResponseType

pub data GrantType : Type 0 where
  authorization_code refresh_token : GrantType

-- `AuthPrompt` and its `as_str`.
pub data AuthPrompt : Type 0 where
  none_prompt login consent select_account : AuthPrompt

unfoldable pub prompt_as_str : AuthPrompt → Bytes
prompt_as_str none_prompt = codes "none"
prompt_as_str login = codes "login"
prompt_as_str consent = codes "consent"
prompt_as_str select_account = codes "select_account"

-- `ResponseMode` and its `as_str`.
pub data ResponseMode : Type 0 where
  query fragment form_post : ResponseMode

unfoldable pub mode_as_str : ResponseMode → Bytes
mode_as_str query = codes "query"
mode_as_str fragment = codes "fragment"
mode_as_str form_post = codes "form_post"

-- `TokenEndpointAuthMethod`.
pub data TokenEndpointAuthMethod : Type 0 where
  client_secret_basic client_secret_post no_auth : TokenEndpointAuthMethod

-- `PkceCodeChallenge`.
pub record PkceCodeChallenge : Type 0 where
  pub method : PkceCodeChallengeMethod
  pub value : Bytes

-- `PkceCodeChallenge::s256_from_verifier`.
unfoldable pub s256_from_verifier : (encode sha256 : Bytes → Bytes) → Bytes → PkceCodeChallenge
s256_from_verifier encode sha256 v = record { method = s256; value = encode (sha256 v) }

module _ (encode : Bytes → Bytes) (fill : ℕ → ℕ → Bytes) where
  -- `random_url_safe`, with the number of calls made so far before and after.
  unfoldable pub random_url_safe : ℕ → ℕ → Bytes × ℕ
  random_url_safe n calls = (encode (fill calls n), calls + 1)

  -- `Nonce::new_random`, `State::new_random` and `PkceCodeVerifier::new_random`.
  unfoldable pub new_nonce : ℕ → Bytes × ℕ
  unfolding random_url_safe
  new_nonce calls = random_url_safe 32 calls

  unfoldable pub new_state : ℕ → Bytes × ℕ
  unfolding random_url_safe
  new_state calls = random_url_safe 32 calls

  unfoldable pub new_verifier : ℕ → Bytes × ℕ
  unfolding random_url_safe
  new_verifier calls = random_url_safe 64 calls

-- What the unpadded encoding and the generator document of their lengths.
pub record HaveEncodedLengths (encode : Bytes → Bytes) (fill : ℕ → ℕ → Bytes) : Type 0 where
  pub encode_len : (s : Bytes) → length (encode s) ≡ (length s * 4 + 2) / 3
  pub fill_len : (i n : ℕ) → length (fill i n) ≡ n

-- Where the encoding and the generator have their documented lengths, a fresh verifier has 86
-- characters, and a fresh state and nonce have 43.
pub new_random-length :
    (encode : Bytes → Bytes) (fill : ℕ → ℕ → Bytes)
    → HaveEncodedLengths encode fill
    → (calls : ℕ)
    → (length (new_verifier encode fill calls).0 ≡ 86)
      × (length (new_state encode fill calls).0 ≡ 43)
      × (length (new_nonce encode fill calls).0 ≡ 43)
unfolding new_verifier new_state new_nonce
new_random-length encode fill laws calls = (
  omega (arith, laws.encode_len (fill calls 64), laws.fill_len calls 64),
  omega (arith, laws.encode_len (fill calls 32), laws.fill_len calls 32),
  omega (arith, laws.encode_len (fill calls 32), laws.fill_len calls 32),
)
