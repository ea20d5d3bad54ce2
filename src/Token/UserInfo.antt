-- ===== src/Token/UserInfo.antt =====
-- src/token/userinfo.rs: UserInfo responses and their verification. A JSON value that the library
-- keeps uninterpreted, and the map of unknown claims, are kept as their text; `decode` is serde's
-- reader of a UserInfo document.
pub mod Sound
use oidc4rs.Prelude.{
  Bool, true, false, not, Option, none, some, List, [], ◌∷◌, Result, ◌>>=◌, ◌>>◌, ensure, map_err,
  Bytes, codes, eqb, eq_ignore_ascii_case, any, retain,
}
use oidc4rs.Error.{
  Message, Outcome, unsupported_algorithm, invalid_user_info_jwt, user_info_subject_mismatch, jose,
  json, say, arg,
}
use oidc4rs.Token.Jose.{ConsumerConfig}
use oidc4rs.Token.Response.{parse_id_token}
use oidc4rs.Token.Verify.{Primitives, resolve_key, default_allowed_algs, is_forbidden_alg}
use oidc4rs.Metadata.Provider.{ProviderMetadata}
use oidc4rs.Flow.Callback.{is_utf8}

-- `UserInfoVerifier`.
pub record UserInfoVerifier : Type 0 where
  pub expected_issuer : Bytes
  pub expected_audience : Bytes
  pub allowed_algs : List Bytes

unfoldable pub new_userinfo_verifier : Bytes → Bytes → UserInfoVerifier
new_userinfo_verifier issuer audience = record {
  expected_issuer = issuer;
  expected_audience = audience;
  allowed_algs = default_allowed_algs;
}

-- The algorithms of the document, or the defaults if it has no list.
unfoldable pub userinfo_algs : Option (List Bytes) → List Bytes
userinfo_algs none = default_allowed_algs
userinfo_algs (some advertised) = retain (λ alg. not (is_forbidden_alg alg)) advertised

unfoldable pub userinfo_from_metadata : ProviderMetadata → Bytes → UserInfoVerifier
userinfo_from_metadata metadata audience = record {
  expected_issuer = metadata.issuer.serialized;
  expected_audience = audience;
  allowed_algs = userinfo_algs metadata.userinfo_signing_alg_values_supported;
}

unfoldable pub with_userinfo_algs : UserInfoVerifier → List Bytes → UserInfoVerifier
with_userinfo_algs v algs = record v { allowed_algs = algs }

-- `UserInfo`.
pub record UserInfo : Type 0 where
  pub sub : Bytes
  pub name : Option Bytes
  pub given_name : Option Bytes
  pub family_name : Option Bytes
  pub middle_name : Option Bytes
  pub nickname : Option Bytes
  pub preferred_username : Option Bytes
  pub profile : Option Bytes
  pub picture : Option Bytes
  pub website : Option Bytes
  pub email : Option Bytes
  pub email_verified : Option Bool
  pub phone_number : Option Bytes
  pub phone_number_verified : Option Bool
  pub address : Option Bytes
  pub zoneinfo : Option Bytes
  pub locale : Option Bytes
  pub updated_at : Option Bytes
  pub extra : List (Bytes × Bytes)

-- `UserInfo::verify_subject`.
unfoldable pub verify_subject : UserInfo → Bytes → Outcome (Unit {0})
verify_subject info expected = ensure (eqb info.sub expected) user_info_subject_mismatch

-- `UserInfo::from_json`.
unfoldable pub from_json : (Bytes → Result Message UserInfo) → Bytes → Outcome UserInfo
from_json decode bytes = map_err json (decode bytes)

module _ {Claims Key Jws Json : Type 0} (env : Primitives Claims Key Jws Json)
    (decode : Bytes → Result Message UserInfo)
    (select : Option Bytes → Bytes → Result Message (Option Key)) where
  abbrev pub userinfo_config : UserInfoVerifier → ConsumerConfig
  userinfo_config v = record {
    expected_issuer = v.expected_issuer;
    expected_audience = v.expected_audience ∷ [];
    require_audience = true;
    require_subject = false;
    require_issued_at = false;
    require_expiration_time = false;
    clock_skew = none;
  }

  -- The signed part of `UserInfoVerifier::verify`, once the key is known.
  unfoldable pub read_signed : UserInfoVerifier → Bytes → Key → Outcome UserInfo
  read_signed v compact key = do
    jws ← map_err jose (env.library.from_compact compact)
    genuine ← map_err jose (env.library.verify_signature jws key)
    ensure genuine (invalid_user_info_jwt (say "JWS signature is invalid"))
    payload ← map_err jose (env.library.payload jws key)
    ensure (is_utf8 payload) (invalid_user_info_jwt (say "JWT payload is not valid UTF-8"))
    claims ←
        map_err invalid_user_info_jwt (env.library.process_to_claims (userinfo_config v) payload)
    map_err json (decode payload)

  -- `UserInfoVerifier::verify`, which `UserInfo::from_signed_jwt` calls.
  unfoldable pub verify_userinfo : UserInfoVerifier → Bytes → Outcome UserInfo
  verify_userinfo v compact = do
    token ← map_err jose (parse_id_token env.library compact)
    ensure (not (eq_ignore_ascii_case token.header_alg (codes "none")))
        (unsupported_algorithm (say "the `none` algorithm is never accepted for UserInfo"))
    ensure (any (λ a. eqb a token.header_alg) v.allowed_algs)
        (unsupported_algorithm (arg token.header_alg ∷ []))
    alg_id ← map_err unsupported_algorithm (env.library.algorithm_id token.header_alg)
    key ← resolve_key env select token
    read_signed v compact key
