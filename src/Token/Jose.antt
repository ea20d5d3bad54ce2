-- ===== src/Token/Jose.antt =====
-- The crate jose4rs, which verifies signatures and reads claims, and serde_json's values: what the
-- library calls of them, as parameters. An error of theirs is kept as the message that it prints.
use oidc4rs.Prelude.{ℕ, Bool, Option, List, Result, Bytes}
use oidc4rs.Error.{Message}
use oidc4rs.Time.{Duration}

-- `AlgorithmIdentifier`, of which the source names these values.
pub data AlgorithmIdentifier : Type 0 where
  no_alg hmac_sha256 hmac_sha384 hmac_sha512 : AlgorithmIdentifier
  rsa_sha256 rsa_sha384 rsa_sha512 : AlgorithmIdentifier
  ecdsa_p256_sha256 ecdsa_p384_sha384 ecdsa_p521_sha512 ecdsa_secp256k1_sha256 : AlgorithmIdentifier
  rsa_pss_sha256 rsa_pss_sha384 rsa_pss_sha512 eddsa : AlgorithmIdentifier

-- What the source sets on a `JwtConsumerBuilder`.
pub record ConsumerConfig : Type 0 where
  pub expected_issuer : Bytes
  pub expected_audience : List Bytes
  pub require_audience : Bool
  pub require_subject : Bool
  pub require_issued_at : Bool
  pub require_expiration_time : Bool
  pub clock_skew : Option Duration

pub record Jose (Claims Key Jws Json : Type 0) : Type 0 where
  -- The message that `JoseError::MalformedToken` prints for its text.
  pub malformed_token : Message → Message
  -- `AlgorithmIdentifier::try_from` and `name`.
  pub algorithm_id : Bytes → Result Message AlgorithmIdentifier
  pub algorithm_name : AlgorithmIdentifier → Bytes
  -- `JsonWebSignature`.
  pub from_compact : Bytes → Result Message Jws
  pub verify_signature : Jws → Key → Result Message Bool
  pub payload : Jws → Key → Result Message Bytes
  pub unverified_payload : Jws → Result Message Bytes
  pub algorithm : Jws → Option Bytes
  pub key_id : Jws → Option Bytes
  -- `JsonWebKey::curve_name`.
  pub curve_name : Key → Option Bytes
  -- `JwtConsumer::process_to_claims`.
  pub process_to_claims : ConsumerConfig → Bytes → Result Message Claims
  -- `JwtClaims`.
  pub parse_claims : Bytes → Result Message Claims
  pub string_claim : Claims → Bytes → Option Bytes
  pub string_array_claim : Claims → Bytes → Option (List Bytes)
  pub audience : Claims → Option (List Bytes)
  pub to_json : Claims → Bytes
  -- `serde_json::from_str` to a value, `Value::get`, `as_u64` and `as_i64` from zero up.
  pub json_value : Bytes → Result Message Json
  pub json_get : Json → Bytes → Option Json
  pub as_u64 : Json → Option ℕ
