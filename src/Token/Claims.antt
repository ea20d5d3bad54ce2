-- ===== src/Token/Claims.antt =====
-- src/claims.rs: the typed accessors on verified claims. `decode` is the unpadded base64 decoding,
-- with the text of its error, and `as_i64` reads a JSON value as a signed 64-bit integer, of which
-- the value is kept as JSON.
use oidc4rs.Prelude.{
  Option, none, some, List, ◌>>=?◌, Result, ◌>>=◌, map_err, ok, err, Bytes, codes,
}
use oidc4rs.Error.{Message, Outcome, base64}
use oidc4rs.Token.Jose.{Jose}

module _ {Claims Key Jws Json : Type 0} (library : Jose Claims Key Jws Json)
    (decode : Bytes → Result Message Bytes) where
  -- `decode_hash_claim`.
  unfoldable pub decode_hash_claim : Claims → Bytes → Outcome (Option Bytes)
  decode_hash_claim claims name = elim (library.string_claim claims name) [
    | none ↦ ok none
    | some s ↦ (do bytes ← map_err base64 (decode s); ok (some bytes))
  ]

  abbrev pub at_hash : Claims → Outcome (Option Bytes)
  at_hash claims = decode_hash_claim claims (codes "at_hash")

  abbrev pub c_hash : Claims → Outcome (Option Bytes)
  c_hash claims = decode_hash_claim claims (codes "c_hash")

  abbrev ok_to_option : Result Message Json → Option Json
  ok_to_option (ok v) = some v
  ok_to_option (err e) = none

  -- `time_int`, for the integers of a type that `as_i64` reads.
  unfoldable pub time_int {ℓ} : {I : Type ℓ} → (Json → Option I) → Claims → Bytes → Option I
  time_int as_i64 claims name =
      ok_to_option (library.json_value (library.to_json claims))
      >>=? (λ value. library.json_get value name)
      >>=? as_i64

  unfoldable pub auth_time {ℓ} : {I : Type ℓ} → (Json → Option I) → Claims → Outcome (Option I)
  auth_time as_i64 claims = ok (time_int as_i64 claims (codes "auth_time"))

  unfoldable pub acr : Claims → Outcome (Option Bytes)
  acr claims = ok (library.string_claim claims (codes "acr"))

  unfoldable pub amr : Claims → Outcome (Option (List Bytes))
  amr claims = ok (library.string_array_claim claims (codes "amr"))

  unfoldable pub azp : Claims → Outcome (Option Bytes)
  azp claims = ok (library.string_claim claims (codes "azp"))

  unfoldable pub nonce : Claims → Outcome (Option Bytes)
  nonce claims = ok (library.string_claim claims (codes "nonce"))
