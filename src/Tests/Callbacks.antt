-- ===== src/Tests/Callbacks.antt =====
-- Runs of the parser of authorization responses, and of the URL and metadata checks.
use oidc4rs.Flow.Callback.Scan.{scan, scan_round, hex_byte}
use oidc4rs.Flow.Callback.Scan.Total.{scan-decode_component}
use oidc4rs.Flow.Callback.{decode_component, hex_value}
use oidc4rs.Prelude.{
  ◌+◌, ◌≡◌, refl, ◌↔◌, true, none, some, [], ◌∷◌, arith, ok, Bytes, codes, eqb, length,
}
use oidc4rs.Prelude.{
  ◌+◌, ◌≡◌, refl, ◌↔◌, true, none, some, [], ◌∷◌, arith, ok, Bytes, codes, eqb, length,
}
use oidc4rs.Types.Url.Serde.{
  Reparses, deserialize-serialize, deserialize_issuer, serialize_issuer, deserialize_https,
  serialize_https, deserialize_redirect, serialize_redirect, deserialize_post_logout,
  serialize_post_logout,
}
use oidc4rs.Tests.Env.{urls, op}
use oidc4rs.Flow.Callback.{
  Params, parse_authorization_response, success, error, validate_encoded_component, is_utf8,
}
use oidc4rs.Flow.Callback.Response.{
  IsWellFormed, IsCodeResponse, IsErrorResponse, parse-eq-success_iff, parse-eq-error_iff,
}
use oidc4rs.Flow.Callback.Encoding.{validate-percent_encode_iff, percent_encode}
use oidc4rs.Types.Url.{issuer_from_str, https_from_str, redirect_from_str, post_logout_from_str}

abbrev pub granted_query : Bytes
granted_query = codes "code=c&state=st&iss=https://op"

abbrev pub granted_params : Bytes → Params
granted_params raw =
    (codes "code", codes "c") ∷ (codes "state", codes "st") ∷ (codes "iss", codes "https://op") ∷ []

abbrev denied_params : Bytes → Params
denied_params raw = (codes "error", codes "access_denied") ∷ (codes "state", codes "st") ∷ []

parse-eq-success_iff_example :
    (parse_authorization_response granted_params granted_query
      ≡ ok (success (codes "c") (codes "st") (some (codes "https://op"))))
    ↔ (IsWellFormed granted_params granted_query
        × IsCodeResponse
            (granted_params granted_query)
            (codes "c")
            (codes "st")
            (some (codes "https://op")))
parse-eq-success_iff_example =
    parse-eq-success_iff granted_params granted_query (codes "c") (codes "st")
      (some (codes "https://op"))

parse-eq-error_iff_example :
    (parse_authorization_response denied_params (codes "error=access_denied&state=st")
      ≡ ok (error (codes "access_denied") none none (codes "st") none))
    ↔ (IsWellFormed denied_params (codes "error=access_denied&state=st")
        × IsErrorResponse
            (denied_params (codes "error=access_denied&state=st"))
            (codes "access_denied")
            none
            none
            (codes "st")
            none)
parse-eq-error_iff_example =
    parse-eq-error_iff denied_params (codes "error=access_denied&state=st") (codes "access_denied")
      none none (codes "st") none

validate-percent_encode_iff_example :
    (validate_encoded_component (percent_encode (codes "é")) ≡ ok tt) ↔ (is_utf8 (codes "é") ≡ true)
validate-percent_encode_iff_example = validate-percent_encode_iff (codes "é") (omega arith, tt)

urls-Reparses : Reparses urls
urls-Reparses s u h = refl

deserialize-serialize_example :
    (deserialize_issuer urls (serialize_issuer op) ≡ ok op)
    × (deserialize_https urls "TokenUrl" (serialize_https (record { text = codes "https://op/t" }))
        ≡ ok (record { text = codes "https://op/t" }))
    × (deserialize_redirect urls (serialize_redirect (record { text = codes "app:back" }))
        ≡ ok (record { text = codes "app:back" }))
    × (deserialize_post_logout urls (serialize_post_logout (record { text = codes "app:bye" }))
        ≡ ok (record { text = codes "app:bye" }))
unfolding issuer_from_str https_from_str redirect_from_str post_logout_from_str eqb
deserialize-serialize_example =
    deserialize-serialize urls urls-Reparses "TokenUrl" (codes "https://op") (codes "https://op/t")
      (codes "app:back") (codes "app:bye") op (record { text = codes "https://op/t" })
      (record { text = codes "app:back" }) (record { text = codes "app:bye" }) refl refl refl refl

scan-decode_component_example :
    scan (length (codes "a%2Bb") + 1) (codes "a%2Bb") 0 [] ≡ some (decode_component (codes "a%2Bb"))
scan-decode_component_example = scan-decode_component (codes "a%2Bb")

-- The value of that run.
scan_runs : scan 6 (codes "a%2Bb") 0 [] ≡ some (some (codes "a+b"))
unfolding scan scan_round hex_byte hex_value
scan_runs = refl

scan_cut : scan 6 (codes "a%2") 0 [] ≡ some none
unfolding scan scan_round hex_byte hex_value
scan_cut = refl
