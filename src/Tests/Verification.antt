-- ===== src/Tests/Verification.antt =====
-- Runs of the verification of ID tokens and signed UserInfo.
use oidc4rs.Crypto.{ct_equals}
use oidc4rs.Prelude.{
  ◌≡◌, refl, ◌↔◌, none, some, arith, Result, ok, err, Bytes, codes, eqb, eq_ignore_ascii_case, any,
  retain,
}
use oidc4rs.Error.{invalid_id_token, say}
use oidc4rs.Token.Verify.Faults.Order.{Fails}
use oidc4rs.Token.Verify.Faults.Exact.{verify-eq-err_iff}
use oidc4rs.Flow.Callback.{utf8_from, utf8_tail}
use oidc4rs.Error.{Message}
use oidc4rs.Prelude.{
  ◌≡◌, refl, ◌↔◌, none, some, arith, Result, ok, err, Bytes, codes, eqb, eq_ignore_ascii_case, any,
  retain,
}
use oidc4rs.Tests.Env.{prims, select, memcmp-ComparesBytes, document, info}
use oidc4rs.Token.Verify
use oidc4rs.Token.Verify.{IdTokenVerifier, VerifyContext, verify, resolve_key}
use oidc4rs.Token.Verify.Sound.{IsVerified, verify_iff}
use oidc4rs.Token.UserInfo.{
  UserInfo, verify_userinfo, userinfo_from_metadata, read_signed, userinfo_algs,
}
use oidc4rs.Token.UserInfo.Sound.{IsSignedInfo, verify_userinfo-IsSignedInfo}
use oidc4rs.Token.Response.{IdToken, parse_id_token}

abbrev verifier : IdTokenVerifier
verifier = Verify.from_metadata document (codes "rp")

abbrev token : IdToken Bytes
token = record {
  raw = codes "no";
  claims = codes "no";
  header_alg = codes "RS256";
  header_kid = none;
}

abbrev context : VerifyContext
context = record {
  expected_nonce = some (codes "no");
  access_token = none;
  client_id = none;
  clock_skew = none;
  expected_max_age = none;
}

verify_iff_example :
    (verify prims select 1000 verifier token context ≡ ok (codes "no"))
    ↔ IsVerified prims select 1000 verifier token context (codes "no")
verify_iff_example =
    verify_iff prims select 1000 verifier token context (codes "no") memcmp-ComparesBytes
      (omega arith)

abbrev read_info : Bytes → Result Message UserInfo
read_info bytes = ok info

signed_info :
    verify_userinfo prims read_info select
      (userinfo_from_metadata document (codes "rp"))
      (codes "jwt")
    ≡ ok info
unfolding verify_userinfo parse_id_token eq_ignore_ascii_case any eqb resolve_key read_signed
    utf8_from utf8_tail userinfo_from_metadata userinfo_algs
signed_info = refl

verify_userinfo-IsSignedInfo_example :
    IsSignedInfo prims read_info select
      (userinfo_from_metadata document (codes "rp"))
      (codes "jwt")
      info
verify_userinfo-IsSignedInfo_example =
    verify_userinfo-IsSignedInfo prims read_info select
      (userinfo_from_metadata document (codes "rp")) (codes "jwt") info signed_info

-- The same token, where another nonce is expected.
abbrev replayed : VerifyContext
replayed = record context { expected_nonce = some (codes "on") }

verify-eq-err_iff_example :
    (verify prims select 1000 verifier token replayed
      ≡ err (invalid_id_token (say "nonce does not match expected")))
    ↔ Fails prims select 1000 verifier token replayed
        (invalid_id_token (say "nonce does not match expected"))
verify-eq-err_iff_example =
    verify-eq-err_iff prims select 1000 verifier token replayed memcmp-ComparesBytes (omega arith)
      (invalid_id_token (say "nonce does not match expected"))

replayed_runs :
    verify prims select 1000 verifier token replayed
    ≡ err (invalid_id_token (say "nonce does not match expected"))
unfolding verify Verify.check_alg eq_ignore_ascii_case any eqb resolve_key
    Verify.verify_signature_and_claims Verify.check_azp Verify.check_azp_claim Verify.check_nonce
    Verify.check_nonce_claim ct_equals Verify.from_metadata retain utf8_from utf8_tail
    Verify.is_forbidden_alg
replayed_runs = refl
