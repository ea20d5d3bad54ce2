-- ===== src/Tests/Identity.antt =====
-- A login whose ID token is verified by a library that keeps the contract of jose4rs' consumer: its
-- claims are the issuer and the audience that it expects, and the payload as nonce.
use oidc4rs.Prelude.{
  ◌≡◌, refl, true, Option, none, some, List, [], ◌∷◌, arith, if◌then◌else◌, Result, ok, err, Bytes,
  codes, eqb, eq_ignore_ascii_case, any, retain, In, here,
}
use oidc4rs.Error.{lit, Message, say}
use oidc4rs.Token.Jose.{Jose, rsa_sha256}
use oidc4rs.Token.Verify
use oidc4rs.Token.Verify.{
  Primitives, verify, check_alg, resolve_key, verify_signature_and_claims, check_azp,
  check_azp_claim, check_nonce, check_nonce_claim, check_at_hash, check_at_hash_claim,
  check_auth_time, check_auth_age,
}
use oidc4rs.Token.Response.{parse_id_token}
use oidc4rs.Flow.Callback.{utf8_from, utf8_tail}
use oidc4rs.Crypto.{ct_equals}
use oidc4rs.Tests.Env.{rp, op, services, document, manual_state, memcmp, memcmp-ComparesBytes}
use oidc4rs.Tests.Provider.{manual_state_made}
use oidc4rs.Tests.Completion.{with_token}
use oidc4rs.Client.Entry.{verifier, metadata, client_id}
use oidc4rs.Client.Info.{verify_id_token, parse_completed}
use oidc4rs.Client.Info.Issuer.{Consumes, SpeaksOf, Runs-SpeaksOf}
use oidc4rs.Client.Refresh.Steps.{from_parts}
use oidc4rs.Client.Refresh.Tasks.{initial, at_start}

abbrev Claims : Type 0
Claims = Bytes × Bytes × Bytes

abbrev consumed : Bytes → List Bytes → Bytes → Result Message Claims
consumed issuer [] payload = err (say "no audience")
consumed issuer (a ∷ others) payload = ok (issuer, a, payload)

abbrev strict : Jose Claims Bytes Bytes Bytes
strict = record {
  algorithm_id = λ a. ok rsa_sha256;
  algorithm_name = λ a. codes "RS256";
  from_compact = λ s. ok s;
  verify_signature = λ j k. ok true;
  payload = λ j k. ok j;
  malformed_token = λ m. lit "malformed token: " ∷ m;
  unverified_payload = λ j. ok j;
  algorithm = λ j. some (codes "RS256");
  key_id = λ j. none;
  curve_name = λ k. none;
  process_to_claims = λ c p. consumed c.expected_issuer c.expected_audience p;
  parse_claims = λ p. ok ([], [], p);
  string_claim = λ (issuer, audience, nonce) name.
      if eqb name (codes "iss")
      then some issuer
      else if eqb name (codes "nonce")
      then some nonce
      else none;
  string_array_claim = λ c name. none;
  audience = λ (issuer, audience, nonce). some (audience ∷ []);
  to_json = λ c. [];
  json_value = λ s. ok s;
  json_get = λ j name. none;
  as_u64 = λ j. none;
}

consumed-issuer :
    (issuer : Bytes) (audience : List Bytes) (payload : Bytes) (claims : Claims)
    → consumed issuer audience payload ≡ ok claims
    → strict.string_claim claims (codes "iss") ≡ some issuer
unfolding eqb
consumed-issuer issuer [] payload claims h = cc
consumed-issuer issuer (a ∷ others) payload claims h = ground arith

consumed-audience :
    (issuer : Bytes) (audience : List Bytes) (payload : Bytes) (claims : Claims)
    → consumed issuer audience payload ≡ ok claims
    → (aud : List Bytes) × (a : Bytes) × (strict.audience claims ≡ some aud)
      × In a aud
      × In a audience
consumed-audience issuer [] payload claims h = cc
consumed-audience issuer (a ∷ others) payload claims h = (a ∷ [], a, ground arith, here, here)

strict-Consumes : Consumes strict
strict-Consumes = record {
  names_issuer = λ c p claims h. consumed-issuer c.expected_issuer c.expected_audience p claims h;
  names_audience =
      λ c p claims r h. consumed-audience c.expected_issuer c.expected_audience p claims h;
}

abbrev strict_prims : Primitives Claims Bytes Bytes Bytes
strict_prims = record {
  library = strict;
  memcmp = memcmp;
  digests = record { sha256 = λ s. s; sha384 = λ s. s; sha512 = λ s. s };
  base64_url = λ s. s;
}

abbrev one_key : Option Bytes → Bytes → Result Message (Option Bytes)
one_key kid alg = ok (some (codes "k"))

abbrev spoken : Claims
spoken = (op.serialized, codes "rp", codes "no")

spoken_verified :
    verify_id_token strict_prims one_key 3000 with_token (verifier rp manual_state) (codes "rp")
    ≡ ok spoken
unfolding verifier metadata client_id Verify.from_metadata verify_id_token parse_completed
    parse_id_token utf8_from utf8_tail verify check_alg eq_ignore_ascii_case any eqb resolve_key
    verify_signature_and_claims check_azp check_azp_claim check_nonce check_nonce_claim ct_equals
    check_at_hash check_at_hash_claim check_auth_time check_auth_age retain Verify.is_forbidden_alg
spoken_verified = refl

Runs-SpeaksOf_example : SpeaksOf strict_prims one_key op.serialized (codes "rp") (codes "no") spoken
Runs-SpeaksOf_example =
    Runs-SpeaksOf strict_prims one_key services rp op manual_state (initial services manual_state)
      3000 with_token spoken strict-Consumes memcmp-ComparesBytes (omega arith)
      (from_parts document manual_state manual_state_made) at_start spoken_verified
