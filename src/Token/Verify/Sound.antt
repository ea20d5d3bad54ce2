-- ===== src/Token/Verify/Sound.antt =====
-- The whole of `IdTokenVerifier::verify`.
use oidc4rs.Token.Verify.Checks.{
  AzpHolds, NonceHolds, AtHashHolds, AuthTimeHolds, check_alg_iff, check_azp_claim_iff,
  check_nonce_claim_iff, check_at_hash_claim_iff, check_auth_age_iff,
}
use oidc4rs.Time.{instant_limit}
use oidc4rs.Token.Verify.{
  Primitives, Message, verify_signature_and_claims, SystemTime, IdTokenVerifier, IdToken,
  VerifyContext, AlgorithmIdentifier, is_utf8, id_token_config, verify, jose, resolve_key, is_multi,
  invalid_id_token, check_azp, say, check_nonce, check_at_hash, check_auth_time, check_alg,
  unsupported_algorithm,
}
use oidc4rs.Prelude.{
  ◌<◌, ◌≡◌, ◌↔◌, true, false, Option, some, arith, unwrap_or, Result, ensure, map_err, >>=-eq-ok,
  map_err-eq-ok, ok, Bytes, codes, eq_ignore_ascii_case, In,
}
use oidc4rs.Crypto.{ComparesBytes}

module _ {Claims Key Jws Json : Type 0} (env : Primitives Claims Key Jws Json) where
  open env use {library}

  -- Every condition that SPEC section 5 puts on a token, with the values that meet it.
  pub record IsVerified (select : Option Bytes → Bytes → Result Message (Option Key))
      (now : SystemTime) (v : IdTokenVerifier) (token : IdToken Claims) (ctx : VerifyContext)
      (claims : Claims) : Type 0 where
    pub alg_id : AlgorithmIdentifier
    pub key : Key
    pub jws : Jws
    pub bytes : Bytes
    -- The algorithm.
    pub alg_listed : In token.header_alg v.allowed_algs
    pub alg_signed : eq_ignore_ascii_case token.header_alg (codes "none") ≡ false
    pub alg_known : library.algorithm_id token.header_alg ≡ ok alg_id
    -- The key, for the header's key id and algorithm, and the signature.
    pub key_found : select token.header_kid token.header_alg ≡ ok (some key)
    pub parsed : library.from_compact token.raw ≡ ok jws
    pub genuine : library.verify_signature jws key ≡ ok true
    -- The claims are those of the signed payload.
    pub signed : library.payload jws key ≡ ok bytes
    pub readable : is_utf8 bytes ≡ true
    pub accepted : library.process_to_claims (id_token_config env v ctx) bytes ≡ ok claims
    -- The rules on single claims.
    pub azp_holds :
        AzpHolds
          (library.string_claim claims (codes "azp"))
          (is_multi env (library.audience claims))
          (unwrap_or ctx.client_id v.expected_audience)
    pub nonce_holds : NonceHolds (library.string_claim claims (codes "nonce")) ctx.expected_nonce
    pub at_hash_holds :
        AtHashHolds env
          (library.string_claim claims (codes "at_hash"))
          ctx.access_token
          alg_id
          (library.curve_name key)
    pub auth_time_holds : AuthTimeHolds env now claims ctx.expected_max_age ctx.clock_skew

  signature-ok :
      (v : IdTokenVerifier) (token : IdToken Claims) (key : Key) (ctx : VerifyContext)
      (claims : Claims)
      → verify_signature_and_claims env v token key ctx ≡ ok claims
      → (jws : Jws) × (bytes : Bytes) × (library.from_compact token.raw ≡ ok jws)
        × (library.verify_signature jws key ≡ ok true)
        × (library.payload jws key ≡ ok bytes)
        × (is_utf8 bytes ≡ true)
        × (library.process_to_claims (id_token_config env v ctx) bytes ≡ ok claims)
  unfolding verify_signature_and_claims
  signature-ok v token key ctx claims h =
      let (jws, a, h1) = >>=-eq-ok (map_err jose (library.from_compact token.raw)) _ h in
      let (genuine, b, h2) = >>=-eq-ok (map_err jose (library.verify_signature jws key)) _ h1 in
      let (u, c, h3) =
        >>=-eq-ok (ensure genuine (invalid_id_token (say "JWS signature is invalid"))) _ h2 in
      let (bytes, d, h4) = >>=-eq-ok (map_err jose (library.payload jws key)) _ h3 in
      (
        jws,
        bytes,
        map_err-eq-ok jose _ a,
        map_err-eq-ok jose _ (ground arith),
        map_err-eq-ok jose _ d,
        ground arith,
        map_err-eq-ok invalid_id_token _ (ground arith),
      )

  resolve_key-ok :
      (select : Option Bytes → Bytes → Result Message (Option Key)) (token : IdToken Claims)
      (key : Key)
      → resolve_key env select token ≡ ok key
      → select token.header_kid token.header_alg ≡ ok (some key)
  unfolding resolve_key
  resolve_key-ok select token key h = ground arith

  module _ (select : Option Bytes → Bytes → Result Message (Option Key)) (now : SystemTime)
      (v : IdTokenVerifier) (token : IdToken Claims) (ctx : VerifyContext) (claims : Claims)
      (law : ComparesBytes env.memcmp) (fits : now < instant_limit) where
    verify_complete :
        IsVerified select now v token ctx claims → verify env select now v token ctx ≡ ok claims
    unfolding verify resolve_key verify_signature_and_claims check_azp check_nonce check_at_hash
        check_auth_time
    verify_complete h = rw (
      (check_alg_iff v token.header_alg).1 (h.alg_listed, h.alg_signed),
      h.alg_known,
      h.key_found,
      h.parsed,
      h.genuine,
      h.signed,
      h.readable,
      h.accepted,
      (check_azp_claim_iff env _ _ _).1 h.azp_holds,
      (check_nonce_claim_iff env law _ _).1 h.nonce_holds,
      (check_at_hash_claim_iff env _ _ _ _).1 h.at_hash_holds,
      (check_auth_age_iff env now claims _ _ fits).1 h.auth_time_holds,
    )

    verify_sound :
        verify env select now v token ctx ≡ ok claims → IsVerified select now v token ctx claims
    unfolding verify check_azp check_nonce check_at_hash check_auth_time
    verify_sound h =
        let (u0, alg_ok, h0) = >>=-eq-ok (check_alg v token.header_alg) _ h in
        let (alg_id, known, h1) =
          >>=-eq-ok (map_err unsupported_algorithm (library.algorithm_id token.header_alg)) _ h0 in
        let (key, resolved, h2) = >>=-eq-ok (resolve_key env select token) _ h1 in
        let (claims', processed, h3) =
          >>=-eq-ok (verify_signature_and_claims env v token key ctx) _ h2 in
        let (u1, azp, h4) = >>=-eq-ok (check_azp env claims' ctx v.expected_audience) _ h3 in
        let (u2, nonce, h5) = >>=-eq-ok (check_nonce env claims' ctx) _ h4 in
        let (u3, at_hash, h6) = >>=-eq-ok (check_at_hash env claims' ctx alg_id key) _ h5 in
        let (u4, auth, h7) = >>=-eq-ok (check_auth_time env now claims' ctx) _ h6 in
        let same : claims' ≡ claims = cc in
        let (jws, bytes, parsed, genuine, signed, readable, accepted) =
          signature-ok v token key ctx claims (rw same at processed) in
        let (listed, unsigned) = (check_alg_iff v token.header_alg).0 alg_ok in
        record {
          alg_id = alg_id;
          key = key;
          jws = jws;
          bytes = bytes;
          alg_listed = listed;
          alg_signed = unsigned;
          alg_known = map_err-eq-ok unsupported_algorithm _ known;
          key_found = resolve_key-ok select token key resolved;
          parsed = parsed;
          genuine = genuine;
          signed = signed;
          readable = readable;
          accepted = accepted;
          azp_holds = rw same at ((check_azp_claim_iff env _ _ _).0 azp);
          nonce_holds = rw same at ((check_nonce_claim_iff env law _ _).0 nonce);
          at_hash_holds = rw same at ((check_at_hash_claim_iff env _ _ _ _).0 at_hash);
          auth_time_holds = rw same at ((check_auth_age_iff env now claims' _ _ fits).0 auth);
        }

    -- For a comparison of bytes that keeps its contract and a time that fits the clock, a token is
    -- verified exactly when every condition of `IsVerified` holds; the claims that are returned
    -- are those of the payload that the key signed.
    pub verify_iff :
        (verify env select now v token ctx ≡ ok claims) ↔ IsVerified select now v token ctx claims
    verify_iff = (verify_sound, verify_complete)
