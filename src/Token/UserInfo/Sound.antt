-- ===== src/Token/UserInfo/Sound.antt =====
-- What a verified UserInfo response is.
use oidc4rs.Metadata.Provider.{any-eqb→In}
use oidc4rs.Token.Response.{IdToken, parse_id_token}
use oidc4rs.Token.UserInfo.{
  UserInfo, UserInfoVerifier, verify_userinfo, userinfo_config, read_signed, resolve_key, is_utf8,
}
use oidc4rs.Error.{Message, jose, unsupported_algorithm, invalid_user_info_jwt, json}
use oidc4rs.Token.Verify.{Primitives}
use oidc4rs.Prelude.{
  ◌≡◌, true, false, not, Option, arith, Result, ensure, map_err, >>=-eq-ok, ensure-eq-ok,
  map_err-eq-ok, ok, Bytes, codes, eqb, eq_ignore_ascii_case, any, In,
}

module _ {Claims Key Jws Json : Type 0} (env : Primitives Claims Key Jws Json)
    (decode : Bytes → Result Message UserInfo)
    (select : Option Bytes → Bytes → Result Message (Option Key)) where
  open env use {library}

  -- The response is the document that an accepted key signed, under an accepted algorithm, with the
  -- issuer and audience that the consumer checks.
  pub record IsSignedInfo (v : UserInfoVerifier) (compact : Bytes) (info : UserInfo) : Type 0 where
    pub token : IdToken Claims
    pub key : Key
    pub jws : Jws
    pub bytes : Bytes
    pub claims : Claims
    pub token_parsed : parse_id_token library compact ≡ ok token
    pub alg_listed : In token.header_alg v.allowed_algs
    pub alg_signed : eq_ignore_ascii_case token.header_alg (codes "none") ≡ false
    pub key_found : resolve_key env select token ≡ ok key
    pub parsed : library.from_compact compact ≡ ok jws
    pub genuine : library.verify_signature jws key ≡ ok true
    pub signed : library.payload jws key ≡ ok bytes
    pub accepted : library.process_to_claims (userinfo_config env decode select v) bytes ≡ ok claims
    pub decoded : decode bytes ≡ ok info

  -- UserInfo that is returned for a signed response is the document that an accepted key signed,
  -- under a listed algorithm other than `none`, whose claims the consumer accepts for the issuer
  -- and the audience.
  pub verify_userinfo-IsSignedInfo :
      (v : UserInfoVerifier) (compact : Bytes) (info : UserInfo)
      → verify_userinfo env decode select v compact ≡ ok info
      → IsSignedInfo v compact info
  unfolding verify_userinfo read_signed
  verify_userinfo-IsSignedInfo v compact info h =
      let (token, p, h0) = >>=-eq-ok (map_err jose (parse_id_token library compact)) _ h in
      let (u0, unsigned, h1) =
        >>=-eq-ok (ensure (not (eq_ignore_ascii_case token.header_alg (codes "none"))) _) _ h0 in
      let (u1, listed, h2) =
        >>=-eq-ok (ensure (any (λ a. eqb a token.header_alg) v.allowed_algs) _) _ h1 in
      let (alg_id, known, h3) =
        >>=-eq-ok (map_err unsupported_algorithm (library.algorithm_id token.header_alg)) _ h2 in
      let (key, found, h4) = >>=-eq-ok (resolve_key env select token) _ h3 in
      let (jws, parsed, h5) = >>=-eq-ok (map_err jose (library.from_compact compact)) _ h4 in
      let (genuine, checked, h6) =
        >>=-eq-ok (map_err jose (library.verify_signature jws key)) _ h5 in
      let (u2, valid, h7) = >>=-eq-ok (ensure genuine _) _ h6 in
      let (bytes, signed, h8) = >>=-eq-ok (map_err jose (library.payload jws key)) _ h7 in
      let (u3, readable, h9) = >>=-eq-ok (ensure (is_utf8 bytes) _) _ h8 in
      let (claims, accepted, h10) =
        >>=-eq-ok
          (map_err invalid_user_info_jwt
            (library.process_to_claims (userinfo_config env decode select v) bytes))
          _ h9 in
      record {
        token = token;
        key = key;
        jws = jws;
        bytes = bytes;
        claims = claims;
        token_parsed = map_err-eq-ok jose _ p;
        alg_listed = any-eqb→In token.header_alg v.allowed_algs (ensure-eq-ok _ _ listed);
        alg_signed = ground (arith, ensure-eq-ok _ _ unsigned);
        key_found = found;
        parsed = map_err-eq-ok jose _ parsed;
        genuine = rw (ensure-eq-ok genuine _ valid) at (map_err-eq-ok jose _ checked);
        signed = map_err-eq-ok jose _ signed;
        accepted = map_err-eq-ok invalid_user_info_jwt _ accepted;
        decoded = map_err-eq-ok json _ h10;
      }
