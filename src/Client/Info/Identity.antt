-- ===== src/Client/Info/Identity.antt =====
-- What the ID token of a completed authorization is, once verified.
use oidc4rs.Time.{instant_limit}
use oidc4rs.Prelude.{
  ◌<◌, ◌≡◌, ap, ◌∙◌, inl, inr, Option, some, arith, Option-cases, Result, ok_or, >>=-eq-ok, ok,
  Bytes, codes,
}
use oidc4rs.Crypto.{ComparesBytes}
use oidc4rs.Client.Complete.{CompleteAuthorization}
use oidc4rs.Client.Info.{verify_id_token, parse_completed, completed_context, Message, SystemTime}
use oidc4rs.Token.Verify.{Primitives, IdTokenVerifier}
use oidc4rs.Token.Verify.Sound.{IsVerified, verify_iff}
use oidc4rs.Token.Response.{IdToken, parse_id_token}

module _ {Claims Key Jws Json : Type 0} (prims : Primitives Claims Key Jws Json)
    (select : Option Bytes → Bytes → Result Message (Option Key)) where
  parse_completed-ok :
      (c : CompleteAuthorization) (token : IdToken Claims)
      → parse_completed prims select c ≡ ok (some token)
      → (raw : Bytes) × (c.token_response.id_token ≡ some raw)
        × (parse_id_token prims.library raw ≡ ok token)
  unfolding parse_completed
  parse_completed-ok c token h = elim (Option-cases c.token_response.id_token) [
    | inl missing ↦ absurd (ground arith)
    | inr (raw, present) ↦ (raw, present, ground arith)
  ]

  -- For a comparison of bytes that keeps its contract and a time that fits the clock, the claims
  -- that are returned for a completed authorization are those of the ID token in its token
  -- response, verified against the maximal age of its pending request, its access token and the
  -- client, and their nonce is that of the pending request.
  pub verify_id_token-IsVerified :
      (now : SystemTime) (c : CompleteAuthorization) (v : IdTokenVerifier) (client_id : Bytes)
      (claims : Claims)
      → ComparesBytes prims.memcmp
      → now < instant_limit
      → verify_id_token prims select now c v client_id ≡ ok claims
      → (raw : Bytes) × (token : IdToken Claims) × (c.token_response.id_token ≡ some raw)
        × (parse_id_token prims.library raw ≡ ok token)
        × IsVerified prims select now v token (completed_context prims select c client_id) claims
        × (prims.library.string_claim claims (codes "nonce") ≡ some c.pending.nonce)
  unfolding verify_id_token
  verify_id_token-IsVerified now c v client_id claims law fits h =
      let (parsed, read, rest) = >>=-eq-ok (parse_completed prims select c) _ h in
      let (token, present, verified) = >>=-eq-ok (ok_or parsed _) _ rest in
      let is_token : parsed ≡ some token = ground arith in
      let (raw, held, decoded) = parse_completed-ok c token (read ∙ ap ok is_token) in
      let checked =
        (verify_iff prims select now v token (completed_context prims select c client_id) claims law
            fits).0
          verified in
      (raw, token, held, decoded, checked, checked.nonce_holds)
