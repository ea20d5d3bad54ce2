-- ===== src/Client/Info.antt =====
-- src/client.rs: the UserInfo request, and the ID-token verification of a completed authorization.
-- `read_info` is serde's reader of a UserInfo document, and `select` what the provider's key cache
-- answers to the one selection of a key that a call makes.
pub mod Sound
pub mod Identity
pub mod Issuer
pub mod Outcomes
pub mod Exact
use oidc4rs.Client.Keys.{first_header}
use oidc4rs.Flow.Callback.{is_utf8}
use oidc4rs.Token.Response.{IdToken, parse_id_token}
use oidc4rs.Client.Provider.{ProviderState}
use oidc4rs.Metadata.Provider.{ProviderMetadata}
use oidc4rs.Time.{SystemTime}
use oidc4rs.Types.Url.{Url}
use oidc4rs.Prelude.{
  Bool, Option, none, some, [], ◌∷◌, ◌++◌, ◌==◌, if◌then◌else◌, unwrap_or, Result, ◌>>=◌, ◌>>◌,
  ensure, ok_or, map_err, ok, err, Bytes, codes, eq_ignore_ascii_case, split_once, trim,
}
use oidc4rs.Error.{
  Outcome, OidcError, user_info, Message, lit, invalid_authorization_request, invalid_metadata,
  jose, say, quoted,
}
use oidc4rs.Error
use oidc4rs.Client.Complete.{Readers, RelyingParty, CompleteAuthorization}
use oidc4rs.Client.Refresh.{Services, Readings, refresh_metadata_if_stale}
use oidc4rs.Token.UserInfo.{
  UserInfo, verify_subject, from_json, verify_userinfo, userinfo_from_metadata,
}
use oidc4rs.Token.Verify.{Primitives, IdTokenVerifier, VerifyContext, verify}
use oidc4rs.Transport.Http.{HttpRequest, HttpResponse, HttpMethod}

-- `parse_userinfo_error`.
unfoldable pub parse_userinfo_error : Readers → HttpResponse → OidcError
parse_userinfo_error readers resp = elim (readers.read_info_error resp.body) [
  | ok (e, description) ↦ user_info resp.status (unwrap_or e (codes "userinfo_error")) description
  | err m ↦ user_info resp.status (codes "invalid_response") none
]

-- `content_type_essence_is`: the part before the first `;`.
unfoldable pub content_type_essence_is : Bytes → Bytes → Bool
content_type_essence_is content_type essence =
    let head : Bytes = elim (split_once b';' content_type) [
      | none ↦ content_type
      | some (h, p) ↦ h
    ] in
    eq_ignore_ascii_case (trim head) essence

abbrev pub userinfo_request : Url → Bytes → HttpRequest
userinfo_request endpoint access_token = record {
  method = HttpMethod.get;
  url = endpoint.text;
  headers =
      (codes "Accept", codes "application/json, application/jwt;q=0.9")
      ∷ (codes "Authorization", codes "Bearer " ++ access_token)
      ∷ [];
  body = none;
}

module _ {Claims Key Jws Json : Type 0} (prims : Primitives Claims Key Jws Json) (readers : Readers)
    (read_info : Bytes → Result Message UserInfo)
    (select : Option Bytes → Bytes → Result Message (Option Key)) (rp : RelyingParty) where
  -- A body of the type `application/jwt`.
  unfoldable pub read_signed_userinfo : ProviderMetadata → Bytes → Outcome UserInfo
  read_signed_userinfo metadata body = do
    ensure (is_utf8 body)
        (invalid_authorization_request (say "userinfo JWT body is not valid UTF-8"))
    verify_userinfo prims read_info select (userinfo_from_metadata metadata rp.client_id) body

  -- The reading of the body, by the content type.
  unfoldable pub read_userinfo : ProviderMetadata → HttpResponse → Outcome UserInfo
  read_userinfo metadata resp =
      let content_type =
        unwrap_or (first_header (codes "content-type") resp.headers) (codes "application/json") in
      if content_type_essence_is content_type (codes "application/jwt")
      then read_signed_userinfo metadata resp.body
      else if content_type_essence_is content_type (codes "application/json")
      then from_json read_info resp.body
      else err (
          invalid_authorization_request
            (lit "unexpected userinfo Content-Type: " ∷ quoted content_type ∷ []))

  -- `fetch_userinfo`, after its refresh.
  unfoldable pub fetch_with_metadata :
      (HttpRequest → Outcome HttpResponse) → Bytes → Bytes → ProviderMetadata → Outcome UserInfo
  fetch_with_metadata execute access_token expected_subject metadata = do
    endpoint ←
        ok_or metadata.userinfo_endpoint
          (invalid_metadata (say "provider metadata missing userinfo_endpoint"))
    resp ← execute (userinfo_request endpoint access_token)
    ensure (resp.status == 200) (parse_userinfo_error readers resp)
    userinfo ← read_userinfo metadata resp
    verify_subject userinfo expected_subject
    ok userinfo

module _ {Claims Key Jws Json : Type 0} (prims : Primitives Claims Key Jws Json)
    (select : Option Bytes → Bytes → Result Message (Option Key)) where
  -- `CompleteAuthorization::parse_id_token`.
  unfoldable pub parse_completed : CompleteAuthorization → Outcome (Option (IdToken Claims))
  parse_completed c = elim c.token_response.id_token [
    | none ↦ ok none
    | some raw ↦ do token ← map_err jose (parse_id_token prims.library raw); ok (some token)
  ]

  -- The context of `verify_id_token`: the nonce and the maximal age of the pending request.
  abbrev pub completed_context : CompleteAuthorization → Bytes → VerifyContext
  completed_context c client_id = record {
    expected_nonce = some c.pending.nonce;
    access_token = some c.token_response.access_token;
    client_id = some client_id;
    clock_skew = none;
    expected_max_age = c.pending.max_age;
  }

  -- `CompleteAuthorization::verify_id_token`.
  unfoldable pub verify_id_token :
      SystemTime → CompleteAuthorization → IdTokenVerifier → Bytes → Outcome Claims
  verify_id_token now c v client_id = do
    parsed ← parse_completed c
    token ← ok_or parsed (invalid_authorization_request (say "no id_token in token_response"))
    verify prims select now v token (completed_context c client_id)

-- `fetch_userinfo`, and the provider state that its refresh leaves; `select_of` is the selection of
-- a key from a key cache.
unfoldable pub fetch_userinfo :
    {Cache Claims Key Jws Json : Type 0}
    → Services Cache
    → Primitives Claims Key Jws Json
    → Readers
    → (Bytes → Result Message UserInfo)
    → (Cache → Option Bytes → Bytes → Result Message (Option Key))
    → RelyingParty
    → (HttpRequest → Outcome HttpResponse)
    → Readings
    → Bytes
    → Bytes
    → ProviderState Cache
    → Outcome UserInfo × ProviderState Cache
fetch_userinfo env prims readers read_info select_of rp execute r access_token expected_subject p =
    let (refreshed, p') = refresh_metadata_if_stale env execute r p in
    (
      refreshed >>= λ m.
          fetch_with_metadata prims readers read_info (select_of p'.jwks) rp execute access_token
            expected_subject p'.metadata,
      p',
    )
