-- ===== src/Client/Info/Sound.antt =====
-- What fetched UserInfo is.
use oidc4rs.Client.Keys.{first_header}
use oidc4rs.Types.Url.{IssuerUrl}
use oidc4rs.Prelude.{
  ◌≡◌, sym, ap, ◌⊎◌, inl, inr, Option, some, arith, ◌==◌, Bool-cases, unwrap_or, Result, ensure,
  ok_or, >>=-eq-ok, ok, Bytes, codes, eqb_iff,
}
use oidc4rs.Token.UserInfo.{UserInfo, from_json, verify_subject}
use oidc4rs.Token.UserInfo.Sound.{IsSignedInfo, verify_userinfo-IsSignedInfo}
use oidc4rs.Client.Complete.{Readers, RelyingParty}
use oidc4rs.Client.Refresh.Laws.{IsSound, refresh_metadata_if_stale-IsSettled}
use oidc4rs.Client.Info.{
  fetch_userinfo, fetch_with_metadata, read_userinfo, read_signed_userinfo, content_type_essence_is,
  userinfo_request, Primitives, Services, Message, ProviderMetadata, from_json, verify_subject,
  HttpRequest, HttpResponse, Outcome, userinfo_from_metadata, Url, Readings, ProviderState,
  refresh_metadata_if_stale,
}

module _ {Claims Key Jws Json : Type 0} (prims : Primitives Claims Key Jws Json) (readers : Readers)
    (read_info : Bytes → Result Message UserInfo)
    (select : Option Bytes → Bytes → Result Message (Option Key)) (rp : RelyingParty) where
  -- A body that is read is either a document in clear JSON or one that a key of the provider signed.
  abbrev pub IsRead : ProviderMetadata → HttpResponse → UserInfo → Type 0
  IsRead metadata resp info =
      (read_info resp.body ≡ ok info)
      ⊎ IsSignedInfo prims read_info select (userinfo_from_metadata metadata rp.client_id) resp.body
          info

  read_userinfo-IsRead :
      (metadata : ProviderMetadata) (resp : HttpResponse) (info : UserInfo)
      → read_userinfo prims readers read_info select rp metadata resp ≡ ok info
      → IsRead metadata resp info
  unfolding read_userinfo read_signed_userinfo from_json
  read_userinfo-IsRead metadata resp info h =
      let content_type =
        unwrap_or (first_header (codes "content-type") resp.headers) (codes "application/json") in
      elim (Bool-cases (content_type_essence_is content_type (codes "application/jwt"))) [
        | inl signed ↦
            inr
              (verify_userinfo-IsSignedInfo prims read_info select _ resp.body info (ground arith))
        | inr other ↦ inl (ground arith)
      ]

  fetch_with_metadata-IsRead :
      (execute : HttpRequest → Outcome HttpResponse) (access_token subject : Bytes)
      (metadata : ProviderMetadata) (info : UserInfo)
      → fetch_with_metadata prims readers read_info select rp execute access_token subject metadata
        ≡ ok info
      → (info.sub ≡ subject)
        × ((endpoint : Url) × (resp : HttpResponse) × (metadata.userinfo_endpoint ≡ some endpoint)
            × (execute (userinfo_request endpoint access_token) ≡ ok resp)
            × (resp.status ≡ 200)
            × IsRead metadata resp info)
  unfolding fetch_with_metadata verify_subject
  fetch_with_metadata-IsRead execute access_token subject metadata info h =
      let (endpoint, known, rest) = >>=-eq-ok (ok_or metadata.userinfo_endpoint _) _ h in
      let (resp, answered, rest) =
        >>=-eq-ok (execute (userinfo_request endpoint access_token)) _ rest in
      let (checked, fine, rest) = >>=-eq-ok (ensure (resp.status == 200) _) _ rest in
      let (found, read, rest) =
        >>=-eq-ok (read_userinfo prims readers read_info select rp metadata resp) _ rest in
      let same : info ≡ found = ground arith in
      (
        ground (arith, eqb_iff found.sub subject),
        (
          endpoint,
          resp,
          ground arith,
          answered,
          ground arith,
          rw same (read_userinfo-IsRead metadata resp found read),
        ),
      )

-- UserInfo that a client of an issuer returns is about the expected subject. It was read from the
-- answer of status 200 to the request at the endpoint of the client's document, which is a valid
-- document of the issuer, and it is plain JSON or was signed by a key that the client's key cache
-- selects.
pub fetch_userinfo-IsRead :
    {Cache Claims Key Jws Json : Type 0} (env : Services Cache)
    (prims : Primitives Claims Key Jws Json) (readers : Readers)
    (read_info : Bytes → Result Message UserInfo)
    (select_of : Cache → Option Bytes → Bytes → Result Message (Option Key)) (rp : RelyingParty)
    (execute : HttpRequest → Outcome HttpResponse) (r : Readings) (access_token subject : Bytes)
    (issuer : IssuerUrl) (p p' : ProviderState Cache) (info : UserInfo)
    → IsSound env issuer p
    → fetch_userinfo env prims readers read_info select_of rp execute r access_token subject p
      ≡ (ok info, p')
    → (info.sub ≡ subject)
      × IsSound env issuer p'
      × ((endpoint : Url) × (resp : HttpResponse) × (p'.metadata.userinfo_endpoint ≡ some endpoint)
          × (execute (userinfo_request endpoint access_token) ≡ ok resp)
          × (resp.status ≡ 200)
          × IsRead prims readers read_info (select_of p'.jwks) rp p'.metadata resp info)
unfolding fetch_userinfo
fetch_userinfo-IsRead env prims readers read_info select_of rp execute r access_token subject issuer
      p p' info w h =
    let settled = refresh_metadata_if_stale-IsSettled env execute r issuer p w in
    let after : p' ≡ (refresh_metadata_if_stale env execute r p).1 = sym (ap (λ x. x.1) h) in
    let (m, refreshed, fetched) =
      >>=-eq-ok (refresh_metadata_if_stale env execute r p).0 _ (ap (λ x. x.0) h) in
    let (about, read) =
      fetch_with_metadata-IsRead prims readers read_info _ rp execute access_token subject _ info
        fetched in
    (about, rw after settled.sound, rw after read)
