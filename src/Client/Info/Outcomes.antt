-- ===== src/Client/Info/Outcomes.antt =====
-- src/client.rs: every way in which `fetch_userinfo` ends.
use oidc4rs.Client.Keys.{first_header}
use oidc4rs.Prelude.{
  ◌≡◌, refl, ◌≢◌, inl, inr, Bool, true, false, Option, none, some, [], ◌∷◌, arith, ◌==◌, Bool-cases,
  Option-cases, unwrap_or, Result, Result-cases, ok, err, Bytes, codes, eqb_iff, eqb-cases,
}
use mathlib.Core.Path.{subst}
use oidc4rs.Error.{
  OidcError, Outcome, Message, user_info_subject_mismatch, invalid_authorization_request,
  invalid_metadata, say, lit, quoted,
}
use oidc4rs.Client.Info.{
  fetch_with_metadata, read_userinfo, read_signed_userinfo, content_type_essence_is,
  userinfo_request, parse_userinfo_error, HttpResponse, Primitives, ProviderMetadata, is_utf8,
  HttpRequest, Url,
}
use oidc4rs.Client.Complete.{Readers, RelyingParty}
use oidc4rs.Token.UserInfo.{
  UserInfo, verify_subject, from_json, verify_userinfo, userinfo_from_metadata,
}

-- The declared type of a body, which is JSON where none is declared.
abbrev pub content_type : HttpResponse → Bytes
content_type resp =
    unwrap_or (first_header (codes "content-type") resp.headers) (codes "application/json")

abbrev pub is_of_type : HttpResponse → Bytes → Bool
is_of_type resp essence = content_type_essence_is (content_type resp) essence

module _ {Claims Key Jws Json : Type 0} (prims : Primitives Claims Key Jws Json) (readers : Readers)
    (read_info : Bytes → Result Message UserInfo)
    (select : Option Bytes → Bytes → Result Message (Option Key)) (rp : RelyingParty)
    (metadata : ProviderMetadata) where
  -- How the reading of a body ends.
  pub data Reads (resp : HttpResponse) : Outcome UserInfo → Type 0 where
    not_text :
        is_of_type resp (codes "application/jwt") ≡ true
        → is_utf8 resp.body ≡ false
        → Reads resp
            (err (invalid_authorization_request (say "userinfo JWT body is not valid UTF-8")))
    signed :
        (o : Outcome UserInfo)
        → is_of_type resp (codes "application/jwt") ≡ true
        → is_utf8 resp.body ≡ true
        → verify_userinfo prims read_info select
            (userinfo_from_metadata metadata rp.client_id)
            resp.body
          ≡ o
        → Reads resp o
    plain :
        (o : Outcome UserInfo)
        → is_of_type resp (codes "application/jwt") ≡ false
        → is_of_type resp (codes "application/json") ≡ true
        → from_json read_info resp.body ≡ o
        → Reads resp o
    other_type :
        is_of_type resp (codes "application/jwt") ≡ false
        → is_of_type resp (codes "application/json") ≡ false
        → Reads resp (
            err (
              invalid_authorization_request
                (lit "unexpected userinfo Content-Type: " ∷ quoted (content_type resp) ∷ [])))

  Reads-read :
      {resp : HttpResponse} {o : Outcome UserInfo}
      → Reads resp o
      → read_userinfo prims readers read_info select rp metadata resp ≡ o
  unfolding read_userinfo read_signed_userinfo
  Reads-read (not_text t u) = rw (read_userinfo, t, read_signed_userinfo, u) refl
  Reads-read (signed o t u h) = rw (read_userinfo, t, read_signed_userinfo, u) h
  Reads-read (plain o t j h) = rw (read_userinfo, t, j) h
  Reads-read (other_type t j) = rw (read_userinfo, t, j) refl

  Reads-total : (resp : HttpResponse) → (o : Outcome UserInfo) × Reads resp o
  Reads-total resp = elim (Bool-cases (is_of_type resp (codes "application/jwt"))) [
    | inl t ↦ elim (Bool-cases (is_utf8 resp.body)) [
      | inl u ↦ (_, signed _ t u refl)
      | inr u ↦ (_, not_text t u)
    ]
    | inr t ↦ elim (Bool-cases (is_of_type resp (codes "application/json"))) [
      | inl j ↦ (_, plain _ t j refl)
      | inr j ↦ (_, other_type t j)
    ]
  ]

  module _ (execute : HttpRequest → Outcome HttpResponse) (access_token subject : Bytes) where
    -- The answer at the endpoint of the document.
    pub record Answers (resp : HttpResponse) : Type 0 where
      pub endpoint : Url
      pub known : metadata.userinfo_endpoint ≡ some endpoint
      pub answered : execute (userinfo_request endpoint access_token) ≡ ok resp

    pub data Fetches : Outcome UserInfo → Type 0 where
      no_endpoint :
          metadata.userinfo_endpoint ≡ none
          → Fetches (err (invalid_metadata (say "provider metadata missing userinfo_endpoint")))
      unanswered :
          (endpoint : Url) (e : OidcError)
          → metadata.userinfo_endpoint ≡ some endpoint
          → execute (userinfo_request endpoint access_token) ≡ err e
          → Fetches (err e)
      rejected :
          (resp : HttpResponse)
          → Answers resp
          → resp.status ≢ 200
          → Fetches (err (parse_userinfo_error readers resp))
      unread :
          (resp : HttpResponse) (e : OidcError)
          → Answers resp
          → resp.status ≡ 200
          → Reads resp (err e)
          → Fetches (err e)
      of_other_subject :
          (resp : HttpResponse) (info : UserInfo)
          → Answers resp
          → resp.status ≡ 200
          → Reads resp (ok info)
          → info.sub ≢ subject
          → Fetches (err user_info_subject_mismatch)
      fetched :
          (resp : HttpResponse) (info : UserInfo)
          → Answers resp
          → resp.status ≡ 200
          → Reads resp (ok info)
          → info.sub ≡ subject
          → Fetches (ok info)

    pub Fetches-fetch :
        {o : Outcome UserInfo}
        → Fetches o
        → fetch_with_metadata prims readers read_info select rp execute access_token subject
            metadata
          ≡ o
    unfolding fetch_with_metadata verify_subject
    Fetches-fetch (no_endpoint h) = rw (fetch_with_metadata, h) refl
    Fetches-fetch (unanswered endpoint e h x) = rw (fetch_with_metadata, h, x) refl
    Fetches-fetch (rejected resp a n) = ground (arith, a.known, a.answered, n)
    Fetches-fetch (unread resp e a s f) = ground (arith, a.known, a.answered, s, Reads-read f)
    Fetches-fetch (of_other_subject resp info a s f n) =
        ground (arith, a.known, a.answered, s, Reads-read f, eqb_iff info.sub subject)
    Fetches-fetch (fetched resp info a s f same) =
        ground (arith, a.known, a.answered, s, Reads-read f, eqb_iff info.sub subject)

    answered-total : (resp : HttpResponse) → Answers resp → (o : Outcome UserInfo) × Fetches o
    answered-total resp a = elim (Bool-cases (resp.status == 200)) [
      | inr other ↦ (_, rejected resp a (λ e. ground arith))
      | inl fine ↦
          let s : resp.status ≡ 200 = ground arith in
          let (o, f) = Reads-total resp in
          elim (Result-cases o) [
            | inr (e, is) ↦ (_, unread resp e a s (subst (Reads resp) is f))
            | inl (info, is) ↦ elim (eqb-cases info.sub subject) [
              | inl same ↦ (_, fetched resp info a s (subst (Reads resp) is f) same)
              | inr other ↦ (_, of_other_subject resp info a s (subst (Reads resp) is f) other)
            ]
          ]
    ]

    pub Fetches-total : (o : Outcome UserInfo) × Fetches o
    Fetches-total = elim (Option-cases metadata.userinfo_endpoint) [
      | inl h ↦ (_, no_endpoint h)
      | inr (endpoint, h) ↦ elim (Result-cases (execute (userinfo_request endpoint access_token))) [
        | inr (e, x) ↦ (_, unanswered endpoint e h x)
        | inl (resp, x) ↦
            answered-total resp (record { endpoint = endpoint; known = h; answered = x })
      ]
    ]
