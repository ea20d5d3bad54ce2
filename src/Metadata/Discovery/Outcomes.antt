-- ===== src/Metadata/Discovery/Outcomes.antt =====
-- src/metadata/mod.rs: every way in which discovery ends.
use oidc4rs.Prelude.{
  ◌≡◌, refl, sym, ◌∙◌, ◌≢◌, ◌↔◌, ◌⊎◌, inl, inr, Bool, List, [], ◌∷◌, arith, ◌==◌, Bool-cases,
  Result, Result-cases, ok, err, Bytes, codes, eqb, any, In,
}
use oidc4rs.Error
use oidc4rs.Error.{OidcError, Outcome, discovery, invalid_metadata, say, lit, arg, num}
use oidc4rs.Types.Url.{Url, UrlOps, IssuerUrl, issuer_eq, issuer_eq_iff}
use oidc4rs.Transport.Http.{HttpRequest, HttpResponse}
use oidc4rs.Metadata.Provider.{
  ProviderMetadata, validate, IsValid, validate_iff, any-eqb→In, In→any-eqb,
}
use oidc4rs.Metadata.Discovery.{
  DiscoveredMetadata, discovery_url, discovery_request, accept_metadata, discover_with_cache,
}

-- The first rule that a document breaks.
pub data Breaks (m : ProviderMetadata) : OidcError → Type 0 where
  no_response_types :
      m.response_types_supported ≡ []
      → Breaks m (invalid_metadata (say "response_types_supported must not be empty"))
  no_subject_types :
      m.response_types_supported ≢ []
      → m.subject_types_supported ≡ []
      → Breaks m (invalid_metadata (say "subject_types_supported must not be empty"))
  no_rs256 :
      m.response_types_supported ≢ []
      → m.subject_types_supported ≢ []
      → ¬ In (codes "RS256") m.id_token_signing_alg_values_supported
      → Breaks m (invalid_metadata (say "id_token_signing_alg_values_supported must include RS256"))

abbrev has_rs256 : ProviderMetadata → Bool
has_rs256 m = any (λ a. eqb a (codes "RS256")) m.id_token_signing_alg_values_supported

Breaks-validate : {m : ProviderMetadata} {e : OidcError} → Breaks m e → validate m ≡ err e
unfolding validate
Breaks-validate (no_response_types h) = rw h refl
Breaks-validate (no_subject_types r h) = ground (arith, r, h)
Breaks-validate {m} (no_rs256 r s h) = elim (Bool-cases (has_rs256 m)) [
  | inl there_is ↦ absurd (h (any-eqb→In _ _ there_is))
  | inr missing ↦ ground (arith, r, s, missing)
]

list_cases {ℓ} : {A : Type ℓ} (xs : List A) → (xs ≡ []) ⊎ (xs ≢ [])
list_cases [] = inl refl
list_cases (x ∷ xs) = inr (λ e. cc)

validate-cases : (m : ProviderMetadata) → IsValid m ⊎ ((e : OidcError) × Breaks m e)
validate-cases m = elim (list_cases m.response_types_supported) [
  | inl h ↦ inr (_, no_response_types h)
  | inr r ↦ elim (list_cases m.subject_types_supported) [
    | inl h ↦ inr (_, no_subject_types r h)
    | inr s ↦ elim (Bool-cases (has_rs256 m)) [
      | inl there_is ↦ inl (record {
        has_response_types = r;
        has_subject_types = s;
        has_rs256 = any-eqb→In _ _ there_is;
      })
      | inr missing ↦ inr (_, no_rs256 r s (λ x. ground (arith, In→any-eqb x, missing)))
    ]
  ]
]

module _ (ops : UrlOps) (decode : Bytes → Result Bytes ProviderMetadata)
    (execute : HttpRequest → Outcome HttpResponse) (issuer : IssuerUrl) where
  -- What was answered at the URL of the document.
  pub record Answers (url : Url) (resp : HttpResponse) : Type 0 where
    pub located : discovery_url ops decode issuer ≡ ok url
    pub answered : execute (discovery_request ops decode url) ≡ ok resp

  pub data Discovers : Outcome DiscoveredMetadata → Type 0 where
    no_url : (e : OidcError) → discovery_url ops decode issuer ≡ err e → Discovers (err e)
    unanswered :
        (url : Url) (e : OidcError)
        → discovery_url ops decode issuer ≡ ok url
        → execute (discovery_request ops decode url) ≡ err e
        → Discovers (err (discovery (Error.text e)))
    rejected :
        (url : Url) (resp : HttpResponse)
        → Answers url resp
        → resp.status ≢ 200
        → Discovers (
            err (
              discovery
                (lit "metadata HTTP " ∷ num resp.status ∷ lit " from " ∷ arg url.text ∷ [])))
    undecoded :
        (url : Url) (resp : HttpResponse) (e : Bytes)
        → Answers url resp
        → resp.status ≡ 200
        → decode resp.body ≡ err e
        → Discovers (err (invalid_metadata (arg e ∷ [])))
    invalid :
        (url : Url) (resp : HttpResponse) (m : ProviderMetadata) (e : OidcError)
        → Answers url resp
        → resp.status ≡ 200
        → decode resp.body ≡ ok m
        → Breaks m e
        → Discovers (err e)
    of_other_issuer :
        (url : Url) (resp : HttpResponse) (m : ProviderMetadata)
        → Answers url resp
        → resp.status ≡ 200
        → decode resp.body ≡ ok m
        → IsValid m
        → m.issuer ≢ issuer
        → Discovers (
            err (
              invalid_metadata (
                lit "issuer mismatch: expected "
                ∷ arg issuer.serialized
                ∷ lit ", got "
                ∷ arg m.issuer.serialized
                ∷ [])))
    found :
        (url : Url) (resp : HttpResponse) (m : ProviderMetadata)
        → Answers url resp
        → resp.status ≡ 200
        → decode resp.body ≡ ok m
        → IsValid m
        → m.issuer ≡ issuer
        → Discovers (ok (record { metadata = m; response_headers = resp.headers }))

  Discovers-run :
      (o : Outcome DiscoveredMetadata)
      → Discovers o
      → discover_with_cache ops decode execute issuer ≡ o
  unfolding discover_with_cache accept_metadata
  Discovers-run _ (no_url e h) = rw (discover_with_cache, h) refl
  Discovers-run _ (unanswered url e h x) = rw (discover_with_cache, h, x) refl
  Discovers-run _ (rejected url resp a n) =
      rw (discover_with_cache, a.located, a.answered) (ground (arith, n))
  Discovers-run _ (undecoded url resp e a s d) =
      rw (discover_with_cache, a.located, a.answered, s, d) refl
  Discovers-run _ (invalid url resp m e a s d b) =
      rw (discover_with_cache, a.located, a.answered, s, d, Breaks-validate b) refl
  Discovers-run _ (of_other_issuer url resp m a s d v n) =
      rw (discover_with_cache, a.located, a.answered, s, d, (validate_iff m).1 v)
        (ground (arith, issuer_eq_iff m.issuer issuer, n))
  Discovers-run _ (found url resp m a s d v same) =
      rw
        (
          discover_with_cache,
          a.located,
          a.answered,
          s,
          d,
          (validate_iff m).1 v,
          (issuer_eq_iff m.issuer issuer).1 same,
        )
        refl

  accepted :
      (url : Url) (resp : HttpResponse)
      → Answers url resp
      → (o : Outcome DiscoveredMetadata) × Discovers o
  accepted url resp a = elim (Bool-cases (resp.status == 200)) [
    | inr other ↦ (_, rejected url resp a (λ e. ground arith))
    | inl fine ↦
        let s : resp.status ≡ 200 = ground arith in
        elim (Result-cases (decode resp.body)) [
          | inr (e, d) ↦ (_, undecoded url resp e a s d)
          | inl (m, d) ↦ elim (validate-cases m) [
            | inr (e, b) ↦ (_, invalid url resp m e a s d b)
            | inl v ↦ elim (Bool-cases (issuer_eq m.issuer issuer)) [
              | inl same ↦ (_, found url resp m a s d v ((issuer_eq_iff m.issuer issuer).0 same))
              | inr other ↦ (
                _,
                of_other_issuer url resp m a s d v
                    (λ e. ground (arith, issuer_eq_iff m.issuer issuer)),
              )
            ]
          ]
        ]
  ]

  Discovers-total : (o : Outcome DiscoveredMetadata) × Discovers o
  Discovers-total = elim (Result-cases (discovery_url ops decode issuer)) [
    | inr (e, h) ↦ (_, no_url e h)
    | inl (url, h) ↦ elim (Result-cases (execute (discovery_request ops decode url))) [
      | inr (e, x) ↦ (_, unanswered url e h x)
      | inl (resp, x) ↦ accepted url resp (record { located = h; answered = x })
    ]
  ]

  -- Discovery ends with this result exactly if it ends in one of these ways: with the error of the
  -- URL or of the network, of a status other than 200, of a document that cannot be read, of the
  -- first rule that the document breaks, or of another issuer than the one that was asked for; or
  -- with a valid document of that issuer, which is the body of the answer at the issuer's
  -- discovery URL, and with the headers of that answer.
  pub discover_iff :
      (o : Outcome DiscoveredMetadata)
      → (discover_with_cache ops decode execute issuer ≡ o) ↔ Discovers o
  discover_iff o = (
    λ h.
        let (o', x) = Discovers-total in
        let same : o' ≡ o = sym (Discovers-run o' x) ∙ h in rw (← same) x,
    Discovers-run o,
  )
