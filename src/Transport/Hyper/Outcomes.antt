-- ===== src/Transport/Hyper/Outcomes.antt =====
-- The outcomes of one exchange over hyper.
use oidc4rs.Prelude.{
  ◌≡◌, refl, sym, ◌∙◌, ◌↔◌, ◌⊎◌, inl, inr, List, [], ◌∷◌, map, unwrap_or, Result-cases, ok, err,
  Bytes,
}
use oidc4rs.Error.{Outcome, OidcError, http, lit, arg, quoted}
use oidc4rs.Transport.Http.{HttpRequest, HttpResponse}
use oidc4rs.Transport.Hyper.{
  Hyper, method_of, convert_header, convert_headers, build_request, header_text, read_response,
  execute,
}

module _ (hyper : Hyper) where
  -- Header by header, the parsed form of a list of headers.
  abbrev pub AreParsed : List (Bytes × Bytes) → List (hyper.HeaderName × hyper.HeaderValue) → Type 0
  AreParsed [] [] = Unit
  AreParsed ((name, value) ∷ headers) ((n, v) ∷ parsed) =
      (hyper.header_name name ≡ ok n) × (hyper.header_value value ≡ ok v) × AreParsed headers parsed
  AreParsed _ _ = ⊥

  -- The error for the first header that has no parsed form.
  pub data Faults : List (Bytes × Bytes) → OidcError → Type 0 where
    bad_name :
        {name value : Bytes} {headers : List (Bytes × Bytes)} (e : Bytes)
        → hyper.header_name name ≡ err e
        → Faults
            ((name, value) ∷ headers)
            (http (lit "invalid header name " ∷ quoted name ∷ lit ": " ∷ arg e ∷ []))
    bad_value :
        {name value : Bytes} {headers : List (Bytes × Bytes)} (n : hyper.HeaderName) (e : Bytes)
        → hyper.header_name name ≡ ok n
        → hyper.header_value value ≡ err e
        → Faults
            ((name, value) ∷ headers)
            (http (lit "invalid header value for " ∷ quoted name ∷ lit ": " ∷ arg e ∷ []))
    later :
        {name value : Bytes} {headers : List (Bytes × Bytes)} {error : OidcError}
        (n : hyper.HeaderName) (v : hyper.HeaderValue)
        → hyper.header_name name ≡ ok n
        → hyper.header_value value ≡ ok v
        → Faults headers error
        → Faults ((name, value) ∷ headers) error

  -- The request with this method, URL, headers and body is the one that goes to hyper.
  pub record Sends (req : HttpRequest) (request : hyper.Request) : Type 0 where
    pub uri : hyper.Uri
    pub headers : List (hyper.HeaderName × hyper.HeaderValue)
    pub parsed_uri : hyper.parse_uri req.url ≡ ok uri
    pub parsed_headers : AreParsed req.headers headers
    pub built :
        hyper.build (method_of hyper req.method) uri headers (unwrap_or req.body []) ≡ ok request

  -- Every way an exchange ends.
  pub data Exchange (req : HttpRequest) : Outcome HttpResponse → Type 0 where
    bad_url :
        (e : Bytes)
        → hyper.parse_uri req.url ≡ err e
        → Exchange req (err (http (lit "invalid request URL: " ∷ arg e ∷ [])))
    bad_header :
        (uri : hyper.Uri) (error : OidcError)
        → hyper.parse_uri req.url ≡ ok uri
        → Faults req.headers error
        → Exchange req (err error)
    not_built :
        (uri : hyper.Uri) (headers : List (hyper.HeaderName × hyper.HeaderValue)) (e : Bytes)
        → hyper.parse_uri req.url ≡ ok uri
        → AreParsed req.headers headers
        → hyper.build (method_of hyper req.method) uri headers (unwrap_or req.body []) ≡ err e
        → Exchange req (err (http (lit "failed to build request: " ∷ arg e ∷ [])))
    unanswered :
        (request : hyper.Request) (e : Bytes)
        → Sends req request
        → hyper.request request ≡ err e
        → Exchange req (err (http (arg e ∷ [])))
    cut_off :
        (request : hyper.Request) (response : hyper.Response) (e : Bytes)
        → Sends req request
        → hyper.request request ≡ ok response
        → hyper.collect response ≡ err e
        → Exchange req (err (http (arg e ∷ [])))
    answered :
        (request : hyper.Request) (response : hyper.Response) (body : Bytes)
        → Sends req request
        → hyper.request request ≡ ok response
        → hyper.collect response ≡ ok body
        → Exchange req (
            ok (record {
              status = hyper.status response;
              headers = map (header_text hyper) (hyper.headers response);
              body = body;
            }))

  convert_headers-AreParsed :
      (headers : List (Bytes × Bytes)) (parsed : List (hyper.HeaderName × hyper.HeaderValue))
      → AreParsed headers parsed
      → convert_headers hyper headers ≡ ok parsed
  unfolding convert_headers convert_header
  convert_headers-AreParsed [] [] h = refl
  convert_headers-AreParsed ((name, value) ∷ headers) ((n, v) ∷ parsed) (a, b, h) =
      rw (a, b, convert_headers-AreParsed headers parsed h) refl
  convert_headers-AreParsed [] (p ∷ parsed) h = elim h [ ]
  convert_headers-AreParsed (p ∷ headers) [] h = elim h [ ]

  convert_headers-Faults :
      {headers : List (Bytes × Bytes)} {error : OidcError}
      → Faults headers error
      → convert_headers hyper headers ≡ err error
  unfolding convert_headers convert_header
  convert_headers-Faults (bad_name e a) = rw a refl
  convert_headers-Faults (bad_value n e a b) = rw (a, b) refl
  convert_headers-Faults (later n v a b h) = rw (a, b, convert_headers-Faults h) refl

  -- Either all headers are parsed, or one is the first that is not.
  convert_headers-cases :
      (headers : List (Bytes × Bytes))
      → ((parsed : List (hyper.HeaderName × hyper.HeaderValue)) × AreParsed headers parsed)
        ⊎ ((error : OidcError) × Faults headers error)
  convert_headers-cases [] = inl ([], tt)
  convert_headers-cases ((name, value) ∷ headers) = elim (Result-cases (hyper.header_name name)) [
    | inr (e, a) ↦ inr (_, bad_name e a)
    | inl (n, a) ↦ elim (Result-cases (hyper.header_value value)) [
      | inr (e, b) ↦ inr (_, bad_value n e a b)
      | inl (v, b) ↦ elim (convert_headers-cases headers) [
        | inl (parsed, h) ↦ inl ((n, v) ∷ parsed, (a, b, h))
        | inr (error, h) ↦ inr (error, later n v a b h)
      ]
    ]
  ]

  build_request-Sends :
      (req : HttpRequest) (request : hyper.Request)
      → Sends req request
      → build_request hyper req ≡ ok request
  unfolding build_request
  build_request-Sends req request s =
      rw (s.parsed_uri, convert_headers-AreParsed req.headers s.headers s.parsed_headers, s.built)
        refl

  execute-Exchange :
      (req : HttpRequest) (o : Outcome HttpResponse) → Exchange req o → execute hyper req ≡ o
  unfolding execute build_request read_response
  execute-Exchange req _ (bad_url e a) = rw a refl
  execute-Exchange req _ (bad_header uri error a f) = rw (a, convert_headers-Faults f) refl
  execute-Exchange req _ (not_built uri headers e a h b) =
      rw (a, convert_headers-AreParsed req.headers headers h, b) refl
  execute-Exchange req _ (unanswered request e s a) = rw (build_request-Sends req request s, a) refl
  execute-Exchange req _ (cut_off request response e s a b) =
      rw (build_request-Sends req request s, a, b) refl
  execute-Exchange req _ (answered request response body s a b) =
      rw (build_request-Sends req request s, a, b) refl

  -- What follows once the request is built.
  Sends-Exchange :
      (req : HttpRequest) (request : hyper.Request)
      → Sends req request
      → (o : Outcome HttpResponse) × Exchange req o
  Sends-Exchange req request s = elim (Result-cases (hyper.request request)) [
    | inr (e, a) ↦ (_, unanswered request e s a)
    | inl (response, a) ↦ elim (Result-cases (hyper.collect response)) [
      | inr (e, b) ↦ (_, cut_off request response e s a b)
      | inl (body, b) ↦ (_, answered request response body s a b)
    ]
  ]

  Exchange-total : (req : HttpRequest) → (o : Outcome HttpResponse) × Exchange req o
  Exchange-total req = elim (Result-cases (hyper.parse_uri req.url)) [
    | inr (e, a) ↦ (_, bad_url e a)
    | inl (uri, a) ↦ elim (convert_headers-cases req.headers) [
      | inr (error, f) ↦ (_, bad_header uri error a f)
      | inl (headers, h) ↦
          elim (Result-cases
            (hyper.build (method_of hyper req.method) uri headers (unwrap_or req.body []))) [
              | inr (e, b) ↦ (_, not_built uri headers e a h b)
              | inl (request, b) ↦ Sends-Exchange req request (record {
                uri = uri;
                headers = headers;
                parsed_uri = a;
                parsed_headers = h;
                built = b;
              })
            ]
    ]
  ]

  -- An exchange returns an outcome exactly if it ends that way: with the error of the URL, of the
  -- first header that is not valid, of the builder, of the network or of the body; or with the
  -- status, headers and body of the response to the one request that was sent, which has the given
  -- method, URL, headers in their order, and body.
  pub execute_iff :
      (req : HttpRequest) (o : Outcome HttpResponse) → (execute hyper req ≡ o) ↔ Exchange req o
  execute_iff req o = (
    λ h.
        let (o', x) = Exchange-total req in
        let same : o' ≡ o = sym (execute-Exchange req o' x) ∙ h in rw (← same) x,
    execute-Exchange req o,
  )
