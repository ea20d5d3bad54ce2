-- ===== src/Transport/Hyper.antt =====
-- src/transport/hyper_client.rs: the HTTP client over hyper, which is a parameter.
pub mod Outcomes
use oidc4rs.Prelude.{
  ℕ, Option, List, [], ◌∷◌, map, unwrap_or, Result, ◌>>=◌, ◌>>◌, map_err, ok, Bytes,
}
use oidc4rs.Error.{Outcome, http, lit, arg, quoted}
use oidc4rs.Transport.Http.{HttpMethod, HttpRequest, HttpResponse}

-- What the adapter calls of hyper, http and http-body-util. `build` is the request's builder from
-- its start to `body`, and `request` is the network.
pub record Hyper : Type 1 where
  pub Method : Type 0
  pub Uri : Type 0
  pub HeaderName : Type 0
  pub HeaderValue : Type 0
  pub Request : Type 0
  pub Response : Type 0
  pub method_get : Method
  pub method_post : Method
  pub parse_uri : Bytes → Result Bytes Uri
  pub header_name : Bytes → Result Bytes HeaderName
  pub header_value : Bytes → Result Bytes HeaderValue
  pub build : Method → Uri → List (HeaderName × HeaderValue) → Bytes → Result Bytes Request
  pub request : Request → Result Bytes Response
  pub status : Response → ℕ
  pub headers : Response → List (HeaderName × HeaderValue)
  pub name_text : HeaderName → Bytes
  pub to_str : HeaderValue → Option Bytes
  pub collect : Response → Result Bytes Bytes

module _ (hyper : Hyper) where
  abbrev pub method_of : HttpMethod → hyper.Method
  method_of HttpMethod.get = hyper.method_get
  method_of HttpMethod.post = hyper.method_post

  -- The body of the loop over the headers.
  unfoldable pub convert_header : Bytes → Bytes → Outcome (hyper.HeaderName × hyper.HeaderValue)
  convert_header name value = do
    header_name ←
        map_err (λ e. http (lit "invalid header name " ∷ quoted name ∷ lit ": " ∷ arg e ∷ []))
          (hyper.header_name name)
    header_value ←
        map_err (λ e. http (lit "invalid header value for " ∷ quoted name ∷ lit ": " ∷ arg e ∷ []))
          (hyper.header_value value)
    ok (header_name, header_value)

  -- The loop: what it gives to the builder.
  unfoldable pub convert_headers :
      List (Bytes × Bytes) → Outcome (List (hyper.HeaderName × hyper.HeaderValue))
  convert_headers [] = ok []
  convert_headers ((name, value) ∷ headers) = do
    header ← convert_header name value
    rest ← convert_headers headers
    ok (header ∷ rest)

  unfoldable pub build_request : HttpRequest → Outcome hyper.Request
  build_request req = do
    uri ← map_err (λ e. http (lit "invalid request URL: " ∷ arg e ∷ [])) (hyper.parse_uri req.url)
    headers ← convert_headers req.headers
    map_err (λ e. http (lit "failed to build request: " ∷ arg e ∷ []))
        (hyper.build (method_of req.method) uri headers (unwrap_or req.body []))

  -- A header of the response, as text.
  abbrev pub header_text : hyper.HeaderName × hyper.HeaderValue → Bytes × Bytes
  header_text (name, value) = (hyper.name_text name, unwrap_or (hyper.to_str value) [])

  -- What `execute` makes of the response.
  unfoldable pub read_response : hyper.Response → Outcome HttpResponse
  read_response response = do
    body ← map_err (λ e. http (arg e ∷ [])) (hyper.collect response)
    ok (record {
      status = hyper.status response;
      headers = map header_text (hyper.headers response);
      body = body;
    })

  -- `execute`.
  unfoldable pub execute : HttpRequest → Outcome HttpResponse
  execute req = do
    request ← build_request req
    response ← map_err (λ e. http (arg e ∷ [])) (hyper.request request)
    read_response response
