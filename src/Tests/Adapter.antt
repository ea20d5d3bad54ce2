-- ===== src/Tests/Adapter.antt =====
-- Exchanges over a small hyper: texts are their own parsed forms, an empty header value is refused,
-- and the answer is the body of the request.
use oidc4rs.Prelude.{
  ◌≡◌, refl, ◌↔◌, some, List, [], ◌∷◌, ◌++◌, if◌then◌else◌, ok, err, Bytes, codes, is_nil,
}
use oidc4rs.Error.{http, lit, arg, quoted}
use oidc4rs.Transport.Http.{HttpMethod, HttpRequest}
use oidc4rs.Transport.Hyper.{
  Hyper, execute, convert_headers, convert_header, build_request, read_response,
}
use oidc4rs.Transport.Hyper.Outcomes.{Exchange, execute_iff}

abbrev echo : Hyper
echo = record {
  Method = Bytes;
  Uri = Bytes;
  HeaderName = Bytes;
  HeaderValue = Bytes;
  Request = Bytes × List (Bytes × Bytes) × Bytes;
  Response = Bytes × List (Bytes × Bytes) × Bytes;
  method_get = codes "GET";
  method_post = codes "POST";
  parse_uri = λ s. ok s;
  header_name = λ s. ok s;
  header_value = λ s. if is_nil s then err (codes "empty") else ok s;
  build = λ m u hs b. ok (m ++ u, hs, b);
  request = λ r. ok r;
  status = λ r. 200;
  headers = λ (u, hs, b). hs;
  name_text = λ s. s;
  to_str = λ s. some s;
  collect = λ (u, hs, b). ok b;
}

abbrev accepting : HttpRequest
accepting = record {
  method = HttpMethod.post;
  url = codes "https://op/token";
  headers = (codes "accept", codes "text/plain") ∷ (codes "te", codes "gzip") ∷ [];
  body = some (codes "code=c");
}

accepting_answered :
    execute echo accepting
    ≡ ok (record { status = 200; headers = accepting.headers; body = codes "code=c" })
unfolding execute build_request convert_headers convert_header read_response
accepting_answered = refl

execute_iff_example :
    (execute echo accepting
      ≡ ok (record { status = 200; headers = accepting.headers; body = codes "code=c" }))
    ↔ Exchange echo accepting
        (ok (record { status = 200; headers = accepting.headers; body = codes "code=c" }))
execute_iff_example =
    execute_iff echo accepting
      (ok (record { status = 200; headers = accepting.headers; body = codes "code=c" }))

-- The second header is refused, and nothing is sent.
second_refused :
    execute echo
      (record accepting { headers = (codes "accept", codes "text/plain") ∷ (codes "te", []) ∷ [] })
    ≡ err (
        http (
          lit "invalid header value for "
          ∷ quoted (codes "te")
          ∷ lit ": "
          ∷ arg (codes "empty")
          ∷ []))
unfolding execute build_request convert_headers convert_header read_response
second_refused = refl
