-- ===== src/Tests/Requests.antt =====
-- Runs of the token requests, of what debug output shows, and of random values.
use oidc4rs.Prelude.{
  ℕ, zero, suc, ◌+◌, ◌*◌, ◌/◌, ◌≡◌, refl, inl, inr, none, some, List, [], ◌∷◌, arith, ok, Bytes,
  codes, eq_ignore_ascii_case, length,
}
use oidc4rs.Tests.Env.{tokens, at_url, pending}
use oidc4rs.Flow.Token.{
  CodeTokenRequest, basic, build_code_request, request_for, code_form, BuiltTokenRequest,
  needs_secret,
}
use oidc4rs.Flow.Token.Build.{build-SecretStaysIn, SecretStaysIn}
use oidc4rs.Transport.Http.{is_sensitive_header, HttpRequest, HttpMethod}
use oidc4rs.Token.Response.{TokenResponse, IdToken}
use oidc4rs.Debug.{debug_hides, debug_pending, debug_token_response, debug_id_token, debug_request}
use oidc4rs.Types.Identifiers.{
  new_random-length, HaveEncodedLengths, new_verifier, new_state, new_nonce,
}

abbrev request : CodeTokenRequest
request = record {
  endpoint = at_url (codes "https://op/token");
  client_id = codes "rp";
  client_secret = some (codes "one");
  code = codes "c";
  redirect_uri = some (codes "https://rp/cb");
  pkce_verifier = none;
  auth_method = some basic;
}

abbrev other_request : CodeTokenRequest
other_request = record request { client_secret = some (codes "two") }

abbrev built : CodeTokenRequest → BuiltTokenRequest
built r = request_for tokens r.endpoint basic r.client_id r.client_secret (code_form tokens r)

is_built : build_code_request tokens request ≡ ok (built request)
unfolding build_code_request needs_secret
is_built = refl

other_is_built : build_code_request tokens other_request ≡ ok (built other_request)
unfolding build_code_request needs_secret
other_is_built = refl

build-SecretStaysIn_example :
    SecretStaysIn basic (built request).http (built other_request).http
    × ((built request).http.url ≡ (built other_request).http.url)
build-SecretStaysIn_example =
    build-SecretStaysIn tokens request (codes "two") (built request) (built other_request) is_built
      other_is_built

abbrev only_none : List Bytes
only_none = codes "none" ∷ []

abbrev shown_request : HttpRequest
shown_request = record {
  method = HttpMethod.get;
  url = codes "https://op/userinfo";
  headers = (codes "Authorization", codes "Bearer one") ∷ (codes "Accept", codes "x") ∷ [];
  body = none;
}

abbrev shown_tokens : TokenResponse
shown_tokens = record {
  access_token = codes "a";
  token_type = codes "Bearer";
  expires_in = none;
  refresh_token = some (codes "r");
  id_token = none;
  scope = none;
}

abbrev shown_id_token : IdToken Bytes
shown_id_token = record {
  raw = codes "h.p.s";
  claims = codes "p";
  header_alg = codes "RS256";
  header_kid = none;
}

abbrev other_headers : List (Bytes × Bytes)
other_headers = (codes "Authorization", codes "Bearer two") ∷ (codes "Accept", codes "x") ∷ []

debug_hides_example :
    (debug_pending (record pending { nonce = codes "m"; pkce_verifier = pending.pkce_verifier })
      ≡ debug_pending pending)
    × (debug_token_response (record shown_tokens {
      access_token = codes "b";
      refresh_token = some (codes "s");
      id_token = none;
    })
        ≡ debug_token_response shown_tokens)
    × (debug_id_token (record shown_id_token { raw = codes "x"; claims = codes "y" })
        ≡ debug_id_token shown_id_token)
    × (debug_request (record shown_request { headers = other_headers; body = none })
        ≡ debug_request shown_request)
unfolding is_sensitive_header eq_ignore_ascii_case
debug_hides_example =
    debug_hides pending shown_tokens shown_id_token shown_request (codes "m") (codes "b")
      (codes "x") pending.pkce_verifier (some (codes "s")) none (codes "y") other_headers none refl
      refl refl (refl, inl refl, (refl, inr refl, tt)) refl

abbrev zeros : ℕ → Bytes
zeros zero = []
zeros (suc n) = 0 ∷ zeros n

length-zeros : (n : ℕ) → length (zeros n) ≡ n
length-zeros zero = refl
length-zeros (suc n) = omega (arith, length-zeros n)

abbrev encode : Bytes → Bytes
encode s = zeros ((length s * 4 + 2) / 3)

abbrev fill : ℕ → ℕ → Bytes
fill call n = zeros n

lengths : HaveEncodedLengths encode fill
lengths = record {
  encode_len = λ s. length-zeros ((length s * 4 + 2) / 3);
  fill_len = λ i n. length-zeros n;
}

new_random-length_example :
    (length (new_verifier encode fill 0).0 ≡ 86)
    × (length (new_state encode fill 0).0 ≡ 43)
    × (length (new_nonce encode fill 0).0 ≡ 43)
new_random-length_example = new_random-length encode fill lengths 0
