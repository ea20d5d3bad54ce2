-- ===== src/Tests/Env.antt =====
-- A small environment for the tests: every outside function as a concrete one.
use oidc4rs.Time.{nanos_per_sec}
use oidc4rs.Transport.Http.{HttpRequest, HttpResponse}
use oidc4rs.Error.{Message, Outcome, http, jose, say, lit}
use oidc4rs.Prelude.{
  ℕ, ◌*◌, ◌≡◌, refl, true, Option, none, some, [], ◌∷◌, ◌++◌, arith, if◌then◌else◌, is_some, Result,
  ◌>>=◌, map_err, ok, err, Bytes, codes, eqb, eqb_iff,
}
use oidc4rs.Types.Url.{Url, UrlOps, IssuerUrl}
use oidc4rs.Flow.Token.{TokenOps, Form, strip_prefix}
use oidc4rs.Token.Jose.{Jose, rsa_sha256}
use oidc4rs.Token.Verify.{Primitives}
use oidc4rs.Token.Response.{TokenResponse}
use oidc4rs.Token.UserInfo.{UserInfo}
use oidc4rs.Client.Complete.{Readers, RelyingParty}
use oidc4rs.Client.Refresh.{Services, Readings}
use oidc4rs.Client.Provider.{ProviderState}
use oidc4rs.Flow.Authorize.{PendingAuthRequest}
use oidc4rs.Metadata.Provider.{ProviderMetadata}
use oidc4rs.Crypto.{ComparesBytes}

abbrev pub urls : UrlOps
urls = record {
  parse_url = λ s. ok (record { text = s });
  scheme = λ u. codes "https";
  query = λ u. none;
  fragment = λ u. none;
  query_pairs_mut = λ u. record { text = u.text ++ codes "?" };
  append_pair = λ u k v. record { text = u.text ++ (k ++ (b'=' ∷ (v ++ (b'&' ∷ [])))) };
  clear_query = λ u. u;
  can_be_base = λ u. true;
  pop_if_empty = λ u. u;
  push_segment = λ u s. record { text = u.text ++ (b'/' ∷ s) };
}

abbrev pub joined : Form → Bytes
joined [] = []
joined ((k, v) ∷ ps) = k ++ (b'=' ∷ (v ++ (b'&' ∷ joined ps)))

pub joined-empty_name : (v : Bytes) → is_some (strip_prefix b'=' (joined (([], v) ∷ []))) ≡ true
unfolding strip_prefix
joined-empty_name v = refl

abbrev pub tokens : TokenOps
tokens = record { extend_pairs = joined; base64_standard = λ s. s; empty_name = joined-empty_name }

abbrev pub memcmp : Bytes → Bytes → ℕ → ℕ
memcmp a b n = if eqb a b then 0 else 1

pub memcmp-ComparesBytes : ComparesBytes memcmp
memcmp-ComparesBytes a b same = ground (arith, eqb_iff a b)

-- A JWS is its payload, which is its claims; the nonce is the whole text.
abbrev pub library : Jose Bytes Bytes Bytes Bytes
library = record {
  algorithm_id = λ a. ok rsa_sha256;
  algorithm_name = λ a. codes "RS256";
  from_compact = λ s. ok s;
  verify_signature = λ j k. ok true;
  payload = λ j k. ok j;
  malformed_token = λ m. lit "malformed token: " ∷ m;
  unverified_payload = λ j. ok j;
  algorithm = λ j. some (codes "RS256");
  key_id = λ j. none;
  curve_name = λ k. none;
  process_to_claims = λ c p. ok p;
  parse_claims = λ p. ok p;
  string_claim = λ c name. if eqb name (codes "nonce") then some c else none;
  string_array_claim = λ c name. none;
  audience = λ c. none;
  to_json = λ c. c;
  json_value = λ s. ok s;
  json_get = λ j name. none;
  as_u64 = λ j. none;
}

abbrev pub prims : Primitives Bytes Bytes Bytes Bytes
prims = record {
  library = library;
  memcmp = memcmp;
  digests = record { sha256 = λ s. s; sha384 = λ s. s; sha512 = λ s. s };
  base64_url = λ s. s;
}

abbrev pub select : Option Bytes → Bytes → Result Message (Option Bytes)
select kid alg = ok (some (codes "key"))

abbrev pub at_url : Bytes → Url
at_url s = record { text = s }

abbrev pub op : IssuerUrl
op = record { url = at_url (codes "https://op"); serialized = codes "https://op" }

abbrev pub document : ProviderMetadata
document = record {
  issuer = op;
  authorization_endpoint = at_url (codes "https://op/auth");
  token_endpoint = at_url (codes "https://op/token");
  userinfo_endpoint = some (at_url (codes "https://op/info"));
  jwks_uri = at_url (codes "https://op/keys");
  end_session_endpoint = some (at_url (codes "https://op/logout"));
  registration_endpoint = none;
  scopes_supported = none;
  response_types_supported = codes "code" ∷ [];
  subject_types_supported = codes "public" ∷ [];
  id_token_signing_alg_values_supported = codes "RS256" ∷ [];
  grant_types_supported = none;
  token_endpoint_auth_methods_supported = none;
  authorization_response_iss_parameter_supported = true;
  userinfo_signing_alg_values_supported = none;
  extra = [];
}

abbrev pub pending : PendingAuthRequest
pending = record {
  state = codes "st";
  nonce = codes "no";
  pkce_verifier = some (codes "ver");
  max_age = none;
  redirect_uri = some (codes "https://rp/cb");
  scopes = codes "openid" ∷ [];
  created_at = 1000;
}

abbrev pub token_response : TokenResponse
token_response = record {
  access_token = codes "at";
  token_type = codes "Bearer";
  expires_in = none;
  refresh_token = none;
  id_token = none;
  scope = none;
}

abbrev pub info : UserInfo
info = record {
  sub = codes "alice";
  name = none;
  given_name = none;
  family_name = none;
  middle_name = none;
  nickname = none;
  preferred_username = none;
  profile = none;
  picture = none;
  website = none;
  email = none;
  email_verified = none;
  phone_number = none;
  phone_number_verified = none;
  address = none;
  zoneinfo = none;
  locale = none;
  updated_at = none;
  extra = [];
}

abbrev pub readers : Readers
readers = record {
  read_pending = λ s. ok pending;
  read_token = λ s. ok token_response;
  read_token_error = λ s. ok (codes "invalid_grant", none);
  read_info_error = λ s. ok (none, none);
}

abbrev pub rp : RelyingParty
rp = record { client_id = codes "rp"; client_secret = some (codes "secret") }

-- A key cache is the URL that it is for.
abbrev pub services : Services Bytes
services = record {
  urls = urls;
  decode = λ s. ok document;
  http_date = λ s. none;
  jwks_ops = record {
    new_cache = λ url. url;
    keys = λ fetcher url. (map_err jose (fetcher url) >>= λ keys. ok tt);
  };
}

-- A network that answers every request with status 200, and one that fails.
abbrev pub online : HttpRequest → Outcome HttpResponse
online request = ok (record { status = 200; headers = []; body = [] })

abbrev pub offline : HttpRequest → Outcome HttpResponse
offline request = err (http (say "offline"))

abbrev pub readings : Readings
readings = record { checked = 100; rechecked = 100; published = 100; wall = 100; failed = 100 }

-- A client whose snapshot is stale since 50.
abbrev pub stale_state : ProviderState Bytes
stale_state = record {
  metadata = document;
  jwks = codes "https://op/keys";
  refresh_after = some 10;
  stale_until = some 50;
  retry_after = none;
  stale_on_error = true;
  metadata_refresh_interval = some 10;
  metadata_minimum_cache_duration = 5;
  metadata_retain_on_error = 40;
}

-- A client that was made of a document.
abbrev pub manual_state : ProviderState Bytes
manual_state = record {
  metadata = document;
  jwks = codes "https://op/keys";
  refresh_after = none;
  stale_until = none;
  retry_after = none;
  stale_on_error = true;
  metadata_refresh_interval = none;
  metadata_minimum_cache_duration = 60 * nanos_per_sec;
  metadata_retain_on_error = 24 * 60 * 60 * nanos_per_sec;
}
