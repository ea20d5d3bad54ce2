-- ===== src/Tests/Completion.antt =====
-- Runs of the completion of an authorization and of the UserInfo request.
use oidc4rs.Client.Keys.{first_header}
use oidc4rs.Crypto.{ct_equals}
use oidc4rs.Token.Response.{parse_id_token}
use oidc4rs.Token.Verify.{
  IdTokenVerifier, verify, check_alg, resolve_key, verify_signature_and_claims, check_azp,
  check_azp_claim, check_nonce, check_nonce_claim, check_at_hash, check_at_hash_claim,
  check_auth_time, check_auth_age,
}
use oidc4rs.Time.{duration_since}
use oidc4rs.Client.Refresh.{refresh_metadata_if_stale}
use oidc4rs.Flow.Authorize.{key_for, validate_created_at}
use oidc4rs.Client.Provider.{ProviderState, metadata_needs_refresh}
use oidc4rs.Transport.Kv.Atomic.{memory, atomic_memory}
use oidc4rs.Types.Url.{Url}
use oidc4rs.Error.{Message, Outcome, authorization_response, missing}
use oidc4rs.Transport.Http.{HttpRequest, HttpResponse}
use oidc4rs.Prelude.{
  ◌≡◌, refl, ◌↔◌, false, Option, some, [], ◌∷◌, Result, ok, err, Bytes, codes, eqb,
  eq_ignore_ascii_case, split_once, split_from, split, space_width, reversed_space_width,
  trim_start_from, trim, any, all,
}
use oidc4rs.Flow.Callback
use oidc4rs.Token.UserInfo.{UserInfo, from_json, verify_subject}
use oidc4rs.Transport.Kv.{take, live_value}
use oidc4rs.Flow.Token.{
  from_metadata, build_code_request, new_code_request, with_redirect_uri, with_pkce_verifier,
  needs_secret,
}
use oidc4rs.Tests.Env.{
  tokens, readers, rp, services, online, offline, readings, manual_state, op, pending,
  token_response, prims, select, info,
}
use oidc4rs.Tests.Callbacks.{granted_query, granted_params}
use oidc4rs.Tests.Provider.{manual_state-IsSound}
use oidc4rs.Flow.Callback.{
  AuthorizationResponse, success, parse_authorization_response, utf8_from, utf8_tail,
}
use oidc4rs.Client.Complete.{
  CompleteAuthorization, complete_authorization, take_pending_request, complete_taken,
  complete_authorization_from_pending, complete_with_metadata, prepare_token_request,
  validate_pending_request, check_response_issuer, code_of, exchange_code_with_metadata,
  with_pending, post_token_request,
}
use oidc4rs.Client.Complete.Sound.{IsCompleted}
use oidc4rs.Client.Complete.Whole.{complete_authorization-IsCompleted}
use oidc4rs.Client.Complete.SingleUse.{complete_authorization_again}
use oidc4rs.Client.Refresh.Laws as ClientLaws
use oidc4rs.Client.Info.{
  verify_id_token, fetch_userinfo, userinfo_request, fetch_with_metadata, read_userinfo,
  content_type_essence_is, parse_completed,
}
use oidc4rs.Client.Info.Exact.{Asks, fetch_userinfo_iff}
use oidc4rs.Prelude.{
  ◌≡◌, refl, ◌↔◌, false, Option, some, [], ◌∷◌, Result, ok, err, Bytes, codes, eqb,
  eq_ignore_ascii_case, split_once, split_from, split, space_width, reversed_space_width,
  trim_start_from, trim, any, all,
}
use oidc4rs.Client.Info.Sound.{fetch_userinfo-IsRead, IsRead}
use oidc4rs.Transport.Kv.{Store, lookup}
use oidc4rs.Transport.Kv.Laws as StoreLaws

abbrev pub kept : Store
kept = record {
  entries = (codes "oidc4rs:pending:st", record { value = codes "x"; expires_at = 5000 }) ∷ [];
  poisoned = false;
}

kept-IsSound : StoreLaws.IsSound kept
unfolding lookup
kept-IsSound = record { unique = (refl, tt); usable = refl }

abbrev pub response : AuthorizationResponse
response = success (codes "c") (codes "st") (some (codes "https://op"))

pub parsed : parse_authorization_response granted_params granted_query ≡ ok response
unfolding parse_authorization_response Callback.validate_form_encoding Callback.validate_fields
    split split_from Callback.validate_encoded_component Callback.decode_component split_once
    Callback.utf8_from Callback.utf8_tail Callback.find_duplicate any eqb Callback.classify
    Callback.classify_given Callback.parameter Callback.code_response Callback.validate_vschar
    Callback.validate_chars Callback.hex_value all
parsed = refl

abbrev pub completed : CompleteAuthorization
completed = record {
  token_response = token_response;
  pending = pending;
  callback_state = codes "st";
}

abbrev run :
    (HttpRequest → Outcome HttpResponse)
    → Store
    → Outcome CompleteAuthorization × ProviderState Bytes × Store
run execute s =
    complete_authorization tokens readers rp memory services granted_params execute readings 2000
      3000 granted_query manual_state s

completes : (run online kept).0 ≡ ok completed
unfolding take_pending_request take lookup live_value key_for complete_taken
    complete_authorization_from_pending refresh_metadata_if_stale metadata_needs_refresh
    complete_with_metadata prepare_token_request validate_pending_request validate_created_at
    duration_since eqb check_response_issuer code_of exchange_code_with_metadata from_metadata
    build_code_request with_pending new_code_request with_redirect_uri with_pkce_verifier
    needs_secret post_token_request Callback.state Callback.issuer complete_authorization
completes = rw (complete_authorization, parsed) refl

complete_authorization-IsCompleted_example :
    (r : AuthorizationResponse) × (raw : Bytes) × (parse_authorization_response granted_params
        granted_query
      ≡ ok r)
    × ((take 2000 (key_for (Callback.state r)) kept).0 ≡ ok (some raw))
    × (readers.read_pending raw ≡ ok pending)
    × (codes "st" ≡ Callback.state r)
    × ClientLaws.IsSound services op (run online kept).1
    × IsCompleted tokens readers rp online 3000 (run online kept).1.metadata r completed
complete_authorization-IsCompleted_example =
    complete_authorization-IsCompleted tokens readers rp memory services online readings 3000
      granted_params 2000 granted_query op manual_state kept completed manual_state-IsSound
      completes

complete_authorization_again_example :
    ((run online (run offline kept).2).0 ≡ err (authorization_response (missing "state")))
    × ((run online (run offline kept).2).1 ≡ manual_state)
complete_authorization_again_example =
    complete_authorization_again tokens readers rp memory atomic_memory services granted_params
      offline online readings readings 2000 2000 3000 3000 granted_query granted_query response
      response manual_state manual_state kept kept-IsSound parsed parsed refl

abbrev read_info : Bytes → Result Message UserInfo
read_info bytes = ok info

abbrev select_of : Bytes → Option Bytes → Bytes → Result Message (Option Bytes)
select_of cache kid alg = select kid alg

fetches :
    fetch_userinfo services prims readers read_info select_of rp online readings
      (codes "at")
      (codes "alice")
      manual_state
    ≡ (ok info, manual_state)
unfolding fetch_userinfo refresh_metadata_if_stale metadata_needs_refresh fetch_with_metadata
    read_userinfo content_type_essence_is split_once trim trim_start_from space_width
    reversed_space_width eq_ignore_ascii_case first_header from_json verify_subject eqb
fetches = refl

fetch_userinfo-IsRead_example :
    (info.sub ≡ codes "alice")
    × ClientLaws.IsSound services op manual_state
    × ((endpoint : Url) × (resp : HttpResponse) × (manual_state.metadata.userinfo_endpoint
          ≡ some endpoint)
        × (online (userinfo_request endpoint (codes "at")) ≡ ok resp)
        × (resp.status ≡ 200)
        × IsRead prims readers read_info
            (select_of manual_state.jwks)
            rp
            manual_state.metadata
            resp
            info)
fetch_userinfo-IsRead_example =
    fetch_userinfo-IsRead services prims readers read_info select_of rp online readings (codes "at")
      (codes "alice") op manual_state manual_state info manual_state-IsSound fetches

fetch_userinfo_iff_example :
    (fetch_userinfo services prims readers read_info select_of rp online readings
        (codes "at")
        (codes "alice")
        manual_state
      ≡ (ok info, manual_state))
    ↔ Asks services prims readers read_info select_of rp online readings
        (codes "at")
        (codes "alice")
        manual_state
        (ok info)
        manual_state
fetch_userinfo_iff_example =
    fetch_userinfo_iff services prims readers read_info select_of rp online readings (codes "at")
      (codes "alice") manual_state (ok info) manual_state

-- A completion whose ID token is the text of the nonce.
abbrev pub with_token : CompleteAuthorization
with_token = record completed {
  token_response = record token_response { id_token = some (codes "no") };
}

abbrev verifier : IdTokenVerifier
verifier = record {
  expected_issuer = codes "https://op";
  expected_audience = codes "rp";
  allowed_algs = codes "RS256" ∷ [];
}

token_verified :
    verify_id_token prims select 3000 with_token verifier (codes "rp") ≡ ok (codes "no")
unfolding verify_id_token parse_completed parse_id_token utf8_from utf8_tail verify check_alg
    eq_ignore_ascii_case any eqb resolve_key verify_signature_and_claims check_azp check_azp_claim
    check_nonce check_nonce_claim ct_equals check_at_hash check_at_hash_claim check_auth_time
    check_auth_age
token_verified = refl
