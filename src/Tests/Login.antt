-- ===== src/Tests/Login.antt =====
-- A login from the stored request to the tokens.
use oidc4rs.Client.Provider.{metadata_needs_refresh}
use oidc4rs.Client.Refresh.{refresh_metadata_if_stale}
use oidc4rs.Types.Identifiers.{scope_iter}
use oidc4rs.Prelude.{
  ◌≡◌, refl, ap, Bool, true, none, some, [], arith, Result, ok, codes, split, retain,
}
use oidc4rs.Flow.Callback
use oidc4rs.Error.{KvError}
use oidc4rs.Tests.Env.{
  tokens, readers, rp, services, online, readings, manual_state, document, at_url, pending,
}
use oidc4rs.Tests.Callbacks.{granted_query, granted_params}
use oidc4rs.Tests.Completion.{response, completed, parsed}
use oidc4rs.Transport.Kv.{new, lookup, live_value, Store, put_if_absent}
use oidc4rs.Transport.Kv.Refine.{new-IsSound}
use oidc4rs.Transport.Kv.Atomic.{memory, atomic_memory}
use oidc4rs.Flow.Authorize.{AuthRequestState, to_pending, storage_key, default_ttl}
use oidc4rs.Flow.Token.{
  BuiltTokenRequest, basic, request_for, code_form, needs_secret, from_metadata,
}
use oidc4rs.Flow.Token.Build.{IsComplete}
use oidc4rs.Client.Complete.Sound.{IsCompleted, IsAuthorized, code_request}
use oidc4rs.Client.Complete.{complete_authorization}
use oidc4rs.Client.Complete.Live.{login_completes}

abbrev begun : AuthRequestState
begun = record {
  state = codes "st";
  nonce = codes "no";
  pkce_verifier = some (codes "ver");
  max_age = none;
  redirect_uri = at_url (codes "https://rp/cb");
  scopes = codes "openid";
  authorization_url = at_url (codes "https://op/auth");
}

begun-pending : pending ≡ to_pending 1000 begun
unfolding to_pending scope_iter retain split
begun-pending = refl

abbrev built : BuiltTokenRequest
built =
    request_for tokens document.token_endpoint basic rp.client_id rp.client_secret
      (code_form tokens (code_request rp document basic (codes "c") pending))

is_complete : IsComplete tokens (code_request rp document basic (codes "c") pending)
unfolding needs_secret
is_complete = record {
  secret_known = refl;
  has_code = λ e. cc;
  has_redirect = refl;
  proves_possession = refl;
}

is_authorized : IsAuthorized tokens readers rp 3000 document response pending built
unfolding Callback.issuer from_metadata
is_authorized = record {
  code = codes "c";
  method = basic;
  response_is = refl;
  not_from_future = omega arith;
  not_expired = omega arith;
  issuer_holds = refl;
  method_offered = refl;
  complete = is_complete;
  built_is = refl;
}

is_completed : IsCompleted tokens readers rp online 3000 document response completed
is_completed = record {
  built = built;
  answer = record { status = 200; headers = []; body = [] };
  authorized = is_authorized;
  answered = refl;
  status_is = refl;
  decoded = refl;
}

fresh : (refresh_metadata_if_stale services online readings manual_state).0 ≡ ok document
unfolding refresh_metadata_if_stale metadata_needs_refresh
fresh = refl

abbrev stored : Result KvError Bool × Store
stored = put_if_absent 100 (storage_key begun) (codes "x") default_ttl new

login_completes_example :
    (stored.0 ≡ ok true)
    × ((complete_authorization tokens readers rp memory services granted_params online readings 2000
          3000 granted_query manual_state stored.1).0
        ≡ ok completed)
unfolding lookup live_value Callback.state
login_completes_example =
    login_completes tokens readers rp memory services online readings 3000 atomic_memory
      (λ q. codes "x") begun 1000 100 2000 new granted_params granted_query response document
      manual_state completed new-IsSound refl (omega arith) (omega arith) (omega arith)
      (ap (λ q. ok q) begun-pending) parsed refl fresh is_completed begun-pending refl
