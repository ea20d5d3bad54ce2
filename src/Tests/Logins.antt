-- ===== src/Tests/Logins.antt =====
-- Runs of several callers over one store.
use oidc4rs.Time.{duration_since}
use oidc4rs.Client.Complete.Sound.{code_request}
use oidc4rs.Flow.Authorize.{key_for, validate_created_at}
use oidc4rs.Client.Complete.{
  prepare_token_request, take_pending_request, complete_authorization, validate_pending_request,
  check_response_issuer, code_of, exchange_code_with_metadata, with_pending,
}
use oidc4rs.Flow.Callback
use oidc4rs.Transport.Kv.{sweep, remove, take, put_if_absent, lookup, live_value, new, Store}
use oidc4rs.Flow.Token.{
  basic, BuiltTokenRequest, request_for, code_form, from_metadata, build_code_request,
  new_code_request, with_redirect_uri, with_pkce_verifier, needs_secret,
}
use oidc4rs.Client.Logins.{waiting, holding, ended}
use oidc4rs.Time.{checked_add}
use oidc4rs.Transport.Kv.Atomic.{memory}
use oidc4rs.Client.Complete.Exact.{Completes, complete_authorization_iff}
use oidc4rs.Prelude.{◌≤◌, ◌≡◌, refl, ◌↔◌, false, [], ◌∷◌, ok, Bytes, codes, eqb}
use oidc4rs.Client.Logins.{
  Logins, no_logins, Reached, begin, move, puts, arrives, takes, posts, Posted, holding,
}
use oidc4rs.Client.Logins.Counts.{posted-le-created, posted_for, created_for}
use oidc4rs.Client.Logins.Alone.{complete_authorization-Leaves, Leaves}
use oidc4rs.Tests.Completion.{kept, completed, response, parsed}
use oidc4rs.Tests.Callbacks.{granted_query, granted_params}
use oidc4rs.Tests.Env.{tokens, readers, rp, services, online, readings, manual_state, pending}

abbrev pub built : BuiltTokenRequest
built =
    request_for tokens manual_state.metadata.token_endpoint basic rp.client_id rp.client_secret
      (code_form tokens (code_request rp manual_state.metadata basic (codes "c") pending))

pub prepared :
    prepare_token_request tokens readers rp 3000 manual_state.metadata response pending ≡ ok built
unfolding prepare_token_request validate_pending_request validate_created_at duration_since eqb
    check_response_issuer code_of exchange_code_with_metadata from_metadata build_code_request
    with_pending new_code_request with_redirect_uri with_pkce_verifier needs_secret Callback.state
    Callback.issuer
prepared = refl

-- One login is begun, its callback arrives twice, the first caller takes the request, the second
-- finds none, and the first posts.
abbrev pub emptied : Store
emptied = record { entries = []; poisoned = false }

abbrev pub key : Bytes
key = codes "oidc4rs:pending:st"

abbrev pub begun : Logins
begun = record {
  store = (put_if_absent 1000 key (codes "x") 5000 new).1;
  callers = waiting response ∷ waiting response ∷ [];
  created = (key, codes "x") ∷ [];
  posted = [];
}

begun-Reached : Reached tokens readers rp granted_params begun
unfolding put_if_absent lookup checked_add sweep
begun-Reached =
    move
      (move (move begin (puts 1000 key (codes "x") 5000 no_logins))
        (arrives granted_query response _ parsed))
      (arrives granted_query response _ parsed)

abbrev pub post : Posted
post = record {
  response = response;
  pending = pending;
  metadata = manual_state.metadata;
  now = 3000;
  built = built;
}

abbrev pub over : Logins
over = record {
  store = emptied;
  callers = ended ∷ ended ∷ [];
  created = (key, codes "x") ∷ [];
  posted = post ∷ [];
}

over-Reached : Reached tokens readers rp granted_params over
unfolding put_if_absent lookup take_pending_request take live_value key_for Callback.state eqb
    checked_add sweep remove
over-Reached =
    move
      (move (move begun-Reached (takes 2000 [] (waiting response ∷ []) response begun refl))
        (takes 2500 (holding response pending ∷ []) [] response _ refl))
      (posts 3000 manual_state.metadata [] (ended ∷ []) response pending built _ refl prepared)

posted-le-created_example :
    posted_for (key_for (codes "st")) over.posted ≤ created_for (key_for (codes "st")) over.created
posted-le-created_example =
    posted-le-created tokens readers rp granted_params (codes "st") over over-Reached

complete_authorization-Leaves_example :
    Leaves tokens readers rp granted_params online 2000 begun
      (complete_authorization tokens readers rp memory services granted_params online readings 2000
        3000 granted_query manual_state begun.store).0
      (complete_authorization tokens readers rp memory services granted_params online readings 2000
        3000 granted_query manual_state begun.store).2
complete_authorization-Leaves_example =
    complete_authorization-Leaves tokens readers rp granted_params services online readings 2000
      3000 granted_query manual_state response (waiting response ∷ []) begun parsed refl

-- The completion of a stored login, which empties the store.
complete_authorization_iff_example :
    (complete_authorization tokens readers rp memory services granted_params online readings 2000
        3000 granted_query manual_state kept
      ≡ (ok completed, manual_state, emptied))
    ↔ Completes tokens readers rp memory services granted_params online readings 2000 3000
        granted_query manual_state kept
        (ok completed)
        manual_state
        emptied
complete_authorization_iff_example =
    complete_authorization_iff tokens readers rp memory services granted_params online readings 2000
      3000 granted_query manual_state kept (ok completed) manual_state emptied
