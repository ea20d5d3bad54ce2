-- ===== src/Tests/Service.antt =====
-- A run of a client with its refreshes and its logins.
use oidc4rs.Tests.Provider.{manual_state_made}
use oidc4rs.Client.Logins.Kept.{IsPosted}
use oidc4rs.Tests.Completion.{response, parsed}
use oidc4rs.Tests.Callbacks.{granted_params, granted_query}
use oidc4rs.Flow.Authorize.{key_for}
use oidc4rs.Client.Refresh.Tasks.Documents.{IsDocumentOf}
use oidc4rs.Client.Complete.{take_pending_request}
use oidc4rs.Client.Provider.{metadata_needs_refresh}
use oidc4rs.Prelude.{◌≡◌, refl, none, [], ◌∷◌, ok, Bytes, codes, eqb, here}
use oidc4rs.Transport.Kv.{take, put_if_absent, lookup, live_value, sweep, remove}
use oidc4rs.Time.{checked_add}
use oidc4rs.Flow.Callback
use oidc4rs.Client.Refresh.Tasks.{Tasks, moved, idle, returned, task, fresh}
use oidc4rs.Client.Refresh.Steps.{from_parts}
use oidc4rs.Client.Logins.{puts, arrives, takes, posts, waiting, holding, ended, no_logins}
use oidc4rs.Tests.Logins.{key, begun, built, prepared, post, over}
use oidc4rs.Tests.Env.{manual_state, document, tokens, op, readers, rp, services, pending}
use oidc4rs.Client.Service.{Service, opened, refreshes, logs_in, posted-ToIssuer}

-- The first task finds the document fresh and returns it.
abbrev asked : Tasks Bytes
asked = record {
  memory = record { provider = manual_state; holder = none };
  place = moved (λ i. idle) 0 (returned (ok manual_state.metadata));
}

asked-Service : Service tokens readers rp granted_params services manual_state asked no_logins
unfolding metadata_needs_refresh
asked-Service = refreshes opened (task 0 _ _ _ (fresh 1500 manual_state none refl))

over-Service : Service tokens readers rp granted_params services manual_state asked over
unfolding put_if_absent lookup take_pending_request take live_value key_for Callback.state eqb
    checked_add sweep remove
over-Service =
    logs_in
      (logs_in
        (logs_in
          (logs_in
            (logs_in (logs_in asked-Service (puts 1000 key (codes "x") 5000 no_logins) tt)
              (arrives granted_query response _ parsed) tt)
            (arrives granted_query response _ parsed) tt)
          (takes 2000 [] (waiting response ∷ []) response begun refl) tt)
        (takes 2500 (holding response pending ∷ []) [] response _ refl) tt)
      (posts 3000 manual_state.metadata [] (ended ∷ []) response pending built _ refl prepared)
      (0, refl)

posted-ToIssuer_example :
    IsDocumentOf op post.metadata
    × (post.built.http.url ≡ post.metadata.token_endpoint.text)
    × IsPosted tokens readers rp granted_params over.created post
posted-ToIssuer_example =
    posted-ToIssuer tokens readers rp granted_params services manual_state op
      (from_parts document manual_state manual_state_made) asked over post over-Service here
