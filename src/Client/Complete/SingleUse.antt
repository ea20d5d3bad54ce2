-- ===== src/Client/Complete/SingleUse.antt =====
-- A pending request serves one completion, whatever comes of it.
use oidc4rs.Prelude.{◌≡◌, refl, none, arith, ok, err, Bytes, eqb_iff}
use oidc4rs.Flow.Callback
use oidc4rs.Transport.Store.{KvStore, IsAtomic}
use oidc4rs.Client.Complete.{
  Readers, RelyingParty, complete_authorization, take_pending_request, complete_taken, TokenOps,
  Instant, Services, Params, key_for, HttpRequest, authorization_response, Outcome, missing,
  HttpResponse, Readings, SystemTime, AuthorizationResponse, ProviderState,
  parse_authorization_response,
}

module _ (tokens : TokenOps) (readers : Readers) (rp : RelyingParty) (kv : KvStore)
    (laws : IsAtomic kv) where
  open laws use {view, Answers, take_ok, take_answers, view-take}

  take_pending_request_absent :
      (at : Instant) (state : Bytes) (s : kv.State)
      → Answers s
      → view at s (key_for state) ≡ none
      → (take_pending_request readers kv at state s).0
        ≡ err (authorization_response (missing "state"))
  unfolding take_pending_request
  take_pending_request_absent at state s w h = ground (arith, take_ok at (key_for state) s w)

  complete_authorization-store :
      {Cache : Type 0} (env : Services Cache) (form_parse : Bytes → Params)
      (execute : HttpRequest → Outcome HttpResponse) (r : Readings) (at : Instant)
      (now : SystemTime) (query : Bytes) (response : AuthorizationResponse)
      (p : ProviderState Cache) (s : kv.State)
      → parse_authorization_response form_parse query ≡ ok response
      → (complete_authorization tokens readers rp kv env form_parse execute r at now query p s).2
        ≡ (kv.take at (key_for (Callback.state response)) s).1
  unfolding complete_authorization take_pending_request
  complete_authorization-store env form_parse execute r at now query response p s h =
      rw (complete_authorization, h) refl

  complete_authorization-absent :
      {Cache : Type 0} (env : Services Cache) (form_parse : Bytes → Params)
      (execute : HttpRequest → Outcome HttpResponse) (r : Readings) (at : Instant)
      (now : SystemTime) (query : Bytes) (response : AuthorizationResponse)
      (p : ProviderState Cache) (s : kv.State)
      → parse_authorization_response form_parse query ≡ ok response
      → Answers s
      → view at s (key_for (Callback.state response)) ≡ none
      → ((complete_authorization tokens readers rp kv env form_parse execute r at now query p s).0
          ≡ err (authorization_response (missing "state")))
        × ((complete_authorization tokens readers rp kv env form_parse execute r at now query p s).1
            ≡ p)
  unfolding complete_authorization complete_taken
  complete_authorization-absent env form_parse execute r at now query response p s h w v =
      let absent = take_pending_request_absent at (Callback.state response) s w v in
      (rw (complete_authorization, h, absent) refl, rw (complete_authorization, h, absent) refl)

  -- Let the store keep its contract, and its backend answer. Once a completion has been tried for a callback that parses, whatever
  -- came of it, a later one with the same state fails for want of the pending request and leaves
  -- the provider state alone, whatever the query, the clocks and the network are then.
  pub complete_authorization_again :
      {Cache : Type 0} (env : Services Cache) (form_parse : Bytes → Params)
      (execute execute' : HttpRequest → Outcome HttpResponse) (r r' : Readings) (at at' : Instant)
      (now now' : SystemTime) (query query' : Bytes) (response response' : AuthorizationResponse)
      (p p' : ProviderState Cache) (s : kv.State)
      → Answers s
      → parse_authorization_response form_parse query ≡ ok response
      → parse_authorization_response form_parse query' ≡ ok response'
      → Callback.state response ≡ Callback.state response'
      → ((complete_authorization tokens readers rp kv env form_parse execute' r' at' now' query' p'
            (complete_authorization tokens readers rp kv env form_parse execute r at now query p
              s).2).0
          ≡ err (authorization_response (missing "state")))
        × ((complete_authorization tokens readers rp kv env form_parse execute' r' at' now' query'
              p'
              (complete_authorization tokens readers rp kv env form_parse execute r at now query p
                s).2).1
            ≡ p')
  complete_authorization_again env form_parse execute execute' r r' at at' now now' query query'
        response response' p p' s w h h' same =
      let used = key_for (Callback.state response) in
      rw (complete_authorization-store env form_parse execute r at now query response p s h) (
        complete_authorization-absent env form_parse execute' r' at' now' query' response' p' _ h'
          (take_answers at used s w)
          (ground (
            arith,
            view-take at at' used (key_for (Callback.state response')) s w,
            eqb_iff used (key_for (Callback.state response')),
          )))
