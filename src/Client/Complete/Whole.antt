-- ===== src/Client/Complete/Whole.antt =====
-- A whole completion: callback, store, provider state and token endpoint together.
use oidc4rs.Types.Url.{IssuerUrl}
use oidc4rs.Prelude.{◌≡◌, sym, inl, inr, some, arith, ok_or, Result-cases, >>=-eq-ok, ok, Bytes}
use oidc4rs.Flow.Callback
use oidc4rs.Transport.Store.{KvStore}
use oidc4rs.Error.{from_kv, authorization_response, missing}
use oidc4rs.Client.Complete.{
  Readers, RelyingParty, complete_authorization, take_pending_request, complete_taken,
  complete_authorization_from_pending, TokenOps, Services, HttpRequest, Outcome, HttpResponse,
  Readings, SystemTime, AuthorizationResponse, Instant, Params, PendingAuthRequest, ProviderState,
  key_for, CompleteAuthorization, refresh_metadata_if_stale, parse_authorization_response,
}
use oidc4rs.Client.Complete.Sound.{IsCompleted, complete_with_metadata-IsCompleted}
use oidc4rs.Client.Refresh.Laws.{IsSound, refresh_metadata_if_stale-IsSettled}

-- What a pending request that was taken is read from.
pub take_pending_request-ok :
    (readers : Readers) (kv : KvStore) (at : Instant) (state : Bytes) (s : kv.State)
    (pending : PendingAuthRequest)
    → (take_pending_request readers kv at state s).0 ≡ ok pending
    → (raw : Bytes) × ((kv.take at (key_for state) s).0 ≡ ok (some raw))
      × (readers.read_pending raw ≡ ok pending)
unfolding take_pending_request
take_pending_request-ok readers kv at state s pending h =
    let (raw, found, rest) = >>=-eq-ok (from_kv (kv.take at (key_for state) s).0) _ h in
    let (bytes, present, rest') =
      >>=-eq-ok (ok_or raw (authorization_response (missing "state"))) _ rest in
    (bytes, ground arith, ground arith)

module _ (tokens : TokenOps) (readers : Readers) (rp : RelyingParty) (kv : KvStore) {Cache : Type 0}
    (env : Services Cache) (execute : HttpRequest → Outcome HttpResponse) (r : Readings)
    (now : SystemTime) where
  complete_authorization_from_pending-ok :
      (response : AuthorizationResponse) (pending : PendingAuthRequest) (issuer : IssuerUrl)
      (p : ProviderState Cache) (c : CompleteAuthorization)
      → IsSound env issuer p
      → (complete_authorization_from_pending tokens readers rp env execute r now response pending
          p).0
        ≡ ok c
      → IsSound env issuer
          (complete_authorization_from_pending tokens readers rp env execute r now response pending
            p).1
        × (c.pending ≡ pending)
        × (c.callback_state ≡ Callback.state response)
        × IsCompleted tokens readers rp execute now
            (complete_authorization_from_pending tokens readers rp env execute r now response
              pending p).1.metadata
            response
            c
  unfolding complete_authorization_from_pending
  complete_authorization_from_pending-ok response pending issuer p c w h =
      let settled = refresh_metadata_if_stale-IsSettled env execute r issuer p w in
      let (m, refreshed, completed) = >>=-eq-ok (refresh_metadata_if_stale env execute r p).0 _ h in
      let (kept, bound, done) =
        complete_with_metadata-IsCompleted tokens readers rp execute now response pending m c
          completed in
      (settled.sound, kept, bound, rw (sym (rw refreshed at settled.returned)) done)

  -- An authorization that a client of an issuer completes comes of a callback that parses, of the
  -- value that the store gave up for its state, and of the answer to a token request that was
  -- authorized under a valid document of that issuer, which is then the client's.
  pub complete_authorization-IsCompleted :
      (form_parse : Bytes → Params) (at : Instant) (query : Bytes) (issuer : IssuerUrl)
      (p : ProviderState Cache) (s : kv.State) (c : CompleteAuthorization)
      → IsSound env issuer p
      → (complete_authorization tokens readers rp kv env form_parse execute r at now query p s).0
        ≡ ok c
      → (response : AuthorizationResponse) × (raw : Bytes) × (parse_authorization_response
            form_parse query
          ≡ ok response)
        × ((kv.take at (key_for (Callback.state response)) s).0 ≡ ok (some raw))
        × (readers.read_pending raw ≡ ok c.pending)
        × (c.callback_state ≡ Callback.state response)
        × IsSound env issuer
            (complete_authorization tokens readers rp kv env form_parse execute r at now query p
              s).1
        × IsCompleted tokens readers rp execute now
            (complete_authorization tokens readers rp kv env form_parse execute r at now query p
              s).1.metadata
            response
            c
  unfolding complete_authorization complete_taken
  complete_authorization-IsCompleted form_parse at query issuer p s c w h =
      elim (Result-cases (parse_authorization_response form_parse query)) [
        | inr (e, refused) ↦ absurd (ground arith)
        | inl (response, parsed) ↦
            elim (Result-cases (take_pending_request readers kv at (Callback.state response) s).0) [
              | inr (e, missed) ↦ absurd (ground arith)
              | inl (pending, taken) ↦
                  let (sound, kept, bound, done) =
                    complete_authorization_from_pending-ok response pending issuer p c w
                      (ground arith) in
                  let (raw, live, decoded) =
                    take_pending_request-ok readers kv at (Callback.state response) s pending
                      taken in
                  (
                    response,
                    raw,
                    parsed,
                    live,
                    ground arith,
                    bound,
                    rw (complete_authorization, parsed, taken) sound,
                    rw (complete_authorization, parsed, taken) done,
                  )
            ]
      ]
