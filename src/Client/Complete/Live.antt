-- ===== src/Client/Complete/Live.antt =====
-- When a completion succeeds, and that a login which was begun can be completed.
use oidc4rs.Time.{instant_limit}
use oidc4rs.Flow.Authorize.{storage_key, key_for, AuthRequestState, default_ttl, to_pending}
use oidc4rs.Transport.Store.{IsAtomic}
use oidc4rs.Flow.Token.Build.{build_code_request_iff}
use oidc4rs.Flow.Token.{request_for}
use oidc4rs.Prelude.{
  ◌+◌, ◌≤◌, ◌<◌, ◌≡◌, refl, sym, ap, ◌∙◌, true, Option, none, some, arith, ok, Bytes, eqb_iff,
}
use oidc4rs.Flow.Callback
use oidc4rs.Client.Complete.{
  Readers, RelyingParty, complete_with_metadata, prepare_token_request, post_token_request,
  exchange_code_with_metadata, code_of, AuthorizationResponse, TokenOps, success, SystemTime,
  HttpRequest, ProviderMetadata, Outcome, PendingAuthRequest, HttpResponse, BuiltTokenRequest,
  CompleteAuthorization, HttpMethod, KvStore, Services, Readings, complete_authorization,
  complete_taken, complete_authorization_from_pending, key_for, take_pending_request, Params,
  Instant, ProviderState, parse_authorization_response, refresh_metadata_if_stale,
}
use oidc4rs.Client.Complete.Sound.{
  IsAuthorized, IsCompleted, check_response_issuer_iff, validate_pending_request_iff,
  with_pending-eq, code_request,
}

pub code_of-success :
    (response : AuthorizationResponse) (state code st : Bytes) (iss : Option Bytes)
    → response ≡ success code st iss
    → (code_of response state ≡ ok code) × (Callback.state response ≡ st)
unfolding code_of Callback.state
code_of-success response state code st iss e = (rw e refl, rw e refl)

module _ (tokens : TokenOps) (readers : Readers) (rp : RelyingParty) where
  -- What is authorized is prepared.
  pub IsAuthorized-prepare :
      (now : SystemTime) (metadata : ProviderMetadata) (response : AuthorizationResponse)
      (pending : PendingAuthRequest) (built : BuiltTokenRequest)
      → IsAuthorized tokens readers rp now metadata response pending built
      → prepare_token_request tokens readers rp now metadata response pending ≡ ok built
  unfolding prepare_token_request exchange_code_with_metadata
  IsAuthorized-prepare now metadata response pending built a =
      let (found, bound) =
        code_of-success response (Callback.state response) a.code pending.state _ a.response_is in
      rw
        (
          prepare_token_request,
          (validate_pending_request_iff pending (Callback.state response) now).1
              (sym bound, a.not_from_future, a.not_expired),
          (check_response_issuer_iff metadata (Callback.issuer response)).1 a.issuer_holds,
          found,
          exchange_code_with_metadata,
          a.method_offered,
          with_pending-eq rp metadata a.method a.code pending,
          (build_code_request_iff tokens (code_request rp metadata a.method a.code pending) built).1
              (a.complete, a.built_is),
        )
        refl

  -- What is authorized is posted as it was built.
  pub IsAuthorized-posts :
      (now : SystemTime) (metadata : ProviderMetadata) (response : AuthorizationResponse)
      (pending : PendingAuthRequest) (built : BuiltTokenRequest)
      → IsAuthorized tokens readers rp now metadata response pending built
      → built.http ≡ record {
        method = HttpMethod.post;
        url = built.http.url;
        headers = built.http.headers;
        body = built.http.body;
      }
  unfolding request_for
  IsAuthorized-posts now metadata response pending built a =
      let posts : built.http.method ≡ HttpMethod.post = rw a.built_is refl in ground arith

  module _ (execute : HttpRequest → Outcome HttpResponse) (now : SystemTime) where
    pub IsCompleted-complete :
        (metadata : ProviderMetadata) (response : AuthorizationResponse) (c : CompleteAuthorization)
        → IsCompleted tokens readers rp execute now metadata response c
        → c.callback_state ≡ Callback.state response
        → complete_with_metadata tokens readers rp execute now response c.pending metadata ≡ ok c
    unfolding complete_with_metadata post_token_request
    IsCompleted-complete metadata response c d bound =
        let prepared = IsAuthorized-prepare now metadata response c.pending d.built d.authorized in
        let same = IsAuthorized-posts now metadata response c.pending d.built d.authorized in
        rw (prepared) (ground (arith, d.answered, d.status_is, d.decoded))

module _ (tokens : TokenOps) (readers : Readers) (rp : RelyingParty) (kv : KvStore) {Cache : Type 0}
    (env : Services Cache) (execute : HttpRequest → Outcome HttpResponse) (r : Readings)
    (now : SystemTime) where
  -- A completion returns what the authorization, the answer and the token response make of it,
  -- whenever the callback parses, the store gives up the pending request, and the refresh returns.
  complete_authorization_succeeds :
      (form_parse : Bytes → Params) (at : Instant) (query raw : Bytes)
      (response : AuthorizationResponse) (metadata : ProviderMetadata) (p : ProviderState Cache)
      (s : kv.State) (c : CompleteAuthorization)
      → parse_authorization_response form_parse query ≡ ok response
      → (kv.take at (key_for (Callback.state response)) s).0 ≡ ok (some raw)
      → readers.read_pending raw ≡ ok c.pending
      → (refresh_metadata_if_stale env execute r p).0 ≡ ok metadata
      → IsCompleted tokens readers rp execute now metadata response c
      → c.callback_state ≡ Callback.state response
      → (complete_authorization tokens readers rp kv env form_parse execute r at now query p s).0
        ≡ ok c
  unfolding complete_authorization complete_taken complete_authorization_from_pending
      take_pending_request
  complete_authorization_succeeds form_parse at query raw response metadata p s c parsed taken read
        refreshed d bound =
      rw
        (
          complete_authorization, parsed, take_pending_request, taken, read,
          complete_authorization_from_pending, refreshed,
        )
        (IsCompleted-complete tokens readers rp execute now metadata response c d bound)

  module _ (laws : IsAtomic kv) (write_pending : PendingAuthRequest → Bytes) where
    open laws use {view, Answers, take_ok, put_answers, put_vacant}

    -- A login that was begun is completed. Let a pending request be stored under a free key of a
    -- store that keeps its contract and answers, as text that reads back to it. Then a callback with
    -- its state that arrives before the store lets the entry expire gets the completed
    -- authorization, if the metadata can be had, the token request is authorized under it, and the
    -- provider answers that request with tokens.
    pub login_completes :
        (a : AuthRequestState) (created : SystemTime) (began at : Instant) (s : kv.State)
        (form_parse : Bytes → Params) (query : Bytes) (response : AuthorizationResponse)
        (metadata : ProviderMetadata) (p : ProviderState Cache) (c : CompleteAuthorization)
        → Answers s
        → view began s (storage_key a) ≡ none
        → began + default_ttl < instant_limit
        → began ≤ at
        → at < began + default_ttl
        → readers.read_pending (write_pending (to_pending created a)) ≡ ok (to_pending created a)
        → parse_authorization_response form_parse query ≡ ok response
        → Callback.state response ≡ a.state
        → (refresh_metadata_if_stale env execute r p).0 ≡ ok metadata
        → IsCompleted tokens readers rp execute now metadata response c
        → c.pending ≡ to_pending created a
        → c.callback_state ≡ a.state
        → let stored =
            kv.put_if_absent began
              (storage_key a)
              (write_pending (to_pending created a))
              default_ttl
              s in
          (stored.0 ≡ ok true)
          × ((complete_authorization tokens readers rp kv env form_parse execute r at now query p
                stored.1).0
              ≡ ok c)
    unfolding storage_key key_for
    login_completes a created began at s form_parse query response metadata p c answers free fits
          after before written parsed bound refreshed d kept named =
        let raw = write_pending (to_pending created a) in
        let key = storage_key a in
        let (created_it, seen) =
          put_vacant began at key raw default_ttl s key answers (omega arith) fits free after in
        let live : view at (kv.put_if_absent began key raw default_ttl s).1
              (key_for (Callback.state response))
            ≡ some raw =
          ap (λ st. view at (kv.put_if_absent began key raw default_ttl s).1 (key_for st)) bound
          ∙ (seen ∙ ground (arith, eqb_iff key key)) in
        (
          created_it,
          complete_authorization_succeeds form_parse at query raw response metadata p _ c parsed
              (take_ok at (key_for (Callback.state response)) _
                  (put_answers began key raw default_ttl s answers)
                ∙ ap (λ o. ok o) live)
              (written ∙ ap (λ q. ok q) (sym kept)) refreshed d (named ∙ sym bound),
        )
