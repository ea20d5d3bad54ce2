-- ===== src/Client/Complete/Exact.antt =====
-- src/client.rs: every way in which `complete_authorization` ends, with what it leaves of the store
-- and of the provider state.
use oidc4rs.Error.{CallbackError, KvError}
use oidc4rs.Prelude.{
  ◌≡◌, refl, sym, ap, ◌∙◌, ◌↔◌, inl, inr, none, some, Option-cases, Result-cases, ok, err, Bytes,
}
use mathlib.Core.Path.{subst}
use oidc4rs.Flow.Callback
use oidc4rs.Flow.Callback.{AuthorizationResponse}
use oidc4rs.Client.Refresh.Outcomes.{Refreshes, refresh_metadata_if_stale_iff}
use oidc4rs.Client.Complete.Outcomes.{Ends, Ends-complete, Ends-total}
use oidc4rs.Client.Complete.{
  Readers, RelyingParty, complete_authorization, KvStore, TokenOps, Services, Params, HttpRequest,
  Outcome, HttpResponse, Readings, Instant, SystemTime, ProviderState, PendingAuthRequest,
  CompleteAuthorization, complete_taken, parse_authorization_response,
  complete_authorization_from_pending, refresh_metadata_if_stale, key_for, take_pending_request,
  ProviderMetadata, authorization_response, OidcError, missing, Message, json,
}

module _ (tokens : TokenOps) (readers : Readers) (rp : RelyingParty) (kv : KvStore) {Cache : Type 0}
    (env : Services Cache) (form_parse : Bytes → Params)
    (execute : HttpRequest → Outcome HttpResponse) (r : Readings) (at : Instant) (now : SystemTime)
    (query : Bytes) (p : ProviderState Cache) (s : kv.State) where
  -- The callback parses, and the store gives up the pending request of its state.
  pub record Taken (response : AuthorizationResponse) (pending : PendingAuthRequest) (s' : kv.State)
      : Type 0 where
    pub parsed : parse_authorization_response form_parse query ≡ ok response
    pub raw : Bytes
    pub given_up : kv.take at (key_for (Callback.state response)) s ≡ (ok (some raw), s')
    pub read : readers.read_pending raw ≡ ok pending

  pub data Completes : Outcome CompleteAuthorization → ProviderState Cache → kv.State → Type 0 where
    malformed :
        (e : CallbackError)
        → parse_authorization_response form_parse query ≡ err e
        → Completes (err (authorization_response e)) p s
    store_failed :
        (response : AuthorizationResponse) (e : KvError) (s' : kv.State)
        → parse_authorization_response form_parse query ≡ ok response
        → kv.take at (key_for (Callback.state response)) s ≡ (err e, s')
        → Completes (err (OidcError.kv e)) p s'
    unknown_state :
        (response : AuthorizationResponse) (s' : kv.State)
        → parse_authorization_response form_parse query ≡ ok response
        → kv.take at (key_for (Callback.state response)) s ≡ (ok none, s')
        → Completes (err (authorization_response (missing "state"))) p s'
    unreadable_pending :
        (response : AuthorizationResponse) (raw : Bytes) (m : Message) (s' : kv.State)
        → parse_authorization_response form_parse query ≡ ok response
        → kv.take at (key_for (Callback.state response)) s ≡ (ok (some raw), s')
        → readers.read_pending raw ≡ err m
        → Completes (err (json m)) p s'
    not_refreshed :
        (response : AuthorizationResponse) (pending : PendingAuthRequest) (s' : kv.State)
        (e : OidcError) (p' : ProviderState Cache)
        → Taken response pending s'
        → Refreshes env execute r p (err e) p'
        → Completes (err e) p' s'
    refreshed :
        (response : AuthorizationResponse) (pending : PendingAuthRequest) (s' : kv.State)
        (metadata : ProviderMetadata) (p' : ProviderState Cache) (o : Outcome CompleteAuthorization)
        → Taken response pending s'
        → Refreshes env execute r p (ok metadata) p'
        → Ends tokens readers rp execute now metadata response pending o
        → Completes o p' s'

  Completes-run :
      (o : Outcome CompleteAuthorization) (p' : ProviderState Cache) (s' : kv.State)
      → Completes o p' s'
      → complete_authorization tokens readers rp kv env form_parse execute r at now query p s
        ≡ (o, p', s')
  unfolding complete_authorization complete_taken complete_authorization_from_pending
      take_pending_request
  Completes-run _ _ _ (malformed e h) = rw (complete_authorization, h) refl
  Completes-run _ _ _ (store_failed response e s' h t) =
      rw (complete_authorization, h, take_pending_request, t) refl
  Completes-run _ _ _ (unknown_state response s' h t) =
      rw (complete_authorization, h, take_pending_request, t) refl
  Completes-run _ _ _ (unreadable_pending response raw m s' h t u) =
      rw (complete_authorization, h, take_pending_request, t, u) refl
  Completes-run _ _ _ (not_refreshed response pending s' e p' t f) =
      rw
        (
          complete_authorization,
          t.parsed,
          take_pending_request,
          t.given_up,
          t.read,
          complete_authorization_from_pending,
          (refresh_metadata_if_stale_iff env execute r p _ _).1 f,
        )
        refl
  Completes-run _ _ _ (refreshed response pending s' metadata p' o t f x) =
      rw
        (
          complete_authorization,
          t.parsed,
          take_pending_request,
          t.given_up,
          t.read,
          complete_authorization_from_pending,
          (refresh_metadata_if_stale_iff env execute r p _ _).1 f,
          Ends-complete tokens readers rp execute now metadata response pending o x,
        )
        refl

  Taken-total :
      (response : AuthorizationResponse) (pending : PendingAuthRequest) (s' : kv.State)
      → Taken response pending s'
      → (o : Outcome CompleteAuthorization) × (p' : ProviderState Cache) × Completes o p' s'
  Taken-total response pending s' t =
      let run = refresh_metadata_if_stale env execute r p in
      let ends = (refresh_metadata_if_stale_iff env execute r p run.0 run.1).0 refl in
      elim (Result-cases run.0) [
        | inr (e, is) ↦
            let f = subst (λ o. Refreshes env execute r p o run.1) is ends in
            (_, run.1, not_refreshed response pending s' e run.1 t f)
        | inl (metadata, is) ↦
            let f = subst (λ o. Refreshes env execute r p o run.1) is ends in
            let (o, x) = Ends-total tokens readers rp execute now metadata response pending in
            (o, run.1, refreshed response pending s' metadata run.1 o t f x)
      ]

  Completes-total :
      (o : Outcome CompleteAuthorization) × (p' : ProviderState Cache) × (s' : kv.State) × Completes
        o p' s'
  Completes-total = elim (Result-cases (parse_authorization_response form_parse query)) [
    | inr (e, h) ↦ (_, _, _, malformed e h)
    | inl (response, h) ↦
        let key = key_for (Callback.state response) in
        let s' = (kv.take at key s).1 in
        elim (Result-cases (kv.take at key s).0) [
          | inr (e, t) ↦ (_, _, _, store_failed response e s' h (ap (λ m. (m, s')) t))
          | inl (given, t) ↦ elim (Option-cases given) [
            | inl nothing ↦ (
              _,
              _,
              _,
              unknown_state response s' h (ap (λ m. (m, s')) (t ∙ ap (λ g. ok g) nothing)),
            )
            | inr (raw, something) ↦
                let held : kv.take at key s ≡ (ok (some raw), s') =
                  ap (λ m. (m, s')) (t ∙ ap (λ g. ok g) something) in
                elim (Result-cases (readers.read_pending raw)) [
                  | inr (m, u) ↦ (_, _, _, unreadable_pending response raw m s' h held u)
                  | inl (pending, read) ↦
                      let (o, p', x) =
                        Taken-total response pending s'
                          (record { parsed = h; raw = raw; given_up = held; read = read }) in
                      (o, p', s', x)
                ]
          ]
        ]
  ]

  -- A completion ends with this result, this provider state and this store exactly if it ends in
  -- one of these ways. A callback that is not an authorization response changes nothing. Otherwise
  -- its state's key is taken, whatever follows, and the completion ends with the error of the
  -- store, for want of the pending request or of a readable one, with the provider state
  -- unchanged; with the error of the refresh and what that leaves; or under the refreshed document
  -- with the reason why no token request is made, the error of the network, the one that the
  -- provider's answer is read as, the one of a token response that cannot be read, or, of a
  -- request that was authorized and answered with status 200, the tokens of that answer.
  pub complete_authorization_iff :
      (o : Outcome CompleteAuthorization) (p' : ProviderState Cache) (s' : kv.State)
      → (complete_authorization tokens readers rp kv env form_parse execute r at now query p s
          ≡ (o, p', s'))
        ↔ Completes o p' s'
  complete_authorization_iff o p' s' = (
    λ h.
        let (o1, p1, s1, x) = Completes-total in
        let same : (o1, p1, s1) ≡ (o, p', s') = sym (Completes-run o1 p1 s1 x) ∙ h in
        subst (λ t. Completes t.0 t.1 t.2) same x,
    Completes-run o p' s',
  )
