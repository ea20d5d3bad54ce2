-- ===== src/Client/Logins/Alone.antt =====
-- The completion as the code writes it, against the steps of a caller.
use oidc4rs.Client.Provider.{ProviderState}
use oidc4rs.Error.{OidcError}
use oidc4rs.Client.Refresh.{Services, Readings}
use oidc4rs.Transport.Http.{HttpRequest, HttpResponse}
use oidc4rs.Client.Logins.Callback
use mathlib.Core.Path.{subst}
use oidc4rs.Client.Complete.Exact.{
  Completes, Taken, malformed, store_failed, unknown_state, unreadable_pending, not_refreshed,
  refreshed, complete_authorization_iff,
}
use oidc4rs.Prelude.{◌≡◌, refl, sym, ap, ◌∙◌, ◌⊎◌, inl, inr, List, [], ◌∷◌, ok, err, Bytes}
use oidc4rs.Client.Logins.{
  Caller, waiting, Logins, Posted, Moves, takes, posts, after_take, TokenOps, Params, Outcome,
  Instant, Store, AuthorizationResponse, SystemTime, ProviderMetadata, memory, PendingAuthRequest,
  parse_authorization_response, BuiltTokenRequest,
}
use oidc4rs.Client.Complete.Outcomes.{Ends, refused, unanswered, rejected, unreadable, granted}
use oidc4rs.Client.Complete.Sound.{IsAuthorized}
use oidc4rs.Client.Complete.Live.{IsAuthorized-prepare}
use oidc4rs.Client.Complete.{
  take_pending_request, Readers, RelyingParty, complete_authorization, CompleteAuthorization,
}

module _ (tokens : TokenOps) (readers : Readers) (rp : RelyingParty)
    (form_parse : Bytes → Params) where
  -- Steps in a row.
  pub data Steps (s : Logins) : Logins → Type 0 where
    none_more : Steps s s
    step : {t u : Logins} → Steps s t → Moves tokens readers rp form_parse t u → Steps s u

  module _ (execute : HttpRequest → Outcome HttpResponse) (at : Instant) where
    -- What a post led to: the tokens of the answer to it.
    pub record Brought (c : CompleteAuthorization) (post : Posted) : Type 0 where
      pub same_pending : post.pending ≡ c.pending
      pub answer : HttpResponse
      pub answered : execute post.built.http ≡ ok answer
      pub decoded : readers.read_token answer.body ≡ ok c.token_response

    -- What a caller's steps leave of a completion: its store, and nothing posted or one request,
    -- and that request if there are tokens.
    pub record Leaves (s : Logins) (o : Outcome CompleteAuthorization) (s' : Store) : Type 0 where
      pub end : Logins
      pub steps : Steps s end
      pub same_store : end.store ≡ s'
      pub same_log : end.created ≡ s.created
      pub one_post : (end.posted ≡ s.posted) ⊎ ((post : Posted) × (end.posted ≡ post ∷ s.posted))
      pub tokens_are_posted :
          (c : CompleteAuthorization)
          → o ≡ ok c
          → (post : Posted) × (end.posted ≡ post ∷ s.posted) × Brought c post

    Leaves-take :
        (response : AuthorizationResponse) (rest : List Caller) (s : Logins) (e : OidcError)
        → s.callers ≡ waiting response ∷ rest
        → Leaves s
            (err e)
            (take_pending_request readers memory at (Callback.state response) s.store).1
    Leaves-take response rest s e placed = record {
      end = _;
      steps = step none_more (takes at [] rest response s placed);
      same_store = refl;
      same_log = refl;
      one_post = inl refl;
      tokens_are_posted = λ c h. cc;
    }

    Leaves-post :
        (response : AuthorizationResponse) (rest : List Caller) (s : Logins) (now : SystemTime)
        (metadata : ProviderMetadata) (pending : PendingAuthRequest) (built : BuiltTokenRequest)
        (o : Outcome CompleteAuthorization)
        → s.callers ≡ waiting response ∷ rest
        → (take_pending_request readers memory at (Callback.state response) s.store).0 ≡ ok pending
        → IsAuthorized tokens readers rp now metadata response pending built
        → ((c : CompleteAuthorization)
            → o ≡ ok c
            → Brought c (record {
              response = response;
              pending = pending;
              metadata = metadata;
              now = now;
              built = built;
            }))
        → Leaves s o (take_pending_request readers memory at (Callback.state response) s.store).1
    Leaves-post response rest s now metadata pending built o placed taken a brought = record {
      end = _;
      steps = step (step none_more (takes at [] rest response s placed)) (
          posts now metadata [] rest response pending built _
            (ap (λ out. after_take response out ∷ rest) taken)
            (IsAuthorized-prepare tokens readers rp now metadata response pending built a));
      same_store = refl;
      same_log = refl;
      one_post = inr (_, refl);
      tokens_are_posted = λ c h. (_, refl, brought c h);
    }

    Ends-Leaves :
        (response : AuthorizationResponse) (rest : List Caller) (s : Logins) (now : SystemTime)
        (metadata : ProviderMetadata) (pending : PendingAuthRequest)
        (o : Outcome CompleteAuthorization)
        → s.callers ≡ waiting response ∷ rest
        → (take_pending_request readers memory at (Callback.state response) s.store).0 ≡ ok pending
        → Ends tokens readers rp execute now metadata response pending o
        → Leaves s o (take_pending_request readers memory at (Callback.state response) s.store).1
    Ends-Leaves response rest s now metadata pending _ placed taken (refused e r) =
        Leaves-take response rest s e placed
    Ends-Leaves response rest s now metadata pending _ placed taken (unanswered built e a h) =
        Leaves-post response rest s now metadata pending built _ placed taken a (λ c h. cc)
    Ends-Leaves response rest s now metadata pending _ placed taken (rejected built answer a h n) =
        Leaves-post response rest s now metadata pending built _ placed taken a (λ c h. cc)
    Ends-Leaves response rest s now metadata pending _ placed taken
          (unreadable built answer m a h done u) =
        Leaves-post response rest s now metadata pending built _ placed taken a (λ c h. cc)
    Ends-Leaves response rest s now metadata pending _ placed taken (granted c kept bound d) =
        Leaves-post response rest s now metadata pending d.built _ placed taken
          (rw (← kept) d.authorized)
          (λ c' h.
            let same : c ≡ c' = cc in
            record {
              same_pending = sym kept ∙ ap (λ q. q.pending) same;
              answer = d.answer;
              answered = d.answered;
              decoded = d.decoded ∙ ap (λ q. ok q.token_response) same;
            })

  module _ {Cache : Type 0} (env : Services Cache) (execute : HttpRequest → Outcome HttpResponse)
      (r : Readings) (at : Instant) (now : SystemTime) (query : Bytes)
      (p : ProviderState Cache) where
    same_response :
        (a b : AuthorizationResponse)
        → parse_authorization_response form_parse query ≡ ok a
        → parse_authorization_response form_parse query ≡ ok b
        → a ≡ b
    same_response a b h k = cc

    -- The caller waits with the response that was parsed.
    waits_with :
        (a b : AuthorizationResponse) (rest : List Caller) (s : Logins)
        → parse_authorization_response form_parse query ≡ ok a
        → parse_authorization_response form_parse query ≡ ok b
        → s.callers ≡ waiting b ∷ rest
        → s.callers ≡ waiting a ∷ rest
    waits_with a b rest s h k placed = placed ∙ ap (λ q. waiting q ∷ rest) (same_response b a k h)

    Taken-take :
        (s s' : Store) (response : AuthorizationResponse) (pending : PendingAuthRequest)
        → Taken tokens readers rp memory env form_parse execute r at now query p s response pending
            s'
        → (take_pending_request readers memory at (Callback.state response) s).0 ≡ ok pending
    unfolding take_pending_request
    Taken-take s s' response pending t = rw (take_pending_request, t.given_up, t.read) refl

    Completes-Leaves :
        (response : AuthorizationResponse) (rest : List Caller) (s : Logins)
        (o : Outcome CompleteAuthorization) (p' : ProviderState Cache) (s' : Store)
        → parse_authorization_response form_parse query ≡ ok response
        → s.callers ≡ waiting response ∷ rest
        → Completes tokens readers rp memory env form_parse execute r at now query p s.store o p' s'
        → Leaves execute at s o s'
    unfolding take_pending_request
    Completes-Leaves response rest s _ _ _ parsed placed (malformed e h) = absurd cc
    Completes-Leaves response rest s _ _ _ parsed placed (store_failed a e s' h t) =
        subst (Leaves execute at s _) (ap (λ q. q.1) t)
          (Leaves-take execute at a rest s _ (waits_with a response rest s h parsed placed))
    Completes-Leaves response rest s _ _ _ parsed placed (unknown_state a s' h t) =
        subst (Leaves execute at s _) (ap (λ q. q.1) t)
          (Leaves-take execute at a rest s _ (waits_with a response rest s h parsed placed))
    Completes-Leaves response rest s _ _ _ parsed placed (unreadable_pending a raw m s' h t u) =
        subst (Leaves execute at s _) (ap (λ q. q.1) t)
          (Leaves-take execute at a rest s _ (waits_with a response rest s h parsed placed))
    Completes-Leaves response rest s _ _ _ parsed placed (not_refreshed a pending s' e p' t f) =
        subst (Leaves execute at s _) (ap (λ q. q.1) t.given_up)
          (Leaves-take execute at a rest s _ (waits_with a response rest s t.parsed parsed placed))
    Completes-Leaves response rest s _ _ _ parsed placed
          (refreshed a pending s' metadata p' o t f x) =
        subst (Leaves execute at s _) (ap (λ q. q.1) t.given_up) (
          Ends-Leaves execute at a rest s now metadata pending o
            (waits_with a response rest s t.parsed parsed placed)
            (Taken-take s.store s' a pending t) x)

    -- A completion that runs alone makes the steps of one caller. For a callback that parses, the
    -- steps lead from any state in which a caller waits with it to the store that the completion
    -- leaves; they post at most one request; and if the completion returns tokens, they post the
    -- one request whose answer has them, for the pending request that it returns.
    pub complete_authorization-Leaves :
        (response : AuthorizationResponse) (rest : List Caller) (s : Logins)
        → parse_authorization_response form_parse query ≡ ok response
        → s.callers ≡ waiting response ∷ rest
        → let run =
            complete_authorization tokens readers rp memory env form_parse execute r at now query p
              s.store in
          Leaves execute at s run.0 run.2
    complete_authorization-Leaves response rest s parsed placed =
        Completes-Leaves response rest s _ _ _ parsed placed (
          (complete_authorization_iff tokens readers rp memory env form_parse execute r at now query
              p s.store _ _ _).0
            refl)
