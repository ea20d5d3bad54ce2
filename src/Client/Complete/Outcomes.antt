-- ===== src/Client/Complete/Outcomes.antt =====
-- src/client.rs: every way in which a completion ends, with what it leaves of the store and of the
-- provider state.
use oidc4rs.Prelude.{◌≡◌, refl, ◌≢◌, inl, inr, arith, ◌==◌, Bool-cases, Result-cases, ok, err}
use oidc4rs.Error.{OidcError, Message, json}
use oidc4rs.Flow.Callback
use oidc4rs.Flow.Callback.{AuthorizationResponse}
use oidc4rs.Client.Complete.Sound.{IsAuthorized, IsCompleted}
use oidc4rs.Client.Complete.Live.{IsCompleted-complete, IsAuthorized-posts, IsAuthorized-prepare}
use oidc4rs.Client.Complete.Refusal.{Refusal}
use oidc4rs.Client.Complete.Refusal.Exact.{Refusal-prepare}
use oidc4rs.Client.Complete.Refusal.Cases.{prepare_token_request-cases}
use oidc4rs.Client.Complete.{
  Readers, RelyingParty, parse_token_error, Outcome, post_token_request, TokenOps, HttpRequest,
  HttpResponse, SystemTime, ProviderMetadata, PendingAuthRequest, CompleteAuthorization,
  BuiltTokenRequest, complete_with_metadata,
}

module _ (tokens : TokenOps) (readers : Readers) (rp : RelyingParty)
    (execute : HttpRequest → Outcome HttpResponse) (now : SystemTime) (metadata : ProviderMetadata)
    (response : AuthorizationResponse) (pending : PendingAuthRequest) where
  -- How the callback and its pending request end under this document.
  pub data Ends : Outcome CompleteAuthorization → Type 0 where
    refused : (e : OidcError) → Refusal rp now metadata response pending e → Ends (err e)
    unanswered :
        (built : BuiltTokenRequest) (e : OidcError)
        → IsAuthorized tokens readers rp now metadata response pending built
        → execute built.http ≡ err e
        → Ends (err e)
    rejected :
        (built : BuiltTokenRequest) (answer : HttpResponse)
        → IsAuthorized tokens readers rp now metadata response pending built
        → execute built.http ≡ ok answer
        → answer.status ≢ 200
        → Ends (err (parse_token_error readers answer))
    unreadable :
        (built : BuiltTokenRequest) (answer : HttpResponse) (m : Message)
        → IsAuthorized tokens readers rp now metadata response pending built
        → execute built.http ≡ ok answer
        → answer.status ≡ 200
        → readers.read_token answer.body ≡ err m
        → Ends (err (json m))
    granted :
        (c : CompleteAuthorization)
        → c.pending ≡ pending
        → c.callback_state ≡ Callback.state response
        → IsCompleted tokens readers rp execute now metadata response c
        → Ends (ok c)

  pub Ends-complete :
      (o : Outcome CompleteAuthorization)
      → Ends o
      → complete_with_metadata tokens readers rp execute now response pending metadata ≡ o
  unfolding complete_with_metadata post_token_request
  Ends-complete _ (refused e r) =
      rw (complete_with_metadata, Refusal-prepare tokens readers rp now metadata response pending r)
        refl
  Ends-complete _ (unanswered built e a h) =
      let same = IsAuthorized-posts tokens readers rp now metadata response pending built a in
      rw
        (
          complete_with_metadata,
          IsAuthorized-prepare tokens readers rp now metadata response pending built a,
        )
        (ground (arith, h))
  Ends-complete _ (rejected built answer a h other) =
      let same = IsAuthorized-posts tokens readers rp now metadata response pending built a in
      rw
        (
          complete_with_metadata,
          IsAuthorized-prepare tokens readers rp now metadata response pending built a,
        )
        (ground (arith, h, other))
  Ends-complete _ (unreadable built answer m a h done unread) =
      let same = IsAuthorized-posts tokens readers rp now metadata response pending built a in
      rw
        (
          complete_with_metadata,
          IsAuthorized-prepare tokens readers rp now metadata response pending built a,
        )
        (ground (arith, h, done, unread))
  Ends-complete _ (granted c kept bound d) =
      rw (← kept) (IsCompleted-complete tokens readers rp execute now metadata response c d bound)

  pub Ends-total : (o : Outcome CompleteAuthorization) × Ends o
  Ends-total = elim (prepare_token_request-cases tokens readers rp now metadata response pending) [
    | inr (e, r) ↦ (_, refused e r)
    | inl (built, a) ↦ elim (Result-cases (execute built.http)) [
      | inr (e, h) ↦ (_, unanswered built e a h)
      | inl (answer, h) ↦ elim (Bool-cases (answer.status == 200)) [
        | inr other ↦ (_, rejected built answer a h (λ e. ground arith))
        | inl accepted ↦ elim (Result-cases (readers.read_token answer.body)) [
          | inr (m, unread) ↦ (_, unreadable built answer m a h (ground arith) unread)
          | inl (token, read) ↦ (
            _,
            granted
                (record {
                  token_response = token;
                  pending = pending;
                  callback_state = Callback.state response;
                })
                refl refl
                (record {
                  built = built;
                  answer = answer;
                  authorized = a;
                  answered = h;
                  status_is = ground arith;
                  decoded = read;
                }),
          )
        ]
      ]
    ]
  ]
