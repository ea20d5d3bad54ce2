-- ===== src/Client/Service.antt =====
-- src/client.rs: a client as a whole, with the tasks that refresh its document and the callers that
-- complete logins over one store. The steps of both come in any order. A caller that posts uses the
-- document that a refresh of this client has returned to it.
use oidc4rs.Flow.Authorize.{PendingAuthRequest}
use oidc4rs.Metadata.Provider.{ProviderMetadata}
use oidc4rs.Time.{SystemTime}
use oidc4rs.Types.Url.{IssuerUrl}
use oidc4rs.Client.Provider.{ProviderState}
use oidc4rs.Client.Refresh.{Services}
use oidc4rs.Flow.Callback.{Params, AuthorizationResponse}
use oidc4rs.Client.Complete.{Readers, RelyingParty}
use oidc4rs.Flow.Token.{TokenOps, BuiltTokenRequest}
use oidc4rs.Client.Refresh.{Services}
use oidc4rs.Client.Complete.Sound.{IsAuthorized}
use oidc4rs.Flow.Token.{request_for}
use oidc4rs.Prelude.{ℕ, ◌≡◌, refl, ok, Bytes, All, In, All-In}
use oidc4rs.Client.Refresh.Tasks.{Tasks, Turn, Runs, initial, returned, at_start, then_turn}
use oidc4rs.Client.Refresh.Tasks.Documents.{IsDocumentOf, Runs-document}
use oidc4rs.Client.Refresh.Steps.{Created}
use oidc4rs.Client.Logins.{
  Logins, no_logins, Moves, puts, arrives, takes, posts, gives_up, Reached, begin, move, Posted,
}
use oidc4rs.Client.Logins.Kept.{IsPosted, posted-IsPosted}

-- What is authorized goes to the token endpoint.
IsAuthorized-endpoint :
    (tokens : TokenOps) (readers : Readers) (rp : RelyingParty) (now : SystemTime)
    (metadata : ProviderMetadata) (response : AuthorizationResponse) (pending : PendingAuthRequest)
    (built : BuiltTokenRequest)
    → IsAuthorized tokens readers rp now metadata response pending built
    → built.http.url ≡ metadata.token_endpoint.text
unfolding request_for
IsAuthorized-endpoint tokens readers rp now metadata response pending built a = rw a.built_is refl

module _ (tokens : TokenOps) (readers : Readers) (rp : RelyingParty) (form_parse : Bytes → Params)
    {Cache : Type 0} (env : Services Cache) (p : ProviderState Cache) where
  -- The document of a post is one that a task was returned.
  abbrev pub IsReturned :
      Tasks Cache → {s t : Logins} → Moves tokens readers rp form_parse s t → Type 0
  IsReturned ts (posts now metadata before after response pending built s place h) =
      (j : ℕ) × (ts.place j ≡ returned (ok metadata))
  IsReturned ts _ = Unit

  -- What the client and its callers reach.
  pub data Service : Tasks Cache → Logins → Type 0 where
    opened : Service (initial env p) no_logins
    refreshes : {ts us : Tasks Cache} {ls : Logins} → Service ts ls → Turn env ts us → Service us ls
    logs_in :
        {ts : Tasks Cache} {ls ms : Logins}
        → Service ts ls
        → (m : Moves tokens readers rp form_parse ls ms) → IsReturned ts m
        → Service ts ms

  -- Each half of a run is a run of its own.
  Service-Runs : {ts : Tasks Cache} {ls : Logins} → Service ts ls → Runs env p ts
  Service-Runs opened = at_start
  Service-Runs (refreshes run turn) = then_turn (Service-Runs run) turn
  Service-Runs (logs_in run m used) = Service-Runs run

  Service-Reached :
      {ts : Tasks Cache} {ls : Logins} → Service ts ls → Reached tokens readers rp form_parse ls
  Service-Reached opened = begin
  Service-Reached (refreshes run turn) = Service-Reached run
  Service-Reached (logs_in run m used) = move (Service-Reached run) m

  module _ (issuer : IssuerUrl) (created : Created env issuer p) where
    abbrev Knows : Posted → Type 0
    Knows q = IsDocumentOf issuer q.metadata

    move-documents :
        {ts : Tasks Cache} {ls ms : Logins} (m : Moves tokens readers rp form_parse ls ms)
        → IsReturned ts m
        → Runs env p ts
        → All Knows ls.posted
        → All Knows ms.posted
    move-documents (puts now key value ttl s) used run w = w
    move-documents (arrives query response s h) used run w = w
    move-documents (takes at before after response s place) used run w = w
    move-documents (posts now metadata before after response pending built s place h) (j, is) run
          w =
        (Runs-document env issuer p _ j metadata created run is, w)
    move-documents (gives_up before after response pending s place) used run w = w

    Service-documents : {ts : Tasks Cache} {ls : Logins} → Service ts ls → All Knows ls.posted
    Service-documents opened = tt
    Service-documents (refreshes run turn) = Service-documents run
    Service-documents (logs_in run m used) =
        move-documents m used (Service-Runs run) (Service-documents run)

    -- However a client for an issuer was created, and however its refreshes and its logins
    -- interleave, each token request that was posted goes to the token endpoint of a valid document
    -- of that issuer, and was authorized under it by a callback and by a pending request that was
    -- stored under the key of the callback's state.
    pub posted-ToIssuer :
        (ts : Tasks Cache) (ls : Logins) (q : Posted)
        → Service ts ls
        → In q ls.posted
        → IsDocumentOf issuer q.metadata
          × (q.built.http.url ≡ q.metadata.token_endpoint.text)
          × IsPosted tokens readers rp form_parse ls.created q
    posted-ToIssuer ts ls q run m =
        let made = posted-IsPosted tokens readers rp form_parse ls q (Service-Reached run) m in
        (
          All-In Knows m (Service-documents run),
          IsAuthorized-endpoint tokens readers rp q.now q.metadata q.response q.pending q.built
              made.1,
          made,
        )
