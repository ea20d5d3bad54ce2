-- ===== src/Client/Logins.antt =====
-- src/client.rs and src/transport/kv.rs: several callers of `complete_authorization` over one
-- in-memory store. A caller parses its callback, takes the pending request of its state in one
-- atomic step, waits for as long as its refresh runs, and posts at most one token request. The
-- document that the refresh ends with and the clocks are whatever they are at that step; any
-- caller of the store may put a value at any time.
pub mod Counts
pub mod Kept
pub mod Alone
use oidc4rs.Prelude.{◌≡◌, List, [], ◌∷◌, ◌++◌, ok, err, Bytes}
use oidc4rs.Error.{Outcome}
use oidc4rs.Time.{Duration, Instant, SystemTime}
use oidc4rs.Metadata.Provider.{ProviderMetadata}
use oidc4rs.Flow.Callback
use oidc4rs.Flow.Callback.{AuthorizationResponse, Params, parse_authorization_response}
use oidc4rs.Flow.Authorize.{PendingAuthRequest}
use oidc4rs.Flow.Token.{BuiltTokenRequest, TokenOps}
use oidc4rs.Transport.Kv.{Store, new, put_if_absent}
use oidc4rs.Transport.Kv.Atomic.{memory}
use oidc4rs.Transport.Kv.Origin.{if_created}
use oidc4rs.Client.Complete.{Readers, RelyingParty, take_pending_request, prepare_token_request}

-- Where a caller stands: before its take, with the request that it took, and at its end.
pub data Caller : Type 0 where
  waiting : AuthorizationResponse → Caller
  holding : AuthorizationResponse → PendingAuthRequest → Caller
  ended : Caller

-- A token request that was posted, and what it was made of.
pub record Posted : Type 0 where
  pub response : AuthorizationResponse
  pub pending : PendingAuthRequest
  pub metadata : ProviderMetadata
  pub now : SystemTime
  pub built : BuiltTokenRequest

-- The store and the callers, with what was created in the store and what was posted so far.
pub record Logins : Type 0 where
  pub store : Store
  pub callers : List Caller
  pub created : List (Bytes × Bytes)
  pub posted : List Posted

abbrev pub no_logins : Logins
no_logins = record { store = new; callers = []; created = []; posted = [] }

-- A caller after its take.
abbrev pub after_take : AuthorizationResponse → Outcome PendingAuthRequest → Caller
after_take response (ok pending) = holding response pending
after_take response (err e) = ended

module _ (tokens : TokenOps) (readers : Readers) (rp : RelyingParty)
    (form_parse : Bytes → Params) where
  -- One step of the store's users.
  pub data Moves : Logins → Logins → Type 0 where
    puts :
        (now : Instant) (key value : Bytes) (ttl : Duration) (s : Logins)
        → Moves s (record s {
          store = (put_if_absent now key value ttl s.store).1;
          created = if_created (put_if_absent now key value ttl s.store).0 (key, value) s.created;
        })
    arrives :
        (query : Bytes) (response : AuthorizationResponse) (s : Logins)
        → parse_authorization_response form_parse query ≡ ok response
        → Moves s (record s { callers = waiting response ∷ s.callers })
    takes :
        (at : Instant) (before after : List Caller) (response : AuthorizationResponse) (s : Logins)
        → s.callers ≡ before ++ (waiting response ∷ after)
        → Moves s (record s {
          store = (take_pending_request readers memory at (Callback.state response) s.store).1;
          callers =
              before
              ++ (after_take response
                    (take_pending_request readers memory at (Callback.state response) s.store).0
                  ∷ after);
        })
    posts :
        (now : SystemTime) (metadata : ProviderMetadata) (before after : List Caller)
        (response : AuthorizationResponse) (pending : PendingAuthRequest)
        (built : BuiltTokenRequest) (s : Logins)
        → s.callers ≡ before ++ (holding response pending ∷ after)
        → prepare_token_request tokens readers rp now metadata response pending ≡ ok built
        → Moves s (record s {
          callers = before ++ (ended ∷ after);
          posted =
              record {
                response = response;
                pending = pending;
                metadata = metadata;
                now = now;
                built = built;
              }
              ∷ s.posted;
        })
    -- The refresh fails, or the preparation does.
    gives_up :
        (before after : List Caller) (response : AuthorizationResponse)
        (pending : PendingAuthRequest) (s : Logins)
        → s.callers ≡ before ++ (holding response pending ∷ after)
        → Moves s (record s { callers = before ++ (ended ∷ after) })

  -- What the callers reach from a new store.
  pub data Reached : Logins → Type 0 where
    begin : Reached no_logins
    move : {s t : Logins} → Reached s → Moves s t → Reached t
