-- ===== src/Client/Logins/Kept.antt =====
-- What the posted token requests were made of.
use oidc4rs.Flow.Authorize.{key_for}
use oidc4rs.Client.Complete.Whole.{take_pending_request-ok}
use oidc4rs.Client.Complete.{take_pending_request, Readers, RelyingParty}
use oidc4rs.Client.Complete.Sound.{IsAuthorized, prepare_token_request-IsAuthorized}
use oidc4rs.Transport.Kv.Origin.{AreFrom, put-AreFrom, take-AreFrom, In-if_created, if_created}
use oidc4rs.Prelude.{
  ◌≡◌, inl, inr, Bool, List, ◌∷◌, ◌++◌, Result, Result-cases, ok, Bytes, All, In, All-In, All-at,
  All-replace, All-map,
}
use oidc4rs.Error.{KvError}
use oidc4rs.Client.Logins.{
  Caller, waiting, holding, ended, Logins, Reached, Posted, Moves, puts, arrives, takes, posts,
  gives_up, begin, move, after_take, if_created, Instant, TokenOps, Params, AuthorizationResponse,
  memory, PendingAuthRequest,
}
use oidc4rs.Transport.Kv.{Store, put_if_absent}
use oidc4rs.Flow.Callback

module _ (tokens : TokenOps) (readers : Readers) (rp : RelyingParty)
    (form_parse : Bytes → Params) where
  -- The pending request is what a value reads as that was created under the key of the state.
  abbrev pub IsStored : List (Bytes × Bytes) → AuthorizationResponse → PendingAuthRequest → Type 0
  IsStored log response pending =
      (raw : Bytes) × In (key_for (Callback.state response), raw) log
      × (readers.read_pending raw ≡ ok pending)

  -- What a posted request was made of.
  abbrev pub IsPosted : List (Bytes × Bytes) → Posted → Type 0
  IsPosted log p =
      IsStored log p.response p.pending
      × IsAuthorized tokens readers rp p.now p.metadata p.response p.pending p.built

  abbrev Holds : List (Bytes × Bytes) → Caller → Type 0
  Holds log (waiting response) = Unit
  Holds log (holding response pending) = IsStored log response pending
  Holds log ended = Unit

  record IsKept (s : Logins) : Type 0 where
    from_log : AreFrom s.created s.store.entries
    by_callers : All (Holds s.created) s.callers
    in_posts : All (IsPosted s.created) s.posted

  IsStored-if_created :
      (log : List (Bytes × Bytes)) (r : Result KvError Bool) (entry : Bytes × Bytes)
      (response : AuthorizationResponse) (pending : PendingAuthRequest)
      → IsStored log response pending
      → IsStored (if_created r entry log) response pending
  IsStored-if_created log r entry response pending (raw, m, read) =
      (raw, In-if_created _ r entry log m, read)

  Holds-if_created :
      (log : List (Bytes × Bytes)) (r : Result KvError Bool) (entry : Bytes × Bytes) (c : Caller)
      → Holds log c
      → Holds (if_created r entry log) c
  Holds-if_created log r entry (waiting response) h = tt
  Holds-if_created log r entry (holding response pending) h =
      IsStored-if_created log r entry response pending h
  Holds-if_created log r entry ended h = tt

  take-Holds :
      (log : List (Bytes × Bytes)) (at : Instant) (response : AuthorizationResponse) (s : Store)
      → AreFrom log s.entries
      → Holds log (
          after_take response
            (take_pending_request readers memory at (Callback.state response) s).0)
  take-Holds log at response s h =
      elim (Result-cases (take_pending_request readers memory at (Callback.state response) s).0) [
        | inr (e, refused) ↦ rw refused tt
        | inl (pending, taken) ↦
            let (raw, given, read) =
              take_pending_request-ok readers memory at (Callback.state response) s pending taken in
            rw taken
              (raw, (take-AreFrom log at (key_for (Callback.state response)) s h).1 raw given, read)
      ]

  take_pending_request-AreFrom :
      (log : List (Bytes × Bytes)) (at : Instant) (state : Bytes) (s : Store)
      → AreFrom log s.entries
      → AreFrom log (take_pending_request readers memory at state s).1.entries
  unfolding take_pending_request
  take_pending_request-AreFrom log at state s h = (take-AreFrom log at (key_for state) s h).0

  move-IsKept : {s t : Logins} → Moves tokens readers rp form_parse s t → IsKept s → IsKept t
  move-IsKept (puts now key value ttl s) w =
      let r = (put_if_absent now key value ttl s.store).0 in
      record {
        from_log = put-AreFrom s.created now key value ttl s.store w.from_log;
        by_callers =
            All-map _ (λ c h. Holds-if_created s.created r (key, value) c h) _ w.by_callers;
        in_posts =
            All-map _
              (λ p h. (IsStored-if_created s.created r (key, value) p.response p.pending h.0, h.1))
              _ w.in_posts;
      }
  move-IsKept (arrives query response s h) w = record {
    from_log = w.from_log;
    by_callers = (tt, w.by_callers);
    in_posts = w.in_posts;
  }
  move-IsKept (takes at before after response s at_place) w = record {
    from_log =
        take_pending_request-AreFrom s.created at (Callback.state response) s.store w.from_log;
    by_callers =
        All-replace _ before after (waiting response) _ (rw (← at_place) w.by_callers)
          (take-Holds s.created at response s.store w.from_log);
    in_posts = w.in_posts;
  }
  move-IsKept (posts now metadata before after response pending built s at_place h) w =
      let callers : All (Holds s.created) (before ++ (holding response pending ∷ after)) =
        rw (← at_place) w.by_callers in
      record {
        from_log = w.from_log;
        by_callers = All-replace _ before after (holding response pending) _ callers tt;
        in_posts = (
          (
            All-at _ before after (holding response pending) callers,
            prepare_token_request-IsAuthorized tokens readers rp now metadata response pending built
                h,
          ),
          w.in_posts,
        );
      }
  move-IsKept (gives_up before after response pending s at_place) w = record {
    from_log = w.from_log;
    by_callers =
        All-replace _ before after (holding response pending) _ (rw (← at_place) w.by_callers) tt;
    in_posts = w.in_posts;
  }

  Reached-IsKept : {s : Logins} → Reached tokens readers rp form_parse s → IsKept s
  Reached-IsKept begin = record { from_log = tt; by_callers = tt; in_posts = tt }
  Reached-IsKept (move run m) = move-IsKept m (Reached-IsKept run)

  -- Whatever the callers of a new store do, in every interleaving, each token request that was
  -- posted was authorized, under the document and the clock of its caller, by the callback of that
  -- caller and by a pending request that a value reads as which was created in the store under the
  -- key of the callback's state.
  pub posted-IsPosted :
      (s : Logins) (p : Posted)
      → Reached tokens readers rp form_parse s
      → In p s.posted
      → IsPosted s.created p
  posted-IsPosted s p run m = All-In _ m (Reached-IsKept run).in_posts
