-- ===== src/Client/Logins/Counts.antt =====
-- How many token requests are posted.
use oidc4rs.Error.{KvError}
use oidc4rs.Transport.Kv.{lookup}
use oidc4rs.Client.Complete.{take_pending_request, Readers, RelyingParty}
use oidc4rs.Prelude.{
  ℕ, ◌+◌, ◌≤◌, ◌≡◌, refl, ap, Bool, List, [], ◌∷◌, ◌++◌, arith, if◌then◌else◌, Result, Bytes, eqb,
}
use oidc4rs.Client.Logins.{
  Caller, waiting, holding, ended, Logins, Reached, Posted, Moves, puts, arrives, takes, posts,
  gives_up, begin, move, after_take, if_created, TokenOps, Params, Instant, AuthorizationResponse,
  Store, memory,
}
use oidc4rs.Transport.Kv.Single.{held, take-held, one_if_created, put-held}
use oidc4rs.Flow.Callback
use oidc4rs.Flow.Authorize.{key_for}

-- How often a key was created, is held by a caller, and was posted for.
unfoldable pub created_for : Bytes → List (Bytes × Bytes) → ℕ
created_for k [] = 0
created_for k ((key, value) ∷ log) = (if eqb key k then 1 else 0) + created_for k log

one_if_holding : Bytes → Caller → ℕ
one_if_holding k (waiting response) = 0
one_if_holding k (holding response pending) =
    if eqb (key_for (Callback.state response)) k then 1 else 0
one_if_holding k ended = 0

held_by : Bytes → List Caller → ℕ
held_by k [] = 0
held_by k (c ∷ cs) = one_if_holding k c + held_by k cs

unfoldable pub posted_for : Bytes → List Posted → ℕ
posted_for k [] = 0
posted_for k (p ∷ ps) =
    (if eqb (key_for (Callback.state p.response)) k then 1 else 0) + posted_for k ps

held_by-append :
    (k : Bytes) (before after : List Caller) (c : Caller)
    → held_by k (before ++ (c ∷ after)) ≡ one_if_holding k c + held_by k (before ++ after)
unfolding held_by
held_by-append k [] after c = refl
held_by-append k (b ∷ before) after c = omega (arith, held_by-append k before after c)

created_for-if_created :
    (k key value : Bytes) (r : Result KvError Bool) (log : List (Bytes × Bytes))
    → created_for k (if_created r (key, value) log)
      ≡ (if eqb key k then one_if_created r else 0) + created_for k log
unfolding created_for
created_for-if_created k key value r log = ground arith

ruleset counting = (arith, held_by-append, created_for-if_created, put-held)

-- What was posted for a key, is held by a caller or is in the store was created.
record IsCovered (k : Bytes) (s : Logins) : Type 0 where
  covered : posted_for k s.posted + held_by k s.callers + held k s.store ≤ created_for k s.created

module _ (tokens : TokenOps) (readers : Readers) (rp : RelyingParty)
    (form_parse : Bytes → Params) where
  taken-held :
      (k : Bytes) (at : Instant) (response : AuthorizationResponse) (s : Store)
      → held k (take_pending_request readers memory at (Callback.state response) s).1
          + one_if_holding k (
              after_take response
                (take_pending_request readers memory at (Callback.state response) s).0)
        ≤ held k s
  unfolding take_pending_request one_if_holding
  taken-held k at response s =
      let key = key_for (Callback.state response) in ground (arith, take-held k at key s)

  move-IsCovered :
      (k : Bytes) {s t : Logins}
      → Moves tokens readers rp form_parse s t
      → IsCovered k s
      → IsCovered k t
  unfolding held_by posted_for created_for one_if_holding
  move-IsCovered k (puts now key value ttl s) w = record { covered = grind (counting, w.covered) }
  move-IsCovered k (arrives query response s h) w = record { covered = omega (arith, w.covered) }
  move-IsCovered k (takes at before after response s at_place) w = record {
    covered =
        grind (counting, w.covered, ap (held_by k) at_place, taken-held k at response s.store);
  }
  move-IsCovered k (posts now metadata before after response pending built s at_place h) w =
      record { covered = grind (counting, w.covered, ap (held_by k) at_place) }
  move-IsCovered k (gives_up before after response pending s at_place) w = record {
    covered = grind (counting, w.covered, ap (held_by k) at_place);
  }

  Reached-IsCovered :
      (k : Bytes) {s : Logins} → Reached tokens readers rp form_parse s → IsCovered k s
  unfolding held_by posted_for created_for lookup
  Reached-IsCovered k begin = record { covered = omega arith }
  Reached-IsCovered k (move run m) = move-IsCovered k m (Reached-IsCovered k run)

  -- Whatever the callers of a new store do, in every interleaving, at most as many token requests
  -- are posted for a state as values were created under its key.
  pub posted-le-created :
      (state : Bytes) (s : Logins)
      → Reached tokens readers rp form_parse s
      → posted_for (key_for state) s.posted ≤ created_for (key_for state) s.created
  posted-le-created state s run = omega (arith, (Reached-IsCovered (key_for state) run).covered)
