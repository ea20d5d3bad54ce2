-- ===== src/Transport/Kv/Single.antt =====
-- Concurrent callers of one store: the mutex orders their operations, so an execution is a list of
-- atomic operations. A key is taken with a value at most as often as it was created.
use oidc4rs.Prelude.{
  ℕ, ◌+◌, ◌≤◌, Bool, true, Option, none, some, List, [], ◌∷◌, arith, if◌then◌else◌, Result, ok,
  Bytes, eqb, eqb_iff,
}
use oidc4rs.Error.{KvError}
use oidc4rs.Transport.Store.Runs.{Call, put, taking}
use oidc4rs.Time.{Duration, Instant}
use oidc4rs.Transport.Kv.{Store, new, lookup, take, put_if_absent, live_value}
use oidc4rs.Transport.Kv.Laws.{sweep_absent, lookup-remove}

-- How often a key was created and how often its value was handed out.
pub record Tally : Type 0 where
  pub store : Store
  pub created : ℕ
  pub taken : ℕ

abbrev pub one_if_created : Result KvError Bool → ℕ
one_if_created (ok true) = 1
one_if_created _ = 0

abbrev pub one_if_taken : Result KvError (Option Bytes) → ℕ
one_if_taken (ok (some v)) = 1
one_if_taken _ = 0

-- Only the calls at key `k` count.
pub step : Bytes → Tally → Call → Tally
step k t (put now key value ttl) =
    let (r, s) = put_if_absent now key value ttl t.store in
    record t { store = s; created = t.created + (if eqb key k then one_if_created r else 0) }
step k t (taking now key) =
    let (r, s) = take now key t.store in
    record t { store = s; taken = t.taken + (if eqb key k then one_if_taken r else 0) }

unfoldable pub run : Bytes → Tally → List Call → Tally
unfolding step
run k t [] = t
run k t (c ∷ cs) = run k (step k t c) cs

abbrev pub start : Tally
start = record { store = new; created = 0; taken = 0 }

abbrev pub held : Bytes → Store → ℕ
held k s = elim (lookup k s.entries) [ none ↦ 0 | some _ ↦ 1 ]

-- What is handed out and what is still held was created.
record IsBalanced (k : Bytes) (t : Tally) : Type 0 where
  balance : t.taken + held k t.store ≤ t.created

pub put-held :
    (k : Bytes) (now : Instant) (key value : Bytes) (ttl : Duration) (s : Store)
    → held k (put_if_absent now key value ttl s).1
      ≤ held k s + (if eqb key k then one_if_created (put_if_absent now key value ttl s).0 else 0)
unfolding put_if_absent lookup
put-held k now key value ttl s = ground (arith, sweep_absent now k s.entries, eqb_iff key k)

pub take-held :
    (k : Bytes) (now : Instant) (key : Bytes) (s : Store)
    → held k (take now key s).1 + (if eqb key k then one_if_taken (take now key s).0 else 0)
      ≤ held k s
unfolding take live_value
take-held k now key s = ground (arith, lookup-remove key k s.entries, eqb_iff key k)

put-balance :
    (k : Bytes) (t : Tally) (now : Instant) (key value : Bytes) (ttl : Duration)
    → IsBalanced k t
    → IsBalanced k (step k t (put now key value ttl))
unfolding step
put-balance k t now key value ttl b = record {
  balance = omega (arith, b.balance, put-held k now key value ttl t.store);
}

take-balance :
    (k : Bytes) (t : Tally) (now : Instant) (key : Bytes)
    → IsBalanced k t
    → IsBalanced k (step k t (taking now key))
unfolding step
take-balance k t now key b = record {
  balance = omega (arith, b.balance, take-held k now key t.store);
}

run-balance : (k : Bytes) (t : Tally) (cs : List Call) → IsBalanced k t → IsBalanced k (run k t cs)
unfolding run
run-balance k t [] b = b
run-balance k t (put now key value ttl ∷ cs) b =
    run-balance k (step k t (put now key value ttl)) cs (put-balance k t now key value ttl b)
run-balance k t (taking now key ∷ cs) b =
    run-balance k (step k t (taking now key)) cs (take-balance k t now key b)

-- In every interleaving of callers on a fresh store, a key's value is handed out at most as often
-- as a put created that key.
taken-le-created :
    (k : Bytes) (calls : List Call) → (run k start calls).taken ≤ (run k start calls).created
unfolding lookup
taken-le-created k calls =
    omega (arith, (run-balance k start calls (record { balance = omega arith })).balance)
