-- ===== src/Transport/Store.antt =====
-- src/transport/kv.rs: the trait `AsyncKvStore`, which the client uses, and what it documents. A
-- store's clock reading is the first argument of each operation.
pub mod Runs
use oidc4rs.Prelude.{
  ◌+◌, ◌≤◌, ◌<◌, ◌≡◌, Bool, true, false, Option, none, some, ltb, if◌then◌else◌, Result, ok, Bytes,
  eqb,
}
use oidc4rs.Error.{KvError}
use oidc4rs.Time.{Duration, Instant, instant_limit}

-- `AsyncKvStore`, with each operation as one atomic step on the state of the backend.
pub record KvStore : Type 1 where
  pub State : Type 0
  pub put_if_absent : Instant → Bytes → Bytes → Duration → State → Result KvError Bool × State
  pub take : Instant → Bytes → State → Result KvError (Option Bytes) × State

-- What the trait documents, as long as the backend answers: an expired key counts as missing, a put
-- creates a value with a bounded lifetime or changes nothing, and a take removes what it returns.
pub record IsAtomic (kv : KvStore) : Type 1 where
  pub view : Instant → kv.State → Bytes → Option Bytes
  pub Answers : kv.State → Type 0
  pub take_ok :
      (now : Instant) (key : Bytes) (s : kv.State)
      → Answers s
      → (kv.take now key s).0 ≡ ok (view now s key)
  pub take_answers :
      (now : Instant) (key : Bytes) (s : kv.State) → Answers s → Answers (kv.take now key s).1
  pub view-take :
      (now later : Instant) (key k : Bytes) (s : kv.State)
      → Answers s
      → view later (kv.take now key s).1 k ≡ (if eqb key k then none else view later s k)
  pub put_answers :
      (now : Instant) (key value : Bytes) (ttl : Duration) (s : kv.State)
      → Answers s
      → Answers (kv.put_if_absent now key value ttl s).1
  pub put_vacant :
      (now later : Instant) (key value : Bytes) (ttl : Duration) (s : kv.State) (k : Bytes)
      → Answers s
      → 0 < ttl
      → now + ttl < instant_limit
      → view now s key ≡ none
      → now ≤ later
      → ((kv.put_if_absent now key value ttl s).0 ≡ ok true)
        × (view later (kv.put_if_absent now key value ttl s).1 k ≡ (
            if eqb key k
            then (if ltb later (now + ttl) then some value else none)
            else view later s k))
  pub put_occupied :
      (now later : Instant) (key value : Bytes) (ttl : Duration) (s : kv.State) (old k : Bytes)
      → Answers s
      → 0 < ttl
      → now + ttl < instant_limit
      → view now s key ≡ some old
      → now ≤ later
      → ((kv.put_if_absent now key value ttl s).0 ≡ ok false)
        × (view later (kv.put_if_absent now key value ttl s).1 k ≡ view later s k)
