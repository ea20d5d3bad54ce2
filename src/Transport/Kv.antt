-- ===== src/Transport/Kv.antt =====
-- src/transport/kv.rs: `InMemoryKvStore`, a map behind a mutex. Each operation holds the mutex for
-- all that it does with the map, so it is one atomic step on the state below; the instant that it
-- reads is its first argument. The map's keys are unique, and its order is never observed.
pub mod Laws
pub mod Atomic
pub mod Single
pub mod Refine
pub mod Origin
pub mod Table
use oidc4rs.Prelude.{
  Bool, true, false, Option, none, some, List, [], ◌∷◌, ltb, ◌==◌, if◌then◌else◌, Result, ok, err,
  Bytes, eqb,
}
use oidc4rs.Error.{KvError, invalid_ttl, storage, say}
use oidc4rs.Time.{Duration, Instant, checked_add}

-- `InMemoryEntry`.
pub record Entry : Type 0 where
  pub value : Bytes
  pub expires_at : Instant

-- `InMemoryKvStore`: the entries, and whether a thread panicked while it held the lock.
pub record Store : Type 0 where
  pub entries : List (Bytes × Entry)
  pub poisoned : Bool

abbrev pub new : Store
new = record { entries = []; poisoned = false }

unfoldable pub lookup {ℓ} : {V : Type ℓ} → Bytes → List (Bytes × V) → Option V
lookup k [] = none
lookup k ((j, v) ∷ m) = if eqb j k then some v else lookup k m

-- `HashMap::remove`.
unfoldable pub remove {ℓ} : {V : Type ℓ} → Bytes → List (Bytes × V) → List (Bytes × V)
remove k [] = []
remove k ((j, v) ∷ m) = if eqb j k then remove k m else (j, v) ∷ remove k m

abbrev pub is_live : Instant → Bytes × Entry → Bool
is_live now (k, entry) = ltb now entry.expires_at

-- `entries.retain(|_, entry| entry.expires_at > now)`.
unfoldable pub sweep : Instant → List (Bytes × Entry) → List (Bytes × Entry)
sweep now [] = []
sweep now (p ∷ m) = if is_live now p then p ∷ sweep now m else sweep now m

-- `match entries.entry(key)`, on the swept map.
insert_vacant : Store → List (Bytes × Entry) → Bytes → Entry → Result KvError Bool × Store
insert_vacant s swept key entry = elim (lookup key swept) [
  | none ↦ (ok true, record s { entries = (key, entry) ∷ swept })
  | some _ ↦ (ok false, record s { entries = swept })
]

-- What follows once the deadline is known.
put_until : Instant → Bytes → Bytes → Instant → Store → Result KvError Bool × Store
unfolding insert_vacant
put_until now key value expires_at s =
    if s.poisoned
    then (err (storage (say "in-memory store lock poisoned")), s)
    else insert_vacant s (sweep now s.entries) key
        (record { value = value; expires_at = expires_at })

unfoldable pub put_if_absent :
    Instant → Bytes → Bytes → Duration → Store → Result KvError Bool × Store
unfolding put_until
put_if_absent now key value ttl s =
    if ttl == 0 then (err invalid_ttl, s) else elim (checked_add now ttl) [
      | none ↦ (err invalid_ttl, s)
      | some expires_at ↦ put_until now key value expires_at s
    ]

-- `entry.filter(|entry| entry.expires_at > now).map(|entry| entry.value)`.
unfoldable pub live_value : Instant → Option Entry → Option Bytes
live_value now none = none
live_value now (some e) = if ltb now e.expires_at then some e.value else none

unfoldable pub take : Instant → Bytes → Store → Result KvError (Option Bytes) × Store
take now key s =
    if s.poisoned
    then (err (storage (say "in-memory store lock poisoned")), s)
    else (ok (live_value now (lookup key s.entries)), record s { entries = remove key s.entries })
