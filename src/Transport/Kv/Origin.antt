-- ===== src/Transport/Kv/Origin.antt =====
-- src/transport/kv.rs: where the values of the in-memory store come from. A log lists each key and
-- value that a put created.
use oidc4rs.Prelude.{
  ◌≡◌, ◌⊎◌, inl, inr, Bool, true, false, some, List, [], ◌∷◌, arith, ◌==◌, Bool-cases, Option-cases,
  Result, ok, err, Bytes, eqb, eqb_iff, All, In, All-map, here, there,
}
use oidc4rs.Transport.Kv.{take, live_value, Entry, sweep, remove, lookup, put_if_absent, Store}
use oidc4rs.Time.{Instant, Duration, checked_add}
use oidc4rs.Error.{KvError}

-- The log after a put with this reply.
abbrev pub if_created :
    Result KvError Bool → Bytes × Bytes → List (Bytes × Bytes) → List (Bytes × Bytes)
if_created (ok true) entry log = entry ∷ log
if_created _ entry log = log

-- Every entry of a map was created with its value.
abbrev pub AreFrom : List (Bytes × Bytes) → List (Bytes × Entry) → Type 0
AreFrom log m = All (λ ((k, e) : Bytes × Entry). In (k, e.value) log) m

sweep-AreFrom :
    (log : List (Bytes × Bytes)) (now : Instant) (m : List (Bytes × Entry))
    → AreFrom log m
    → AreFrom log (sweep now m)
unfolding sweep
sweep-AreFrom log now [] h = tt
sweep-AreFrom log now (p ∷ m) h = ground (arith, sweep-AreFrom log now m h.1)

remove-AreFrom :
    (log : List (Bytes × Bytes)) (key : Bytes) (m : List (Bytes × Entry))
    → AreFrom log m
    → AreFrom log (remove key m)
unfolding remove
remove-AreFrom log key [] h = tt
remove-AreFrom log key (p ∷ m) h = ground (arith, remove-AreFrom log key m h.1)

lookup-AreFrom :
    (log : List (Bytes × Bytes)) (key : Bytes) (m : List (Bytes × Entry)) (e : Entry)
    → AreFrom log m
    → lookup key m ≡ some e
    → In (key, e.value) log
unfolding lookup
lookup-AreFrom log key [] e h found = cc
lookup-AreFrom log key ((j, v) ∷ m) e h found = elim (Bool-cases (eqb j key)) [
  | inl same ↦ ground (arith, (eqb_iff j key).0 same, h.0)
  | inr other ↦ lookup-AreFrom log key m e h.1 (ground arith)
]

-- A log that grows keeps what came from it.
pub In-if_created :
    (x : Bytes × Bytes) (r : Result KvError Bool) (entry : Bytes × Bytes)
    (log : List (Bytes × Bytes))
    → In x log
    → In x (if_created r entry log)
In-if_created x (ok true) entry log m = there m
In-if_created x (ok false) entry log m = m
In-if_created x (err e) entry log m = m

AreFrom-if_created :
    (log : List (Bytes × Bytes)) (r : Result KvError Bool) (entry : Bytes × Bytes)
    (m : List (Bytes × Entry))
    → AreFrom log m
    → AreFrom (if_created r entry log) m
AreFrom-if_created log r entry m h = All-map _ (λ a from. In-if_created _ r entry log from) m h

-- What a put leaves: the entries that there were, those of them that are live, or these and the new
-- one.
put-entries :
    (now : Instant) (key value : Bytes) (ttl : Duration) (s : Store)
    → ((put_if_absent now key value ttl s).1.entries ≡ s.entries)
      ⊎ ((put_if_absent now key value ttl s).1.entries ≡ sweep now s.entries)
      ⊎ ((deadline : Instant) × ((put_if_absent now key value ttl s).0 ≡ ok true)
          × ((put_if_absent now key value ttl s).1.entries
              ≡ (key, record { value = value; expires_at = deadline }) ∷ sweep now s.entries))
unfolding put_if_absent
put-entries now key value ttl s = elim (Bool-cases (ttl == 0)) [
  | inl zero_ttl ↦ inl (ground arith)
  | inr timed ↦ elim (Option-cases (checked_add now ttl)) [
    | inl never ↦ inl (ground arith)
    | inr (deadline, fits) ↦ elim (Bool-cases s.poisoned) [
      | inl poisoned ↦ inl (ground arith)
      | inr usable ↦ elim (Option-cases (lookup key (sweep now s.entries))) [
        | inl vacant ↦ inr (inr (deadline, ground arith, ground arith))
        | inr (old, occupied) ↦ inr (inl (ground arith))
      ]
    ]
  ]
]

pub put-AreFrom :
    (log : List (Bytes × Bytes)) (now : Instant) (key value : Bytes) (ttl : Duration) (s : Store)
    → AreFrom log s.entries
    → AreFrom
        (if_created (put_if_absent now key value ttl s).0 (key, value) log)
        (put_if_absent now key value ttl s).1.entries
put-AreFrom log now key value ttl s h =
    let r = (put_if_absent now key value ttl s).0 in
    let swept = sweep-AreFrom log now s.entries h in
    elim (put-entries now key value ttl s) [
      | inl same ↦ rw same (AreFrom-if_created log r (key, value) _ h)
      | inr (inl live) ↦ rw live (AreFrom-if_created log r (key, value) _ swept)
      | inr (inr (deadline, created, more)) ↦
          rw more (rw created here, AreFrom-if_created log r (key, value) _ swept)
    ]

-- What a take gives up was created, and what it leaves too.
pub take-AreFrom :
    (log : List (Bytes × Bytes)) (now : Instant) (key : Bytes) (s : Store)
    → AreFrom log s.entries
    → AreFrom log (take now key s).1.entries
      × ((raw : Bytes) → (take now key s).0 ≡ ok (some raw) → In (key, raw) log)
unfolding take live_value
take-AreFrom log now key s h = elim (Bool-cases s.poisoned) [
  | inl poisoned ↦ (rw (take, poisoned) h, λ raw given. ground (arith, poisoned, given))
  | inr usable ↦ (
    rw (take, usable) (remove-AreFrom log key s.entries h),
    λ raw given. elim (Option-cases (lookup key s.entries)) [
      | inl absent ↦ absurd (ground (arith, usable, given, absent))
      | inr (e, found) ↦
          let same : e.value ≡ raw = ground (arith, usable, given, found) in
          rw (← same) (lookup-AreFrom log key s.entries e h found)
    ],
  )
]
