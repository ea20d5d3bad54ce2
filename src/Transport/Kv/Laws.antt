-- ===== src/Transport/Kv/Laws.antt =====
-- What a reader of the store sees: the map from keys to unexpired values, and how each operation
-- changes it.
use oidc4rs.Prelude.{
  ◌+◌, ◌≤◌, ◌<◌, ◌≡◌, refl, inl, inr, true, false, Option, none, some, List, [], ◌∷◌, arith, ltb,
  if◌then◌else◌, Bool-cases, ok, Bytes, eqb, eqb_iff,
}
use oidc4rs.Time.{Duration, Instant, instant_limit, checked_add_fits}
use oidc4rs.Transport.Kv.{Entry, Store, lookup, remove, sweep, live_value, take, put_if_absent}

-- The value that a key holds at an instant.
abbrev pub view : Instant → Store → Bytes → Option Bytes
view now s k = live_value now (lookup k s.entries)

pub lookup-remove {ℓ} :
    {V : Type ℓ} (k j : Bytes) (m : List (Bytes × V))
    → lookup j (remove k m) ≡ (if eqb k j then none else lookup j m)
unfolding lookup remove
lookup-remove k j [] = ground arith
lookup-remove k j ((i, w) ∷ m) =
    ground (arith, eqb_iff k j, eqb_iff i k, eqb_iff i j, lookup-remove k j m)

-- Unique keys: no key stands before another entry of its own.
abbrev pub UniqueKeys : List (Bytes × Entry) → Type 0
UniqueKeys [] = Unit
UniqueKeys ((k, e) ∷ m) = (lookup k m ≡ none) × UniqueKeys m

pub sweep_absent :
    (now : Instant) (k : Bytes) (m : List (Bytes × Entry))
    → lookup k m ≡ none
    → lookup k (sweep now m) ≡ none
unfolding lookup sweep
sweep_absent now k [] h = refl
sweep_absent now k ((i, w) ∷ m) h = ground (arith, sweep_absent now k m)

pub sweep-UniqueKeys :
    (now : Instant) (m : List (Bytes × Entry)) → UniqueKeys m → UniqueKeys (sweep now m)
unfolding sweep
sweep-UniqueKeys now [] u = tt
sweep-UniqueKeys now ((k, e) ∷ m) (u, us) =
    ground (arith, sweep_absent now k m u, sweep-UniqueKeys now m us)

remove_absent :
    (j k : Bytes) (m : List (Bytes × Entry)) → lookup k m ≡ none → lookup k (remove j m) ≡ none
remove_absent j k m h = ground (arith, lookup-remove j k m)

pub remove-UniqueKeys :
    (k : Bytes) (m : List (Bytes × Entry)) → UniqueKeys m → UniqueKeys (remove k m)
unfolding remove
remove-UniqueKeys k [] u = tt
remove-UniqueKeys k ((j, e) ∷ m) (u, us) =
    ground (arith, remove_absent k j m u, remove-UniqueKeys k m us)

-- After a sweep a key is there exactly if its value is live.
lookup-sweep :
    (now : Instant) (k : Bytes) (m : List (Bytes × Entry))
    → UniqueKeys m
    → (live_value now (lookup k m) ≡ none → lookup k (sweep now m) ≡ none)
      × ((old : Bytes)
          → live_value now (lookup k m) ≡ some old
          → (e : Entry) × (lookup k (sweep now m) ≡ some e))
unfolding lookup sweep live_value
lookup-sweep now k [] u = (λ _. refl, λ old h. cc)
lookup-sweep now k ((j, e) ∷ m) (u, us) = (
  λ h. ground (arith, (lookup-sweep now k m us).0, sweep_absent now j m u, eqb_iff j k),
  λ old h. elim (Bool-cases (eqb j k)) [
    | inl same ↦ (e, ground arith)
    | inr other ↦
        let (w, found) = (lookup-sweep now k m us).1 old (ground arith) in (w, ground arith)
  ],
)

-- Sweeping drops what is expired already and nothing else.
pub live-sweep :
    (now later : Instant) (k : Bytes) (m : List (Bytes × Entry))
    → now ≤ later
    → UniqueKeys m
    → live_value later (lookup k (sweep now m)) ≡ live_value later (lookup k m)
unfolding lookup sweep live_value
live-sweep now later k [] le u = refl
live-sweep now later k ((j, e) ∷ m) le (u, us) =
    ground (arith, live-sweep now later k m le us, sweep_absent now j m u, eqb_iff j k)

-- What the operations promise of the map, over a well-formed store whose lock is not poisoned.
pub record IsSound (s : Store) : Type 0 where
  pub unique : UniqueKeys s.entries
  pub usable : s.poisoned ≡ false

module _ (now : Instant) (key value : Bytes) (ttl : Duration) (s : Store) (v : IsSound s) where
  -- Over a sound store, a put that fits the clock and finds no live value creates one, which every
  -- reader sees from then on until its deadline, and the other keys keep theirs.
  pub put_if_absent_vacant :
      0 < ttl
      → now + ttl < instant_limit
      → view now s key ≡ none
      → (later : Instant) (k : Bytes) → now ≤ later
      → ((put_if_absent now key value ttl s).0 ≡ ok true)
        × (view later (put_if_absent now key value ttl s).1 k ≡ (
            if eqb key k
            then (if ltb later (now + ttl) then some value else none)
            else view later s k))
  unfolding put_if_absent lookup live_value
  put_if_absent_vacant pos fits vac later k le =
      let absent = (lookup-sweep now key s.entries v.unique).0 vac in
      (
        ground (arith, checked_add_fits now ttl fits),
        ground (arith, checked_add_fits now ttl fits, live-sweep now later k s.entries le v.unique),
      )

  -- Over a sound store, a put that fits the clock and finds a live value reports so, and no reader
  -- sees a change.
  pub put_if_absent_occupied :
      0 < ttl
      → now + ttl < instant_limit
      → (old : Bytes) → view now s key ≡ some old
      → (later : Instant) (k : Bytes) → now ≤ later
      → ((put_if_absent now key value ttl s).0 ≡ ok false)
        × (view later (put_if_absent now key value ttl s).1 k ≡ view later s k)
  unfolding put_if_absent
  put_if_absent_occupied pos fits old occ later k le =
      let (e, held) = (lookup-sweep now key s.entries v.unique).1 old occ in
      (
        ground (arith, checked_add_fits now ttl fits),
        ground (arith, checked_add_fits now ttl fits, live-sweep now later k s.entries le v.unique),
      )

  pub put_if_absent-IsSound : IsSound (put_if_absent now key value ttl s).1
  unfolding put_if_absent
  put_if_absent-IsSound = ground (arith, sweep-UniqueKeys now s.entries v.unique)

-- Over a sound store a take returns the live value, forgets the key for every reader, leaves the
-- other keys alone, and leaves a sound store.
pub take_lem :
    (now : Instant) (key : Bytes) (s : Store)
    → IsSound s
    → (later : Instant) (k : Bytes)
    → ((take now key s).0 ≡ ok (view now s key))
      × IsSound (take now key s).1
      × (view later (take now key s).1 k ≡ (if eqb key k then none else view later s k))
unfolding take live_value
take_lem now key s v later k = (
  ground arith,
  record {
    unique = ground (arith, remove-UniqueKeys key s.entries v.unique);
    usable = ground arith;
  },
  ground (arith, lookup-remove key k s.entries),
)
