-- ===== src/Transport/Kv/Table.antt =====
-- src/transport/kv.rs: the map of the in-memory store with its order forgotten. `HashMap` gives no
-- order; the list of entries has one, which the quotient below removes.
use oidc4rs.Transport.Store.{KvStore}
use oidc4rs.Transport.Kv.Atomic.{memory}
use mathlib.Core.Quot
use mathlib.Core.Quot.{Quot, Quot-set}
use text.Mathlib.TextEquality.{IsScalar-prop}
use oidc4rs.Transport.Store.Runs.{put_said, take_said, put, taking, replies, Call, Contents}
use oidc4rs.Prelude.{
  ◌≡◌, refl, sym, ap, ◌∙◌, Bool, Option, none, some, List, [], ◌∷◌, arith, ltb, if◌then◌else◌,
  Result, Bytes, eqb_iff,
}
use oidc4rs.Error.{KvError}
use oidc4rs.Transport.Kv.{take, put_if_absent, lookup, sweep, Store, Instant, Entry, Duration}
use oidc4rs.Transport.Kv.Laws.{
  UniqueKeys, remove-UniqueKeys, lookup-remove, sweep_absent, sweep-UniqueKeys,
}

-- A store whose keys are unique.
abbrev pub Keyed : Type 0
Keyed = (s : Store) × UniqueKeys s.entries

-- Two stores hold the same entry for every key, or none, and are poisoned alike.
pub record IsAlike (s t : Keyed) : Type 0 where
  pub same_entry : (k : Bytes) → lookup k s.0.entries ≡ lookup k t.0.entries
  pub same_lock : s.0.poisoned ≡ t.0.poisoned

abbrev live_entry : Instant → Option Entry → Option Entry
live_entry now none = none
live_entry now (some e) = if ltb now e.expires_at then some e else none

lookup-sweep_eq :
    (now : Instant) (k : Bytes) (m : List (Bytes × Entry))
    → UniqueKeys m
    → lookup k (sweep now m) ≡ live_entry now (lookup k m)
unfolding lookup sweep
lookup-sweep_eq now k [] u = refl
lookup-sweep_eq now k ((j, e) ∷ m) (u, us) =
    ground (arith, lookup-sweep_eq now k m us, sweep_absent now j m u, eqb_iff j k)

put-UniqueKeys :
    (now : Instant) (key value : Bytes) (ttl : Duration) (s : Keyed)
    → UniqueKeys (put_if_absent now key value ttl s.0).1.entries
unfolding put_if_absent
put-UniqueKeys now key value ttl (s, u) = ground (arith, sweep-UniqueKeys now s.entries u)

take-UniqueKeys :
    (now : Instant) (key : Bytes) (s : Keyed) → UniqueKeys (take now key s.0).1.entries
unfolding take
take-UniqueKeys now key (s, u) = ground (arith, remove-UniqueKeys key s.entries u)

abbrev put_keyed : Instant → Bytes → Bytes → Duration → Keyed → Result KvError Bool × Keyed
put_keyed now key value ttl s =
    let (r, s') = put_if_absent now key value ttl s.0 in
    (r, (s', put-UniqueKeys now key value ttl s))

abbrev take_keyed : Instant → Bytes → Keyed → Result KvError (Option Bytes) × Keyed
take_keyed now key s = let (r, s') = take now key s.0 in (r, (s', take-UniqueKeys now key s))

-- Stores that are alike reply alike, and stay alike.
put-IsAlike :
    (now : Instant) (key value : Bytes) (ttl : Duration) (s t : Keyed)
    → IsAlike s t
    → ((put_keyed now key value ttl s).0 ≡ (put_keyed now key value ttl t).0)
      × IsAlike (put_keyed now key value ttl s).1 (put_keyed now key value ttl t).1
unfolding put_if_absent lookup
put-IsAlike now key value ttl (s, u) (t, v) h =
    let at_key = h.same_entry key in
    let swept_s = lookup-sweep_eq now key s.entries u in
    let swept_t = lookup-sweep_eq now key t.entries v in
    (
      ground (arith, h.same_lock),
      record {
        same_entry = λ k. ground (
          arith,
          h.same_lock,
          h.same_entry k,
          lookup-sweep_eq now k s.entries u,
          lookup-sweep_eq now k t.entries v,
        );
        same_lock = ground (arith, h.same_lock);
      },
    )

take-IsAlike :
    (now : Instant) (key : Bytes) (s t : Keyed)
    → IsAlike s t
    → ((take_keyed now key s).0 ≡ (take_keyed now key t).0)
      × IsAlike (take_keyed now key s).1 (take_keyed now key t).1
unfolding take
take-IsAlike now key (s, u) (t, v) h = (
  ground (arith, h.same_lock, h.same_entry key),
  record {
    same_entry = λ k. ground (
      arith,
      h.same_lock,
      h.same_entry k,
      lookup-remove key k s.entries,
      lookup-remove key k t.entries,
    );
    same_lock = ground (arith, h.same_lock);
  },
)

-- The table: a store, but for the order of its entries.
abbrev pub Table : Type 0
Table = Quot IsAlike

put_reply_set : IsSet (Result KvError Bool × Table)
put_reply_set = hlevel (Quot-set, IsScalar-prop)

take_reply_set : IsSet (Result KvError (Option Bytes) × Table)
take_reply_set = hlevel (Quot-set, IsScalar-prop)

pub table_put : Instant → Bytes → Bytes → Duration → Table → Result KvError Bool × Table
table_put now key value ttl =
    Quot.lift put_reply_set (λ s. let (r, s') = put_keyed now key value ttl s in (r, Quot.mk s'))
      (λ s t h i. (
        (put-IsAlike now key value ttl s t h).0 i,
        Quot.sound (put-IsAlike now key value ttl s t h).1 i,
      ))

pub table_take : Instant → Bytes → Table → Result KvError (Option Bytes) × Table
table_take now key =
    Quot.lift take_reply_set (λ s. let (r, s') = take_keyed now key s in (r, Quot.mk s'))
      (λ s t h i. ((take-IsAlike now key s t h).0 i, Quot.sound (take-IsAlike now key s t h).1 i))

-- `InMemoryKvStore` over the table.
abbrev pub table : KvStore
table = record { State = Table; put_if_absent = table_put; take = table_take }

-- A run over a store is the run over its table.
replies-table :
    (s : Keyed) (calls : List Call) → replies memory s.0 calls ≡ replies table (Quot.mk s) calls
unfolding replies table_put table_take
replies-table s [] = refl
replies-table s (put now key value ttl ∷ cs) =
    ap (λ rs. put_said (put_keyed now key value ttl s).0 ∷ rs)
      (replies-table (put_keyed now key value ttl s).1 cs)
replies-table s (taking now key ∷ cs) =
    ap (λ rs. take_said (take_keyed now key s).0 ∷ rs) (replies-table (take_keyed now key s).1 cs)

-- Two in-memory stores with unique keys that hold the same entry for every key and are poisoned alike
-- reply alike to every run of calls.
replies-IsAlike :
    (s t : Store) (u : UniqueKeys s.entries) (v : UniqueKeys t.entries) (calls : List Call)
    → IsAlike (s, u) (t, v)
    → replies memory s calls ≡ replies memory t calls
replies-IsAlike s t u v calls h =
    replies-table (s, u) calls
    ∙ (ap (λ q. replies table q calls) (Quot.sound h) ∙ sym (replies-table (t, v) calls))

abbrev pub held : Option Entry → Option (Bytes × Instant)
held none = none
held (some e) = some (e.value, e.expires_at)

-- The map that a store holds, with the deadlines of its values.
abbrev pub contents : Store → Contents
contents s k = held (lookup k s.entries)
