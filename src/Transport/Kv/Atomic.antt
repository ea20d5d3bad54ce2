-- ===== src/Transport/Kv/Atomic.antt =====
-- `InMemoryKvStore` is an `AsyncKvStore`, and keeps what the trait documents.
use oidc4rs.Transport.Store.{KvStore, IsAtomic}
use oidc4rs.Transport.Kv.{Store, put_if_absent, take}
use oidc4rs.Transport.Kv.Laws.{
  IsSound, view, take_lem, put_if_absent_vacant, put_if_absent_occupied, put_if_absent-IsSound,
}

abbrev pub memory : KvStore
memory = record { State = Store; put_if_absent = put_if_absent; take = take }

-- While no thread has panicked with the lock, the in-memory store keeps the contract of the trait.
abbrev pub atomic_memory : IsAtomic memory
atomic_memory = record {
  view = view;
  Answers = IsSound;
  take_ok = λ now key s v. (take_lem now key s v now key).0;
  take_answers = λ now key s v. (take_lem now key s v now key).1;
  view-take = λ now later key k s v. (take_lem now key s v later k).2;
  put_answers = λ now key value ttl s v. put_if_absent-IsSound now key value ttl s v;
  put_vacant = λ now later key value ttl s k v pos fits vac le.
      put_if_absent_vacant now key value ttl s v pos fits vac later k le;
  put_occupied = λ now later key value ttl s old k v pos fits occ le.
      put_if_absent_occupied now key value ttl s v pos fits old occ later k le;
}
