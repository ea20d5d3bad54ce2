-- ===== src/Tests/Store.antt =====
-- Runs of the in-memory store.
use mathlib.Core.Quot
use oidc4rs.Prelude.{◌≡◌, refl, false, none, List, [], ◌∷◌, arith, codes}
use oidc4rs.Transport.Kv.{Store, new, lookup}
use oidc4rs.Transport.Kv.Laws.{IsSound}
use oidc4rs.Transport.Store.Runs.{Call, put, taking, replies, spec_replies}
use oidc4rs.Transport.Kv.Atomic.{memory}
use oidc4rs.Transport.Kv.Refine.{replies-memory}

abbrev holding : Store
holding = record {
  entries = (codes "a", record { value = codes "1"; expires_at = 50 }) ∷ [];
  poisoned = false;
}

holding-IsSound : IsSound holding
unfolding lookup
holding-IsSound = record { unique = (refl, tt); usable = refl }

abbrev two_takers : List Call
two_takers = put 10 (codes "a") (codes "1") 40 ∷ taking 11 (codes "a") ∷ taking 12 (codes "a") ∷ []

replies-memory_example : replies memory new two_takers ≡ spec_replies (λ k. none) two_takers
replies-memory_example =
    replies-memory 10 two_takers
      (omega arith, omega arith, omega arith, (omega arith, (omega arith, tt)))

-- Of the two entries the second has expired and is still there.
abbrev leftover : Store
leftover = record {
  entries =
      (codes "a", record { value = codes "1"; expires_at = 50 })
      ∷ (codes "b", record { value = codes "2"; expires_at = 5 })
      ∷ [];
  poisoned = false;
}

abbrev four_calls : List Call
four_calls =
    put 10 (codes "a") (codes "3") 40
    ∷ taking 11 (codes "a")
    ∷ put 12 (codes "b") (codes "4") 7
    ∷ taking 19 (codes "b")
    ∷ []
