-- ===== src/Transport/Kv/Refine.antt =====
-- The in-memory store against the abstract map.
use oidc4rs.Prelude.{◌≡◌, refl, none, List}
use oidc4rs.Transport.Kv.{new, lookup, live_value, Instant}
use oidc4rs.Transport.Kv.Laws.{IsSound}
use oidc4rs.Transport.Kv.Atomic.{memory, atomic_memory}
use oidc4rs.Transport.Store.Runs.{Call, Reads, replies, spec_replies, AreOrdered, replies_refine}

pub new-IsSound : IsSound new
new-IsSound = record { unique = tt; usable = refl }

new-Reads : (from : Instant) → Reads memory atomic_memory from new (λ k. none)
unfolding lookup live_value
new-Reads from = record { answers = new-IsSound; same = λ later k h. refl }

-- From a new in-memory store, every run of calls whose clock never goes back and whose lifetimes are
-- positive and fit it gets the replies of a map from keys to values with deadlines.
pub replies-memory :
    (from : Instant) (calls : List Call)
    → AreOrdered from calls
    → replies memory new calls ≡ spec_replies (λ k. none) calls
replies-memory from calls o =
    replies_refine memory atomic_memory from new (λ k. none) calls (new-Reads from) o
