-- ===== src/Client/Refresh/Tasks.antt =====
-- src/client.rs: `refresh_metadata_if_stale` and `refresh_metadata` as the program of a task, with a
-- place for each await: the refresh lock, and the network. Any number of tasks of one client run
-- it, together with the setters, and each move is one section between awaits or locks.
pub mod Refine
pub mod Safe
pub mod Alone
pub mod Live
pub mod Documents
use oidc4rs.Error.{OidcError}
use oidc4rs.Prelude.{ℕ, ◌≡◌, true, false, Option, none, some, ◌==◌, if◌then◌else◌, ok, err}
use oidc4rs.Client.Provider.{
  ProviderState, metadata_needs_refresh, publish, metadata_after_refresh_error,
}
use oidc4rs.Client.Provider.Setting.{Setting, configure}
use oidc4rs.Client.Refresh.{
  Services, fetch_replacement, Instant, Outcome, HttpRequest, HttpResponse, SystemTime,
  DiscoveredMetadata,
}
use oidc4rs.Metadata.Provider.{ProviderMetadata}

-- Which of the two functions a task runs.
pub data Mode : Type 0 where
  if_stale forced : Mode

-- Where a task is.
pub data Place (Cache : Type 0) : Type 0 where
  -- Outside of both functions.
  idle : Place Cache
  -- At `metadata_refresh_lock.lock().await`.
  waiting : Mode → Place Cache
  -- Behind it, with the guard.
  guarded : Mode → Place Cache
  -- In `refresh_metadata_from`, before its write section, with the snapshot it was given.
  fetching : Mode → ProviderState Cache → Place Cache
  -- In `metadata_after_refresh_error`, before its write section.
  failing : ProviderState Cache → OidcError → Place Cache
  -- Returned, with the guard dropped.
  returned : Outcome ProviderMetadata → Place Cache

-- What the tasks share: the provider state, and who holds the refresh lock.
pub record Memory (Cache : Type 0) : Type 0 where
  pub provider : ProviderState Cache
  pub holder : Option ℕ

module _ {Cache : Type 0} (env : Services Cache) where
  -- A move of task `i`.
  pub data Move (i : ℕ) : Memory Cache → Place Cache → Memory Cache → Place Cache → Type 0 where
    -- The first check of `refresh_metadata_if_stale`.
    fresh :
        (now : Instant) (p : ProviderState Cache) (h : Option ℕ)
        → metadata_needs_refresh now p ≡ false
        → Move i
            (record { provider = p; holder = h })
            idle
            (record { provider = p; holder = h })
            (returned (ok p.metadata))
    stale :
        (now : Instant) (p : ProviderState Cache) (h : Option ℕ)
        → metadata_needs_refresh now p ≡ true
        → Move i
            (record { provider = p; holder = h })
            idle
            (record { provider = p; holder = h })
            (waiting if_stale)
    -- The call of `refresh_metadata`.
    force : (m : Memory Cache) → Move i m idle m (waiting forced)
    acquire :
        (mode : Mode) (p : ProviderState Cache)
        → Move i
            (record { provider = p; holder = none })
            (waiting mode)
            (record { provider = p; holder = some i })
            (guarded mode)
    -- The second check, behind the lock.
    refreshed :
        (now : Instant) (p : ProviderState Cache)
        → metadata_needs_refresh now p ≡ false
        → Move i
            (record { provider = p; holder = some i })
            (guarded if_stale)
            (record { provider = p; holder = none })
            (returned (ok p.metadata))
    still_stale :
        (now : Instant) (p : ProviderState Cache)
        → metadata_needs_refresh now p ≡ true
        → Move i
            (record { provider = p; holder = some i })
            (guarded if_stale)
            (record { provider = p; holder = some i })
            (fetching if_stale p)
    snapshot :
        (p : ProviderState Cache)
        → Move i
            (record { provider = p; holder = some i })
            (guarded forced)
            (record { provider = p; holder = some i })
            (fetching forced p)
    -- The network has answered with a replacement, which is published.
    replace :
        (mode : Mode) (execute : HttpRequest → Outcome HttpResponse) (wall : SystemTime)
        (now : Instant) (p current : ProviderState Cache) (d : DiscoveredMetadata) (jwks : Cache)
        → fetch_replacement env execute current ≡ ok (d, jwks)
        → Move i
            (record { provider = p; holder = some i })
            (fetching mode current)
            (record { provider = publish env.http_date wall now d jwks p; holder = none })
            (returned (ok d.metadata))
    -- The fetch has failed: a forced refresh reports it.
    report :
        (execute : HttpRequest → Outcome HttpResponse) (p current : ProviderState Cache)
        (e : OidcError)
        → fetch_replacement env execute current ≡ err e
        → Move i
            (record { provider = p; holder = some i })
            (fetching forced current)
            (record { provider = p; holder = none })
            (returned (err e))
    give_up :
        (execute : HttpRequest → Outcome HttpResponse) (p current : ProviderState Cache)
        (e : OidcError)
        → fetch_replacement env execute current ≡ err e
        → Move i
            (record { provider = p; holder = some i })
            (fetching if_stale current)
            (record { provider = p; holder = some i })
            (failing current e)
    fall_back :
        (now : Instant) (p current : ProviderState Cache) (e : OidcError)
        → Move i
            (record { provider = p; holder = some i })
            (failing current e)
            (record { provider = (metadata_after_refresh_error now e p).1; holder = none })
            (returned (metadata_after_refresh_error now e p).0)
    -- A caller may drop the future at an await, and the guard with it.
    cancel_wait : (m : Memory Cache) (mode : Mode) → Move i m (waiting mode) m idle
    cancel_fetch :
        (mode : Mode) (p current : ProviderState Cache)
        → Move i
            (record { provider = p; holder = some i })
            (fetching mode current)
            (record { provider = p; holder = none })
            idle
    leave : (m : Memory Cache) (o : Outcome ProviderMetadata) → Move i m (returned o) m idle

-- A client with its tasks, by number.
pub record Tasks (Cache : Type 0) : Type 0 where
  pub memory : Memory Cache
  pub place : ℕ → Place Cache

-- The places after a move of task `i`.
abbrev pub moved : {Cache : Type 0} → (ℕ → Place Cache) → ℕ → Place Cache → ℕ → Place Cache
moved place i q j = if i == j then q else place j

module _ {Cache : Type 0} (env : Services Cache) where
  pub data Turn : Tasks Cache → Tasks Cache → Type 0 where
    task :
        (i : ℕ) (s : Tasks Cache) (m : Memory Cache) (q : Place Cache)
        → Move env i s.memory (s.place i) m q
        → Turn s (record { memory = m; place = moved s.place i q })
    setter :
        (x : Setting) (s : Tasks Cache)
        → Turn s (record {
          memory = record { provider = configure x s.memory.provider; holder = s.memory.holder };
          place = s.place;
        })

  -- A new client: no task is in the functions, and the lock is free.
  abbrev pub initial : ProviderState Cache → Tasks Cache
  initial p = record { memory = record { provider = p; holder = none }; place = λ i. idle }

  -- The runs of a client.
  pub data Runs (p : ProviderState Cache) : Tasks Cache → Type 0 where
    at_start : Runs p (initial p)
    then_turn : {s t : Tasks Cache} → Runs p s → Turn s t → Runs p t
