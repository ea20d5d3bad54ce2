-- ===== src/Client/Refresh/Tasks/Alone.antt =====
-- A task that runs alone, and the end of a refresh that holds the lock.
use oidc4rs.Prelude.{
  ℕ, ◌≡◌, inl, inr, true, not, none, some, if◌then◌else◌, Bool-cases, Result-cases, ok,
}
use oidc4rs.Client.Provider.{ProviderState, metadata_needs_refresh, metadata_after_refresh_error}
use oidc4rs.Client.Refresh.{
  Services, Readings, refresh_metadata_if_stale, refresh_metadata, refresh_metadata_from,
  settle_refresh, fetch_replacement, HttpRequest, Outcome, HttpResponse, ProviderMetadata,
}
use oidc4rs.Client.Refresh.Tasks.Safe.{refreshes}
use oidc4rs.Client.Refresh.Tasks.{
  failing, waiting, if_stale, forced, Place, idle, guarded, fetching, returned, Memory, Move, fresh,
  stale, force, acquire, refreshed, still_stale, snapshot, replace, report, give_up, fall_back,
}

module _ {Cache : Type 0} (env : Services Cache) where
  -- Moves of one task in a row, with no turn of another in between.
  pub data Moves (i : ℕ) : Memory Cache → Place Cache → Memory Cache → Place Cache → Type 0 where
    stop : {m : Memory Cache} {q : Place Cache} → Moves i m q m q
    go :
        {m m' m'' : Memory Cache} {q q' q'' : Place Cache}
        → Move env i m q m' q'
        → Moves i m' q' m'' q''
        → Moves i m q m'' q''

  abbrev pub free : ProviderState Cache → Memory Cache
  free p = record { provider = p; holder = none }

  module _ (execute : HttpRequest → Outcome HttpResponse) (r : Readings) (i : ℕ) where
    -- From the snapshot to the end, of both functions.
    fetching_forced :
        (p current : ProviderState Cache)
        → Moves i
            (record { provider = p; holder = some i })
            (fetching forced current)
            (free (refresh_metadata_from env execute r current p).1)
            (returned (refresh_metadata_from env execute r current p).0)
    unfolding refresh_metadata_from
    fetching_forced p current = elim (Result-cases (fetch_replacement env execute current)) [
      | inl ((d, jwks), done) ↦
          rw (refresh_metadata_from, done)
            (go (replace forced execute r.wall r.published p current d jwks done) stop)
      | inr (e, failed) ↦
          rw (refresh_metadata_from, failed) (go (report execute p current e failed) stop)
    ]

    fetching_if_stale :
        (p current : ProviderState Cache)
        → Moves i
            (record { provider = p; holder = some i })
            (fetching if_stale current)
            (free (settle_refresh r (refresh_metadata_from env execute r current p)).1)
            (returned (settle_refresh r (refresh_metadata_from env execute r current p)).0)
    unfolding refresh_metadata_from settle_refresh
    fetching_if_stale p current = elim (Result-cases (fetch_replacement env execute current)) [
      | inl ((d, jwks), done) ↦
          rw (refresh_metadata_from, done)
            (go (replace if_stale execute r.wall r.published p current d jwks done) stop)
      | inr (e, failed) ↦
          rw (refresh_metadata_from, failed)
            (go (give_up execute p current e failed) (go (fall_back r.failed p current e) stop))
    ]

    -- What the holder of the lock returns and leaves, from its place on.
    abbrev pub rest :
        Place Cache → ProviderState Cache → Outcome ProviderMetadata × ProviderState Cache
    rest (guarded if_stale) p =
        if not (metadata_needs_refresh r.rechecked p)
        then (ok p.metadata, p)
        else settle_refresh r (refresh_metadata_from env execute r p p)
    rest (guarded forced) p = refresh_metadata_from env execute r p p
    rest (fetching if_stale current) p =
        settle_refresh r (refresh_metadata_from env execute r current p)
    rest (fetching forced current) p = refresh_metadata_from env execute r current p
    rest (failing current e) p = metadata_after_refresh_error r.failed e p
    rest _ p = (ok p.metadata, p)

    guarded_if_stale :
        (p : ProviderState Cache)
        → Moves i
            (record { provider = p; holder = some i })
            (guarded if_stale)
            (free (rest (guarded if_stale) p).1)
            (returned (rest (guarded if_stale) p).0)
    guarded_if_stale p = elim (Bool-cases (metadata_needs_refresh r.rechecked p)) [
      | inl second ↦ rw second (go (still_stale r.rechecked p second) (fetching_if_stale p p))
      | inr second ↦ rw second (go (refreshed r.rechecked p second) stop)
    ]

    -- The holder of the lock goes on alone to its end.
    pub rest-Moves :
        (p : ProviderState Cache) (q : Place Cache)
        → refreshes q ≡ true
        → Moves i
            (record { provider = p; holder = some i })
            q
            (free (rest q p).1)
            (returned (rest q p).0)
    rest-Moves p (guarded if_stale) h = guarded_if_stale p
    rest-Moves p (guarded forced) h = go (snapshot p) (fetching_forced p p)
    rest-Moves p (fetching if_stale current) h = fetching_if_stale p current
    rest-Moves p (fetching forced current) h = fetching_forced p current
    rest-Moves p (failing current e) h = go (fall_back r.failed p current e) stop
    rest-Moves p idle h = cc
    rest-Moves p (waiting mode) h = cc
    rest-Moves p (returned o) h = cc

    alone_if_stale :
        (p : ProviderState Cache)
        → Moves i
            (free p)
            idle
            (free (refresh_metadata_if_stale env execute r p).1)
            (returned (refresh_metadata_if_stale env execute r p).0)
    unfolding refresh_metadata_if_stale
    alone_if_stale p = elim (Bool-cases (metadata_needs_refresh r.checked p)) [
      | inl first ↦
          rw first
            (go (stale r.checked p none first) (go (acquire if_stale p) (guarded_if_stale p)))
      | inr first ↦ rw first (go (fresh r.checked p none first) stop)
    ]

    -- A task that no other one interrupts goes from a free lock to a free lock, and returns and
    -- leaves in the provider state what the sequential function does on the same answers and clock
    -- readings: `refresh_metadata_if_stale` for a check, `refresh_metadata` for a forced refresh.
    pub alone-Moves :
        (p : ProviderState Cache)
        → Moves i
            (free p)
            idle
            (free (refresh_metadata_if_stale env execute r p).1)
            (returned (refresh_metadata_if_stale env execute r p).0)
          × Moves i
              (free p)
              idle
              (free (refresh_metadata env execute r p).1)
              (returned (refresh_metadata env execute r p).0)
    unfolding refresh_metadata
    alone-Moves p = (
      alone_if_stale p,
      go (force (free p)) (go (acquire forced p) (go (snapshot p) (fetching_forced p p))),
    )
