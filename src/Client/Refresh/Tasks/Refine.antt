-- ===== src/Client/Refresh/Tasks/Refine.antt =====
-- The tasks, with all their awaits, make only the steps of Client/Refresh/Steps.antt.
use oidc4rs.Prelude.{
  ℕ, ◌≡◌, refl, sym, ap, ◌⊎◌, inl, inr, false, Option, none, some, arith, ◌==◌, ==_iff, Bool-cases,
}
use oidc4rs.Client.Provider.{ProviderState}
use oidc4rs.Client.Refresh.{Services}
use oidc4rs.Client.Refresh.Steps.{
  Shared, Step, set, begin, release, finish, fail, Reaches, start, then_step,
}
use oidc4rs.Client.Refresh.Tasks.{
  if_stale, forced, Place, guarded, fetching, failing, Memory, Move, fresh, stale, force, acquire,
  refreshed, still_stale, snapshot, replace, report, give_up, fall_back, cancel_wait, cancel_fetch,
  leave, Tasks, moved, Turn, task, setter, Runs, at_start, then_turn,
}

module _ {Cache : Type 0} where
  -- The snapshot that a place holds.
  abbrev pub snapshot_of : Place Cache → Option (ProviderState Cache)
  snapshot_of (fetching mode current) = some current
  snapshot_of (failing current e) = some current
  snapshot_of _ = none

  -- The snapshot of the holder of the lock.
  abbrev pub refreshing_of : Option ℕ → (ℕ → Place Cache) → Option (ProviderState Cache)
  refreshing_of none place = none
  refreshing_of (some i) place = snapshot_of (place i)

  -- What the steps see of the tasks.
  abbrev pub shared_of : Memory Cache → (ℕ → Place Cache) → Shared Cache
  shared_of m place = record { provider = m.provider; refreshing = refreshing_of m.holder place }

  pub moved_self : (place : ℕ → Place Cache) (i : ℕ) (q : Place Cache) → moved place i q i ≡ q
  moved_self place i q = ground arith

  pub moved_other :
      (place : ℕ → Place Cache) (i j : ℕ) (q : Place Cache)
      → (i == j) ≡ false
      → moved place i q j ≡ place j
  moved_other place i j q h = ground arith

  -- A move that keeps the holder and holds the same snapshot as before is not seen.
  refreshing_of-moved :
      (h : Option ℕ) (place : ℕ → Place Cache) (i : ℕ) (q : Place Cache)
      → snapshot_of (place i) ≡ snapshot_of q
      → refreshing_of h place ≡ refreshing_of h (moved place i q)
  refreshing_of-moved none place i q e = refl
  refreshing_of-moved (some j) place i q e = elim (Bool-cases (i == j)) [
    | inl same ↦ let is : i ≡ j = (==_iff i j).0 same in rw (← is, moved_self place i q) e
    | inr other ↦ rw (moved_other place i j q other) refl
  ]

module _ {Cache : Type 0} (env : Services Cache) where
  -- The start of a refresh, between any two places that hold none and the snapshot.
  Step-begin :
      (p : ProviderState Cache) (before after : Option (ProviderState Cache))
      → before ≡ none
      → after ≡ some p
      → Step env
          (record { provider = p; refreshing = before })
          (record { provider = p; refreshing = after })
  Step-begin p before after b a = rw (b, a) (begin p)

  Move-Step :
      (i : ℕ) {m m' : Memory Cache} {q q' : Place Cache} (place : ℕ → Place Cache)
      → Move env i m q m' q'
      → place i ≡ q
      → Step env (shared_of m place) (shared_of m' (moved place i q'))
        ⊎ (shared_of m place ≡ shared_of m' (moved place i q'))
  Move-Step i place (fresh now p h f) e = inr (
      ap (λ o. record { provider = p; refreshing = o })
        (refreshing_of-moved h place i _ (ap snapshot_of e)))
  Move-Step i place (stale now p h f) e = inr (
      ap (λ o. record { provider = p; refreshing = o })
        (refreshing_of-moved h place i _ (ap snapshot_of e)))
  Move-Step i place (force m) e = inr (
      ap (λ o. record { provider = m.provider; refreshing = o })
        (refreshing_of-moved m.holder place i _ (ap snapshot_of e)))
  Move-Step i place (cancel_wait m mode) e = inr (
      ap (λ o. record { provider = m.provider; refreshing = o })
        (refreshing_of-moved m.holder place i _ (ap snapshot_of e)))
  Move-Step i place (cancel_fetch mode p current) e = inl (rw e (release p current))
  Move-Step i place (leave m o) e = inr (
      ap (λ o. record { provider = m.provider; refreshing = o })
        (refreshing_of-moved m.holder place i _ (ap snapshot_of e)))
  Move-Step i place (acquire mode p) e = inr (
      ap (λ o. record { provider = p; refreshing = o })
        (sym (ap snapshot_of (moved_self place i (guarded mode)))))
  Move-Step i place (refreshed now p f) e =
      inr (ap (λ o. record { provider = p; refreshing = o }) (ap snapshot_of e))
  Move-Step i place (still_stale now p f) e = inl (
      Step-begin p _ _ (ap snapshot_of e)
        (ap snapshot_of (moved_self place i (fetching if_stale p))))
  Move-Step i place (snapshot p) e = inl (
      Step-begin p _ _ (ap snapshot_of e) (ap snapshot_of (moved_self place i (fetching forced p))))
  Move-Step i place (replace mode execute wall now p current d jwks f) e =
      inl (rw e (finish execute wall now p current d jwks f))
  Move-Step i place (report execute p current x f) e = inl (rw e (release p current))
  Move-Step i place (give_up execute p current x f) e = inr (
      ap (λ o. record { provider = p; refreshing = o })
        (refreshing_of-moved (some i) place i _ (ap snapshot_of e)))
  Move-Step i place (fall_back now p current x) e = inl (rw e (fail now x p current))

  -- Every turn of the tasks is one step of the client's shared state, or is not seen in it.
  pub Turn-Step :
      {s t : Tasks Cache}
      → Turn env s t
      → Step env (shared_of s.memory s.place) (shared_of t.memory t.place)
        ⊎ (shared_of s.memory s.place ≡ shared_of t.memory t.place)
  Turn-Step (task i s m q move) = Move-Step i s.place move refl
  Turn-Step (setter x s) = inl (set x s.memory.provider (refreshing_of s.memory.holder s.place))

  -- Whatever state the tasks of a client reach, the steps of its shared state reach what is shared
  -- of it.
  pub Runs-Reaches :
      (p : ProviderState Cache) (s : Tasks Cache)
      → Runs env p s
      → Reaches env p (shared_of s.memory s.place)
  Runs-Reaches p s at_start = start
  Runs-Reaches p s (then_turn {s = before} run turn) = elim (Turn-Step turn) [
    | inl step ↦ then_step (Runs-Reaches p before run) step
    | inr same ↦ rw (← same) (Runs-Reaches p before run)
  ]
