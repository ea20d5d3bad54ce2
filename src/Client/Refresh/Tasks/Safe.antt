-- ===== src/Client/Refresh/Tasks/Safe.antt =====
-- `metadata_refresh_lock` lets one task at a time refresh.
use oidc4rs.Prelude.{
  ℕ, ◌≡◌, refl, inl, inr, Bool, true, false, some, arith, ◌==◌, ==_iff, Bool-cases,
}
use oidc4rs.Client.Provider.{ProviderState}
use oidc4rs.Client.Refresh.{Services}
use oidc4rs.Client.Refresh.Tasks.{
  Place, guarded, fetching, failing, Memory, Move, fresh, stale, force, acquire, refreshed,
  still_stale, snapshot, replace, report, give_up, fall_back, cancel_wait, cancel_fetch, leave,
  Tasks, Turn, task, setter, Runs, at_start, then_turn,
}
use oidc4rs.Client.Refresh.Tasks.Refine.{moved_other}

-- The places between the lock's acquisition and its release.
abbrev pub refreshes : {Cache : Type 0} → Place Cache → Bool
refreshes (guarded mode) = true
refreshes (fetching mode current) = true
refreshes (failing current e) = true
refreshes _ = false

module _ {Cache : Type 0} (env : Services Cache) where
  Move-own :
      {i : ℕ} {m m' : Memory Cache} {q q' : Place Cache}
      → Move env i m q m' q'
      → refreshes q' ≡ true
      → m'.holder ≡ some i
  Move-own (fresh now p h f) r = cc
  Move-own (stale now p h f) r = cc
  Move-own (force m) r = cc
  Move-own (acquire mode p) r = refl
  Move-own (refreshed now p f) r = cc
  Move-own (still_stale now p f) r = refl
  Move-own (snapshot p) r = refl
  Move-own (replace mode execute wall now p current d jwks f) r = cc
  Move-own (report execute p current e f) r = cc
  Move-own (give_up execute p current e f) r = refl
  Move-own (fall_back now p current e) r = cc
  Move-own (cancel_wait m mode) r = cc
  Move-own (cancel_fetch mode p current) r = cc
  Move-own (leave m o) r = cc

  -- No move takes the lock from another task.
  Move-other :
      {i : ℕ} {m m' : Memory Cache} {q q' : Place Cache} (j : ℕ)
      → Move env i m q m' q'
      → (i == j) ≡ false
      → m.holder ≡ some j
      → m'.holder ≡ some j
  Move-other j (fresh now p h f) other held = held
  Move-other j (stale now p h f) other held = held
  Move-other j (force m) other held = held
  Move-other j (acquire mode p) other held = cc
  Move-other j (refreshed now p f) other held = ground arith
  Move-other j (still_stale now p f) other held = held
  Move-other j (snapshot p) other held = held
  Move-other j (replace mode execute wall now p current d jwks f) other held = ground arith
  Move-other j (report execute p current e f) other held = ground arith
  Move-other j (give_up execute p current e f) other held = held
  Move-other j (fall_back now p current e) other held = ground arith
  Move-other j (cancel_wait m mode) other held = held
  Move-other j (cancel_fetch mode p current) other held = ground arith
  Move-other j (leave m o) other held = held

  Turn-holder :
      {s t : Tasks Cache}
      → Turn env s t
      → ((j : ℕ) → refreshes (s.place j) ≡ true → s.memory.holder ≡ some j)
      → (j : ℕ) → refreshes (t.place j) ≡ true
      → t.memory.holder ≡ some j
  Turn-holder (setter x s) before j r = before j r
  Turn-holder (task i s m q move) before j r = elim (Bool-cases (i == j)) [
    | inl same ↦ let is : i ≡ j = (==_iff i j).0 same in rw (← is) (Move-own move (ground arith))
    | inr other ↦ Move-other j move other (before j (rw (← moved_other s.place i j q other) r))
  ]

  -- In every run, a task between the acquisition of the refresh lock and its release is its holder.
  pub Runs-holder :
      (p : ProviderState Cache) (s : Tasks Cache)
      → Runs env p s
      → (j : ℕ) → refreshes (s.place j) ≡ true
      → s.memory.holder ≡ some j
  Runs-holder p s at_start j r = cc
  Runs-holder p s (then_turn {s = before} run turn) j r =
      Turn-holder turn (Runs-holder p before run) j r

  -- In every run of any number of tasks, two tasks that are between the acquisition of the refresh
  -- lock and its release are the same task.
  pub Runs-exclusive :
      (p : ProviderState Cache) (s : Tasks Cache)
      → Runs env p s
      → (i j : ℕ) → refreshes (s.place i) ≡ true
      → refreshes (s.place j) ≡ true
      → i ≡ j
  Runs-exclusive p s run i j in_i in_j =
      let a = Runs-holder p s run i in_i in let b = Runs-holder p s run j in_j in ground arith
