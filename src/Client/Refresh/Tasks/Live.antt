-- ===== src/Client/Refresh/Tasks/Live.antt =====
-- The refresh lock is always given back.
use oidc4rs.Prelude.{
  ℕ, ◌≡◌, refl, ap, ◌∙◌, ◌⊎◌, inl, inr, true, some, arith, ◌==◌, ==_iff, Bool-cases,
}
use oidc4rs.Client.Provider.{ProviderState}
use oidc4rs.Client.Refresh.{Services, Readings, HttpRequest, Outcome, HttpResponse}
use oidc4rs.Client.Refresh.Tasks.{
  Place, returned, Memory, Move, fresh, stale, force, acquire, refreshed, still_stale, snapshot,
  replace, report, give_up, fall_back, cancel_wait, cancel_fetch, leave, Tasks, Turn, task, setter,
  Runs, at_start, then_turn,
}
use oidc4rs.Client.Refresh.Tasks.Refine.{moved_self, moved_other}
use oidc4rs.Client.Refresh.Tasks.Safe.{refreshes}
use oidc4rs.Client.Refresh.Tasks.Alone.{Moves, free, rest, rest-Moves}

module _ {Cache : Type 0} (env : Services Cache) where
  -- After a move, the holder of the lock is the task that moved, or held it before.
  Move-holder :
      {i : ℕ} {m m' : Memory Cache} {q q' : Place Cache} (j : ℕ)
      → Move env i m q m' q'
      → m'.holder ≡ some j
      → ((i ≡ j) × (refreshes q' ≡ true)) ⊎ ((m.holder ≡ some j) × (refreshes q' ≡ refreshes q))
  Move-holder j (fresh now p h f) held = inr (held, refl)
  Move-holder j (stale now p h f) held = inr (held, refl)
  Move-holder j (force m) held = inr (held, refl)
  Move-holder j (acquire mode p) held = inl (ground arith, refl)
  Move-holder j (refreshed now p f) held = cc
  Move-holder j (still_stale now p f) held = inr (held, refl)
  Move-holder j (snapshot p) held = inr (held, refl)
  Move-holder j (replace mode execute wall now p current d jwks f) held = cc
  Move-holder j (report execute p current e f) held = cc
  Move-holder j (give_up execute p current e f) held = inr (held, refl)
  Move-holder j (fall_back now p current e) held = cc
  Move-holder j (cancel_wait m mode) held = inr (held, refl)
  Move-holder j (cancel_fetch mode p current) held = cc
  Move-holder j (leave m o) held = inr (held, refl)

  Turn-refreshes :
      {s t : Tasks Cache} (j : ℕ)
      → Turn env s t
      → (s.memory.holder ≡ some j → refreshes (s.place j) ≡ true)
      → t.memory.holder ≡ some j
      → refreshes (t.place j) ≡ true
  Turn-refreshes j (setter x s) before held = before held
  Turn-refreshes j (task i s m q move) before held = elim (Bool-cases (i == j)) [
    | inl same ↦
        let is : i ≡ j = (==_iff i j).0 same in
        elim (Move-holder j move held) [
          | inl (_, own) ↦ rw (← is, moved_self s.place i q) own
          | inr (was, kept) ↦ rw (← is, moved_self s.place i q) (kept ∙ (rw (← is) at (before was)))
        ]
    | inr other ↦ elim (Move-holder j move held) [
      | inl (is, own) ↦ ground arith
      | inr (was, kept) ↦ rw (moved_other s.place i j q other) (before was)
    ]
  ]

  Runs-refreshes :
      (p : ProviderState Cache) (s : Tasks Cache) (j : ℕ)
      → Runs env p s
      → s.memory.holder ≡ some j
      → refreshes (s.place j) ≡ true
  Runs-refreshes p s j at_start held = cc
  Runs-refreshes p s j (then_turn {s = before} run turn) held =
      Turn-refreshes j turn (λ was. Runs-refreshes p before j run was) held

  -- No deadlock: in every state that the tasks of a client reach, a task that holds the refresh lock
  -- can go on alone, whatever the network answers and the clocks read, until it has returned and
  -- the lock is free, with the result of the rest of its function.
  pub Runs-release :
      (p : ProviderState Cache) (s : Tasks Cache) (j : ℕ)
      (execute : HttpRequest → Outcome HttpResponse) (r : Readings)
      → Runs env p s
      → s.memory.holder ≡ some j
      → Moves env j s.memory
          (s.place j)
          (free env (rest env execute r j (s.place j) s.memory.provider).1)
          (returned (rest env execute r j (s.place j) s.memory.provider).0)
  Runs-release p s j execute r run held =
      let held_by : s.memory ≡ record { provider = s.memory.provider; holder = some j } =
        ap (λ h. record { provider = s.memory.provider; holder = h }) held in
      rw held_by
        (rest-Moves env execute r j s.memory.provider (s.place j) (Runs-refreshes p s j run held))
