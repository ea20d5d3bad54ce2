-- ===== src/Client/Refresh/Tasks/Documents.antt =====
-- The documents that the refreshes of several tasks return.
use oidc4rs.Metadata.Provider.{IsValid}
use oidc4rs.Types.Url.{IssuerUrl}
use oidc4rs.Prelude.{ℕ, ◌≡◌, refl, inl, inr, ◌==◌, ==_iff, Bool-cases, ok}
use oidc4rs.Client.Provider.{ProviderState, metadata_after_refresh_error}
use oidc4rs.Client.Provider.Fresh.{metadata_after_refresh_error_lem}
use oidc4rs.Client.Refresh.{Services, ProviderMetadata, Instant}
use oidc4rs.Client.Refresh.Laws.{IsSound, fetch_replacement-Serves}
use oidc4rs.Client.Refresh.Steps.{Reaches-IsSoundShared, IsSoundShared, Created, Created-IsSound}
use oidc4rs.Client.Refresh.Tasks.{
  Place, returned, Memory, Move, fresh, stale, force, acquire, refreshed, still_stale, snapshot,
  replace, report, give_up, fall_back, cancel_wait, cancel_fetch, leave, Tasks, Turn, task, setter,
  Runs, at_start, then_turn, OidcError,
}
use oidc4rs.Client.Refresh.Tasks.Refine.{Runs-Reaches, shared_of, moved_self, moved_other}

-- A valid document of the issuer.
abbrev pub IsDocumentOf : IssuerUrl → ProviderMetadata → Type 0
IsDocumentOf issuer m = IsValid m × (m.issuer ≡ issuer)

-- What was returned at a place, if a document, is one of the issuer.
abbrev ReturnsDocumentOf : {Cache : Type 0} → IssuerUrl → Place Cache → Type 0
ReturnsDocumentOf issuer (returned (ok m)) = IsDocumentOf issuer m
ReturnsDocumentOf issuer _ = Unit

module _ {Cache : Type 0} (env : Services Cache) (issuer : IssuerUrl) where
  IsSound-document :
      (p : ProviderState Cache) → IsSound env issuer p → IsDocumentOf issuer p.metadata
  IsSound-document p sound = (sound.serves.valid, sound.serves.issued)

  fall_back-document :
      (now : Instant) (e : OidcError) (p : ProviderState Cache)
      → IsDocumentOf issuer p.metadata
      → ReturnsDocumentOf {Cache = Cache} issuer (returned (metadata_after_refresh_error now e p).0)
  fall_back-document now e p own = elim (metadata_after_refresh_error_lem now e p) [
    | inl (deadline, is, ahead, kept, a, b, c) ↦ rw kept own
    | inr (failed, passed) ↦ rw failed tt
  ]

  Move-document :
      {i : ℕ} {m m' : Memory Cache} {q q' : Place Cache} (place : ℕ → Place Cache)
      → Move env i m q m' q'
      → place i ≡ q
      → IsSoundShared env issuer (shared_of m place)
      → ReturnsDocumentOf issuer q'
  Move-document place (fresh now p h f) e w = IsSound-document p w.sound
  Move-document place (stale now p h f) e w = tt
  Move-document place (force m) e w = tt
  Move-document place (acquire mode p) e w = tt
  Move-document place (refreshed now p f) e w = IsSound-document p w.sound
  Move-document place (still_stale now p f) e w = tt
  Move-document place (snapshot p) e w = tt
  Move-document {i} place (replace mode execute wall now p current d jwks f) e w =
      let held : IsSound env issuer current = rw e at w.snapshot in
      let served = fetch_replacement-Serves env execute issuer current d jwks held.serves f in
      (served.valid, served.issued)
  Move-document place (report execute p current x f) e w = tt
  Move-document place (give_up execute p current x f) e w = tt
  Move-document place (fall_back now p current x) e w =
      fall_back-document now x p (IsSound-document p w.sound)
  Move-document place (cancel_wait m mode) e w = tt
  Move-document place (cancel_fetch mode p current) e w = tt
  Move-document place (leave m o) e w = tt

  Turn-document :
      {s t : Tasks Cache}
      → Turn env s t
      → IsSoundShared env issuer (shared_of s.memory s.place)
      → ((j : ℕ) → ReturnsDocumentOf issuer (s.place j))
      → (j : ℕ) → ReturnsDocumentOf issuer (t.place j)
  Turn-document (setter x s) w before j = before j
  Turn-document (task i s m q move) w before j = elim (Bool-cases (i == j)) [
    | inl same ↦
        let is : i ≡ j = (==_iff i j).0 same in
        rw (← is, moved_self s.place i q) (Move-document s.place move refl w)
    | inr other ↦ rw (moved_other s.place i j q other) (before j)
  ]

  Runs-ReturnsDocumentOf :
      (p : ProviderState Cache) (s : Tasks Cache)
      → IsSound env issuer p
      → Runs env p s
      → (j : ℕ) → ReturnsDocumentOf issuer (s.place j)
  Runs-ReturnsDocumentOf p s w at_start j = tt
  Runs-ReturnsDocumentOf p s w (then_turn {s = before} run turn) j =
      Turn-document turn (Reaches-IsSoundShared env issuer p _ w (Runs-Reaches env p before run))
        (Runs-ReturnsDocumentOf p before w run) j

  -- However a client for an issuer was created, in every interleaving of its tasks, each document
  -- that a refresh returns is a valid document of that issuer.
  pub Runs-document :
      (p : ProviderState Cache) (s : Tasks Cache) (j : ℕ) (m : ProviderMetadata)
      → Created env issuer p
      → Runs env p s
      → s.place j ≡ returned (ok m)
      → IsDocumentOf issuer m
  Runs-document p s j m created run is =
      rw is at (Runs-ReturnsDocumentOf p s (Created-IsSound env issuer p created) run j)
