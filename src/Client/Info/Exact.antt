-- ===== src/Client/Info/Exact.antt =====
-- src/client.rs: `fetch_userinfo` with its refresh, and what it leaves.
use oidc4rs.Prelude.{
  ◌≡◌, refl, sym, ◌∙◌, ◌↔◌, inl, inr, Option, Result, Result-cases, ok, err, Bytes,
}
use mathlib.Core.Path.{subst}
use oidc4rs.Error.{OidcError, Outcome, Message}
use oidc4rs.Client.Info.{
  fetch_userinfo, Primitives, HttpRequest, HttpResponse, ProviderState, ProviderMetadata,
}
use oidc4rs.Client.Info.Outcomes.{Fetches, Fetches-fetch, Fetches-total}
use oidc4rs.Client.Complete.{Readers, RelyingParty}
use oidc4rs.Client.Refresh.{Services, Readings, refresh_metadata_if_stale}
use oidc4rs.Client.Refresh.Outcomes.{Refreshes, refresh_metadata_if_stale_iff}
use oidc4rs.Token.UserInfo.{UserInfo}

module _ {Cache Claims Key Jws Json : Type 0} (env : Services Cache)
    (prims : Primitives Claims Key Jws Json) (readers : Readers)
    (read_info : Bytes → Result Message UserInfo)
    (select_of : Cache → Option Bytes → Bytes → Result Message (Option Key)) (rp : RelyingParty)
    (execute : HttpRequest → Outcome HttpResponse) (r : Readings) (access_token subject : Bytes)
    (p : ProviderState Cache) where
  pub data Asks : Outcome UserInfo → ProviderState Cache → Type 0 where
    not_refreshed :
        (e : OidcError) (p' : ProviderState Cache)
        → Refreshes env execute r p (err e) p'
        → Asks (err e) p'
    refreshed :
        (m : ProviderMetadata) (p' : ProviderState Cache) (o : Outcome UserInfo)
        → Refreshes env execute r p (ok m) p'
        → Fetches prims readers read_info
            (select_of p'.jwks)
            rp
            p'.metadata
            execute
            access_token
            subject
            o
        → Asks o p'

  Asks-run :
      {o : Outcome UserInfo} {p' : ProviderState Cache}
      → Asks o p'
      → fetch_userinfo env prims readers read_info select_of rp execute r access_token subject p
        ≡ (o, p')
  unfolding fetch_userinfo
  Asks-run (not_refreshed e p' f) =
      rw (fetch_userinfo, (refresh_metadata_if_stale_iff env execute r p _ _).1 f) refl
  Asks-run (refreshed m p' o f x) =
      rw
        (
          fetch_userinfo,
          (refresh_metadata_if_stale_iff env execute r p _ _).1 f,
          Fetches-fetch prims readers read_info (select_of p'.jwks) rp p'.metadata execute
              access_token subject x,
        )
        refl

  Asks-total : (o : Outcome UserInfo) × (p' : ProviderState Cache) × Asks o p'
  Asks-total =
      let run = refresh_metadata_if_stale env execute r p in
      let ends = (refresh_metadata_if_stale_iff env execute r p run.0 run.1).0 refl in
      elim (Result-cases run.0) [
        | inr (e, is) ↦
            (_, _, not_refreshed e run.1 (subst (λ o. Refreshes env execute r p o run.1) is ends))
        | inl (m, is) ↦
            let (o, x) =
              Fetches-total prims readers read_info (select_of run.1.jwks) rp run.1.metadata execute
                access_token subject in
            (_, _, refreshed m run.1 o (subst (λ q. Refreshes env execute r p q run.1) is ends) x)
      ]

  -- The UserInfo request ends with this result and this state exactly if it ends in one of these
  -- ways: with the error of the refresh, and what that leaves; or, under the document that the
  -- refresh leaves, for want of an endpoint, with the error of the network, with the one that an
  -- answer of another status than 200 is read as, with the error of the reading of the body, as
  -- signed or as plain JSON by its declared type, for another subject than the expected one, or
  -- with what was read about the expected subject.
  pub fetch_userinfo_iff :
      (o : Outcome UserInfo) (p' : ProviderState Cache)
      → (fetch_userinfo env prims readers read_info select_of rp execute r access_token subject p
          ≡ (o, p'))
        ↔ Asks o p'
  fetch_userinfo_iff o p' = (
    λ h.
        let (o1, p1, x) = Asks-total in
        let same : (o1, p1) ≡ (o, p') = sym (Asks-run x) ∙ h in subst (λ t. Asks t.0 t.1) same x,
    λ x. Asks-run x,
  )
