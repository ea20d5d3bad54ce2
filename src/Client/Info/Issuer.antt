-- ===== src/Client/Info/Issuer.antt =====
-- Whom the ID token of a completed login speaks of: the whole of the client, with what jose4rs
-- documents of its JWT consumer.
use oidc4rs.Prelude.{
  ◌≤◌, ◌<◌, ◌≡◌, refl, ap, ◌⊎◌, inl, inr, true, Option, none, some, List, [], ◌∷◌, arith, Result,
  ok, Bytes, codes, length, In, In-cons_cases,
}
use oidc4rs.Time.{instant_limit}
use oidc4rs.Crypto.{ComparesBytes}
use oidc4rs.Types.Url.{IssuerUrl}
use oidc4rs.Token.Jose.{Jose, ConsumerConfig}
use oidc4rs.Token.Verify
use oidc4rs.Token.Verify.{Primitives, is_multi}
use oidc4rs.Token.Verify.Checks.{AzpHolds}
use oidc4rs.Client.Complete.{RelyingParty, CompleteAuthorization}
use oidc4rs.Client.Info.{verify_id_token, Message, SystemTime}
use oidc4rs.Client.Info.Identity.{verify_id_token-IsVerified}
use oidc4rs.Client.Entry.{verifier, metadata, client_id}
use oidc4rs.Client.Provider.{ProviderState}
use oidc4rs.Client.Refresh.{Services}
use oidc4rs.Client.Refresh.Steps.{Created, Reaches-IsSound}
use oidc4rs.Client.Refresh.Tasks.{Tasks, Runs}
use oidc4rs.Client.Refresh.Tasks.Refine.{Runs-Reaches, shared_of}

-- Claims that the consumer accepts name the expected issuer and, where an audience is required, one
-- of the expected audiences.
pub record Consumes {Claims Key Jws Json : Type 0} (library : Jose Claims Key Jws Json)
    : Type 0 where
  pub names_issuer :
      (config : ConsumerConfig) (payload : Bytes) (claims : Claims)
      → library.process_to_claims config payload ≡ ok claims
      → library.string_claim claims (codes "iss") ≡ some config.expected_issuer
  pub names_audience :
      (config : ConsumerConfig) (payload : Bytes) (claims : Claims)
      → config.require_audience ≡ true
      → library.process_to_claims config payload ≡ ok claims
      → (aud : List Bytes) × (a : Bytes) × (library.audience claims ≡ some aud)
        × In a aud
        × In a config.expected_audience

module _ {Claims Key Jws Json : Type 0} (prims : Primitives Claims Key Jws Json)
    (select : Option Bytes → Bytes → Result Message (Option Key)) where
  -- Claims of the issuer about a login at this client, in answer to the given nonce: the client is in
  -- the audience, and it is the authorized party if one is named or another audience is.
  pub record SpeaksOf (issuer client nonce : Bytes) (claims : Claims) : Type 0 where
    pub audience : List Bytes
    pub issued : prims.library.string_claim claims (codes "iss") ≡ some issuer
    pub addressed : prims.library.audience claims ≡ some audience
    pub included : In client audience
    pub authorized :
        (prims.library.string_claim claims (codes "azp") ≡ some client)
        ⊎ ((prims.library.string_claim claims (codes "azp") ≡ none) × (length audience ≤ 1))
    pub answers : prims.library.string_claim claims (codes "nonce") ≡ some nonce

  party :
      (azp : Option Bytes) (aud : List Bytes) (expected : Bytes)
      → AzpHolds azp (is_multi prims (some aud)) expected
      → (azp ≡ some expected) ⊎ ((azp ≡ none) × (length aud ≤ 1))
  party none aud expected h = inr (refl, ground arith)
  party (some azp) aud expected h = inl (ap (λ x. some x) h)

  only_one : (a x : Bytes) → In a (x ∷ []) → a ≡ x
  only_one a x m = elim (In-cons_cases m) [ inl same ↦ same | inr later ↦ elim later [ ] ]

  verified-SpeaksOf :
      (now : SystemTime) (rp : RelyingParty) {Cache : Type 0} (provider : ProviderState Cache)
      (c : CompleteAuthorization) (claims : Claims)
      → Consumes prims.library
      → ComparesBytes prims.memcmp
      → now < instant_limit
      → verify_id_token prims select now c (verifier rp provider) rp.client_id ≡ ok claims
      → SpeaksOf provider.metadata.issuer.serialized rp.client_id c.pending.nonce claims
  unfolding verifier metadata client_id Verify.from_metadata
  verified-SpeaksOf now rp provider c claims laws law fits h =
      let (raw, token, held, decoded, v, nonce) =
        verify_id_token-IsVerified prims select now c (verifier rp provider) rp.client_id claims law
          fits h in
      let (aud, a, addressed, member, expected) =
        laws.names_audience _ v.bytes claims refl v.accepted in
      let is_client : a ≡ rp.client_id = only_one a rp.client_id expected in
      record {
        audience = aud;
        issued = laws.names_issuer _ v.bytes claims v.accepted;
        addressed = addressed;
        included = rw is_client at member;
        authorized = party _ aud rp.client_id (rw addressed at v.azp_holds);
        answers = nonce;
      }

  -- Let jose4rs' consumer enforce what it is configured with, and the comparison of bytes keep its
  -- contract. However a client for an issuer was created, and in every interleaving of its tasks, the
  -- claims that its verifier accepts for a completed login name that issuer, byte for byte as it was
  -- given, have the client in their
  -- audience and as authorized party if one is named or they have several audiences, and answer the
  -- nonce of the pending request that the login began with.
  pub Runs-SpeaksOf :
      {Cache : Type 0} (env : Services Cache) (rp : RelyingParty) (issuer : IssuerUrl)
      (p : ProviderState Cache) (s : Tasks Cache) (now : SystemTime) (c : CompleteAuthorization)
      (claims : Claims)
      → Consumes prims.library
      → ComparesBytes prims.memcmp
      → now < instant_limit
      → Created env issuer p
      → Runs env p s
      → verify_id_token prims select now c (verifier rp s.memory.provider) rp.client_id ≡ ok claims
      → SpeaksOf issuer.serialized rp.client_id c.pending.nonce claims
  Runs-SpeaksOf env rp issuer p s now c claims laws law fits created run h =
      let sound =
        Reaches-IsSound env issuer p (shared_of s.memory s.place) created
          (Runs-Reaches env p s run) in
      rw (← sound.serves.issued)
        (verified-SpeaksOf now rp s.memory.provider c claims laws law fits h)
