-- ===== src/Client/Entry.antt =====
-- src/client.rs and src/flow/authorize.rs: what a client hands out of its present snapshot, with no
-- I/O.
use oidc4rs.Token.Verify.Checks.{from_metadata-allows}
use oidc4rs.Client.Refresh.Steps.{Created, Reaches-IsSound}
use oidc4rs.Client.Refresh.Tasks.Refine.{Runs-Reaches, shared_of}
use oidc4rs.Client.Refresh.Tasks.{Tasks, Runs}
use oidc4rs.Client.Refresh.{Services}
use oidc4rs.Prelude.{ℕ, ◌≡◌, refl, ap, false, ok, Bytes, In}
use oidc4rs.Error.{Outcome}
use oidc4rs.Types.Url.{Url, UrlOps, IssuerUrl}
use oidc4rs.Types.Identifiers.{PkceCodeChallenge, s256_from_verifier}
use oidc4rs.Metadata.Provider.{ProviderMetadata}
use oidc4rs.Flow.Authorize.{AuthorizeUrlBuilder, new_builder}
use oidc4rs.Flow.Token.{CodeTokenRequest}
use oidc4rs.Flow.Logout.{EndSessionUrlBuilder, new_end_session}
use oidc4rs.Token.Verify
use oidc4rs.Token.Verify.{IdTokenVerifier, check_alg, is_forbidden_alg}
use oidc4rs.Client.Provider.{ProviderState}
use oidc4rs.Client.Complete.{RelyingParty, exchange_code_with_metadata}

module _ {Cache : Type 0} (rp : RelyingParty) (p : ProviderState Cache) where
  -- `metadata`, `jwks` and `client_id`.
  unfoldable pub metadata : ProviderMetadata
  metadata = p.metadata

  unfoldable pub jwks : Cache
  jwks = p.jwks

  unfoldable pub client_id : Bytes
  client_id = rp.client_id

  -- `exchange_code`.
  unfoldable pub exchange_code : Bytes → Outcome CodeTokenRequest
  exchange_code code = exchange_code_with_metadata rp code metadata

  -- `verifier`.
  unfoldable pub verifier : IdTokenVerifier
  verifier = Verify.from_metadata metadata client_id

  -- `build_end_session_url`, whose builder refers to the client.
  unfoldable pub build_end_session_url : EndSessionUrlBuilder
  build_end_session_url = new_end_session

  module _ (ops : UrlOps) (encode sha256 : Bytes → Bytes) (fill : ℕ → ℕ → Bytes) where
    -- `Client::authorize`, with the calls of the random generator before and after.
    unfoldable pub authorize : Url → Bytes → ℕ → Outcome (AuthorizeUrlBuilder × ℕ)
    authorize redirect_uri scope calls =
        new_builder ops encode sha256 fill metadata client_id rp.client_secret redirect_uri scope
          calls

-- `Client::pkce_s256`.
unfoldable pub pkce_challenge : (encode sha256 : Bytes → Bytes) → Bytes → PkceCodeChallenge
pkce_challenge encode sha256 v = s256_from_verifier encode sha256 v

-- However a client for an issuer was created, in every interleaving of its tasks the verifier that
-- it hands out expects that issuer, byte for byte as it was given, and the client's own id as audience, and accepts only algorithms
-- that the present document advertises and that are neither `none` nor symmetric.
pub Runs-verifier :
    {Cache : Type 0} (env : Services Cache) (rp : RelyingParty) (issuer : IssuerUrl)
    (p : ProviderState Cache) (s : Tasks Cache) (alg : Bytes)
    → Created env issuer p
    → Runs env p s
    → check_alg (verifier rp s.memory.provider) alg ≡ ok tt
    → ((verifier rp s.memory.provider).expected_issuer ≡ issuer.serialized)
      × ((verifier rp s.memory.provider).expected_audience ≡ rp.client_id)
      × In alg s.memory.provider.metadata.id_token_signing_alg_values_supported
      × (is_forbidden_alg alg ≡ false)
unfolding verifier metadata client_id Verify.from_metadata
Runs-verifier env rp issuer p s alg created run accepted =
    let sound =
      Reaches-IsSound env issuer p (shared_of s.memory s.place) created
        (Runs-Reaches env p s run) in
    (
      ap (λ i. i.serialized) sound.serves.issued,
      refl,
      (from_metadata-allows s.memory.provider.metadata rp.client_id alg accepted).0,
      (from_metadata-allows s.memory.provider.metadata rp.client_id alg accepted).1,
    )
