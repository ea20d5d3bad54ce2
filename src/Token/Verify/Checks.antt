-- ===== src/Token/Verify/Checks.antt =====
-- What each check of the verifier enforces.
use oidc4rs.Time.{
  instant_limit, checked_add, from_secs, checked_add_fits_of, checked_add-eq-some, checked_add_fits,
}
use oidc4rs.Token.Verify.{
  check_alg, Primitives, IdTokenVerifier, from_metadata, check_azp_claim, check_nonce_claim,
  AlgorithmIdentifier, check_at_hash_claim, check_auth_instant, SystemTime, check_auth_age,
  at_hash_digest, calculate_at_hash, checked_add, Duration, is_forbidden_alg, left_half,
  auth_time_seconds,
}
use oidc4rs.Prelude.{
  ℕ, ◌+◌, ◌≤◌, ◌<◌, ◌≡◌, refl, ap, ◌∙◌, ◌↔◌, inl, inr, Bool, true, false, Option, none, some, List,
  [], ◌∷◌, arith, Bool-cases, Option-cases, unwrap_or, ok_or, >>=-eq-ok, ok, Bytes, codes, eqb_iff,
  eq_ignore_ascii_case, retain, In, In-cons_cases, here, there,
}
use oidc4rs.Crypto.{ComparesBytes, ct_equals_iff}
use oidc4rs.Metadata.Provider.{any-eqb→In, In→any-eqb, ProviderMetadata}

-- An algorithm passes exactly if it is on the allow-list and is not `none` in any case.
pub check_alg_iff :
    (v : IdTokenVerifier) (alg : Bytes)
    → (check_alg v alg ≡ ok tt)
      ↔ (In alg v.allowed_algs × (eq_ignore_ascii_case alg (codes "none") ≡ false))
unfolding check_alg
check_alg_iff v alg = (
  λ h. (any-eqb→In alg v.allowed_algs (ground arith), ground arith),
  λ (m, e). ground (arith, In→any-eqb m),
)

retain-In {ℓ} :
    {A : Type ℓ} (p : A → Bool) (xs : List A) {a : A} → In a (retain p xs) → In a xs × (p a ≡ true)
unfolding retain
retain-In p [] m = elim m [ ]
retain-In p (x ∷ xs) m = elim (Bool-cases (p x)) [
  | inl kept ↦ elim (In-cons_cases (rw kept at m)) [
    | inl same ↦ (rw same here, rw same kept)
    | inr later ↦ let (old, e) = retain-In p xs later in (there old, e)
  ]
  | inr dropped ↦ let (old, e) = retain-In p xs (rw dropped at m) in (there old, e)
]

-- The algorithms that a verifier made from the discovery document accepts are advertised there,
-- and none of them is `none` or symmetric.
pub from_metadata-allows :
    (m : ProviderMetadata) (audience alg : Bytes)
    → check_alg (from_metadata m audience) alg ≡ ok tt
    → In alg m.id_token_signing_alg_values_supported × (is_forbidden_alg alg ≡ false)
unfolding from_metadata
from_metadata-allows m audience alg h =
    let (listed, e) = retain-In _ _ ((check_alg_iff (from_metadata m audience) alg).0 h).0 in
    (listed, ground arith)

-- The `azp` rule: it may be absent only with one audience, and otherwise is the client.
abbrev pub AzpHolds : Option Bytes → Bool → Bytes → Type 0
AzpHolds none multi expected = multi ≡ false
AzpHolds (some azp) multi expected = azp ≡ expected

-- The nonce rule: an expected nonce is the token's.
abbrev pub NonceHolds : Option Bytes → Option Bytes → Type 0
NonceHolds claim none = Unit
NonceHolds claim (some expected) = claim ≡ some expected

module _ {Claims Key Jws Json : Type 0} (env : Primitives Claims Key Jws Json) where
  pub check_azp_claim_iff :
      (claim : Option Bytes) (multi : Bool) (expected : Bytes)
      → (check_azp_claim env claim multi expected ≡ ok tt) ↔ AzpHolds claim multi expected
  unfolding check_azp_claim
  check_azp_claim_iff none multi expected = ground arith
  check_azp_claim_iff (some azp) multi expected = ground (arith, eqb_iff azp expected)

  pub check_nonce_claim_iff :
      ComparesBytes env.memcmp
      → (claim expected : Option Bytes)
      → (check_nonce_claim env claim expected ≡ ok tt) ↔ NonceHolds claim expected
  unfolding check_nonce_claim
  check_nonce_claim_iff law claim none = ground arith
  check_nonce_claim_iff law none (some expected) = ground arith
  check_nonce_claim_iff law (some got) (some expected) =
      ground (arith, ct_equals_iff env.memcmp law got expected)

  -- The `at_hash` rule: if the claim is there, it is the encoded left half of the access token's
  -- digest, and the access token is known.
  abbrev pub AtHashHolds : Option Bytes → Option Bytes → AlgorithmIdentifier → Option Bytes → Type 0
  AtHashHolds none access_token alg_id curve = Unit
  AtHashHolds (some at_hash) access_token alg_id curve =
      (token : Bytes) × (digest : Bytes → Bytes) × (access_token ≡ some token)
      × (at_hash_digest env.digests alg_id curve ≡ some digest)
      × (at_hash ≡ env.base64_url (left_half (digest token)))

  pub check_at_hash_claim_iff :
      (claim access_token : Option Bytes) (alg_id : AlgorithmIdentifier) (curve : Option Bytes)
      → (check_at_hash_claim env claim access_token alg_id curve ≡ ok tt)
        ↔ AtHashHolds claim access_token alg_id curve
  unfolding check_at_hash_claim calculate_at_hash
  check_at_hash_claim_iff none access_token alg_id curve = ground arith
  check_at_hash_claim_iff (some at_hash) none alg_id curve = ground arith
  check_at_hash_claim_iff (some at_hash) (some token) alg_id curve =
      elim (Option-cases (at_hash_digest env.digests alg_id curve)) [
        | inl missing ↦ rw missing (λ h. cc, λ (t, d, e, f, g). cc)
        | inr (digest, found) ↦ rw found (
          λ h. (
            token,
            digest,
            refl,
            refl,
            (eqb_iff at_hash (env.base64_url (left_half (digest token)))).0 (ground arith),
          ),
          λ (t, d, e, f, g).
              ground (arith, eqb_iff at_hash (env.base64_url (left_half (digest token)))),
        )
      ]

  -- The `max_age` rule, in nanoseconds: the authentication is not in the future and not older than
  -- the age, both within the skew.
  pub check_auth_instant_iff :
      (now auth_time max_age skew : ℕ)
      → now < instant_limit
      → auth_time < instant_limit
      → (check_auth_instant env now auth_time max_age skew ≡ ok tt)
        ↔ ((auth_time ≤ now + skew) × (now ≤ auth_time + max_age + skew))
  unfolding check_auth_instant checked_add
  check_auth_instant_iff now auth_time max_age skew fits_now fits_auth = ground arith

  abbrev pub AuthTimeHolds : SystemTime → Claims → Option Duration → Option Duration → Type 0
  AuthTimeHolds now claims none skew = Unit
  AuthTimeHolds now claims (some max_age) skew =
      (seconds : ℕ) × (auth_time_seconds env claims ≡ ok seconds)
      × (from_secs seconds < instant_limit)
      × (from_secs seconds ≤ now + unwrap_or skew 0)
      × (now ≤ from_secs seconds + max_age + unwrap_or skew 0)

  check_auth_age-ok :
      (now : SystemTime) (claims : Claims) (max_age skew : Option Duration)
      → now < instant_limit
      → check_auth_age env now claims max_age skew ≡ ok tt
      → AuthTimeHolds now claims max_age skew
  unfolding check_auth_age
  check_auth_age-ok now claims none skew fits h = tt
  check_auth_age-ok now claims (some max_age) skew fits h =
      let (seconds, read, rest) = >>=-eq-ok (auth_time_seconds env claims) _ h in
      let (auth_time, added, checked) =
        >>=-eq-ok (ok_or (checked_add 0 (from_secs seconds)) _) _ rest in
      let made : checked_add 0 (from_secs seconds) ≡ some auth_time = ground arith in
      let (early, late) =
        (check_auth_instant_iff now auth_time max_age (unwrap_or skew 0) fits
            (checked_add_fits_of 0 _ made)).0
          checked in
      let same = checked_add-eq-some 0 (from_secs seconds) made in
      (
        seconds,
        read,
        omega (arith, same, checked_add_fits_of 0 _ made),
        omega (arith, early),
        omega (arith, late),
      )

  check_auth_age-holds :
      (now : SystemTime) (claims : Claims) (max_age skew : Option Duration)
      → now < instant_limit
      → AuthTimeHolds now claims max_age skew
      → check_auth_age env now claims max_age skew ≡ ok tt
  unfolding check_auth_age
  check_auth_age-holds now claims none skew fits h = refl
  check_auth_age-holds now claims (some max_age) skew fits (seconds, read, small, early, late) =
      let made : checked_add 0 (from_secs seconds) ≡ some (from_secs seconds) =
        checked_add_fits 0 _ (omega arith) ∙ ap some (omega arith) in
      rw (read, made)
        ((check_auth_instant_iff now (from_secs seconds) max_age (unwrap_or skew 0) fits small).1
          (early, late))

  pub check_auth_age_iff :
      (now : SystemTime) (claims : Claims) (max_age skew : Option Duration)
      → now < instant_limit
      → (check_auth_age env now claims max_age skew ≡ ok tt) ↔ AuthTimeHolds now claims max_age skew
  check_auth_age_iff now claims max_age skew fits = (
    check_auth_age-ok now claims max_age skew fits,
    check_auth_age-holds now claims max_age skew fits,
  )
