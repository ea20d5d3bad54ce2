-- ===== src/Token/Verify/Faults/Claims.antt =====
-- src/token/verify.rs: each check on the claims succeeds, or fails with the error of one fault.
use oidc4rs.Prelude.{
  ℕ, ◌+◌, ◌≤◌, ◌<◌, ◌≡◌, refl, ap, ◌∙◌, ◌⊎◌, inl, inr, Bool, true, false, Option, none, some, arith,
  le-cases, Option-cases, unwrap_or, Result-cases, err, Bytes, eqb_iff, eqb-cases,
}
use oidc4rs.Crypto.{ComparesBytes, ct_equals_iff}
use oidc4rs.Error.{OidcError}
use oidc4rs.Time.{instant_limit, from_secs, SystemTime, Duration, checked_add, checked_add_fits}
use oidc4rs.Error.{invalid_id_token, say}
use oidc4rs.Token.Verify.{
  check_auth_instant, Primitives, check_azp_claim, check_nonce_claim, check_at_hash_claim,
  check_auth_age, calculate_at_hash, auth_time_seconds, at_hash_digest, AlgorithmIdentifier,
  left_half,
}
use oidc4rs.Token.Verify.Checks.{AzpHolds, NonceHolds, AtHashHolds, AuthTimeHolds}
use oidc4rs.Token.Verify.Faults.{
  AzpFault, NonceFault, AtHashFault, AuthTimeFault, unnamed, other_party, no_nonce, other_nonce,
  no_token, no_digest, other_hash, not_read, out_of_range, in_future, too_old,
}

module _ {Claims Key Jws Json : Type 0} (env : Primitives Claims Key Jws Json) where
  pub AzpFault-check :
      {claim : Option Bytes} {multi : Bool} {expected : Bytes} {e : OidcError}
      → AzpFault env claim multi expected e
      → check_azp_claim env claim multi expected ≡ err e
  unfolding check_azp_claim
  AzpFault-check unnamed = refl
  AzpFault-check (other_party {azp} {expected} d) = ground (arith, eqb_iff azp expected)

  pub azp-cases :
      (claim : Option Bytes) (multi : Bool) (expected : Bytes)
      → AzpHolds claim multi expected ⊎ ((e : OidcError) × AzpFault env claim multi expected e)
  azp-cases none true expected = inr (_, unnamed)
  azp-cases none false expected = inl refl
  azp-cases (some azp) multi expected = elim (eqb-cases azp expected) [
    | inl same ↦ inl same
    | inr other ↦ inr (_, other_party other)
  ]

  pub NonceFault-check :
      ComparesBytes env.memcmp
      → {claim expected : Option Bytes} {e : OidcError} → NonceFault env claim expected e
      → check_nonce_claim env claim expected ≡ err e
  unfolding check_nonce_claim
  NonceFault-check law no_nonce = refl
  NonceFault-check law (other_nonce {got} {expected} d) =
      ground (arith, ct_equals_iff env.memcmp law got expected)

  pub nonce-cases :
      (claim expected : Option Bytes)
      → NonceHolds claim expected ⊎ ((e : OidcError) × NonceFault env claim expected e)
  nonce-cases claim none = inl tt
  nonce-cases none (some expected) = inr (_, no_nonce)
  nonce-cases (some got) (some expected) = elim (eqb-cases got expected) [
    | inl same ↦ inl (ap (λ s. some s) same)
    | inr other ↦ inr (_, other_nonce other)
  ]

  pub AtHashFault-check :
      {alg_id : AlgorithmIdentifier} {curve claim given : Option Bytes} {e : OidcError}
      → AtHashFault env alg_id curve claim given e
      → check_at_hash_claim env claim given alg_id curve ≡ err e
  unfolding check_at_hash_claim calculate_at_hash
  AtHashFault-check no_token = refl
  AtHashFault-check (no_digest missing) = rw (calculate_at_hash, missing) refl
  AtHashFault-check (other_hash {at_hash} {token} digest found other) =
      rw (calculate_at_hash, found)
        (ground (arith, eqb_iff at_hash (env.base64_url (left_half (digest token)))))

  pub at_hash-cases :
      (alg_id : AlgorithmIdentifier) (curve claim given : Option Bytes)
      → AtHashHolds env claim given alg_id curve
        ⊎ ((e : OidcError) × AtHashFault env alg_id curve claim given e)
  at_hash-cases alg_id curve none given = inl tt
  at_hash-cases alg_id curve (some at_hash) none = inr (_, no_token)
  at_hash-cases alg_id curve (some at_hash) (some token) =
      elim (Option-cases (at_hash_digest env.digests alg_id curve)) [
        | inl missing ↦ inr (_, no_digest missing)
        | inr (digest, found) ↦
            elim (eqb-cases at_hash (env.base64_url (left_half (digest token)))) [
              | inl same ↦ inl (token, digest, refl, found, same)
              | inr other ↦ inr (_, other_hash digest found other)
            ]
      ]

  instant_future :
      (now auth_time max_age skew : ℕ)
      → auth_time < instant_limit
      → now + skew < auth_time
      → check_auth_instant env now auth_time max_age skew
        ≡ err (invalid_id_token (say "auth_time claim is in the future"))
  unfolding check_auth_instant checked_add
  instant_future now auth_time max_age skew small late = ground arith

  instant_too_old :
      (now auth_time max_age skew : ℕ)
      → now < instant_limit
      → auth_time ≤ now + skew
      → auth_time + max_age + skew < now
      → check_auth_instant env now auth_time max_age skew
        ≡ err (invalid_id_token (say "authentication exceeds requested max_age"))
  unfolding check_auth_instant checked_add
  instant_too_old now auth_time max_age skew fits early late = ground arith

  in_range :
      (seconds : ℕ)
      → from_secs seconds < instant_limit
      → checked_add 0 (from_secs seconds) ≡ some (from_secs seconds)
  in_range seconds small = checked_add_fits 0 _ (omega arith) ∙ ap some (omega arith)

  not_in_range :
      (seconds : ℕ) → instant_limit ≤ from_secs seconds → checked_add 0 (from_secs seconds) ≡ none
  unfolding checked_add
  not_in_range seconds big = ground arith

  pub AuthTimeFault-check :
      {now : SystemTime} {claims : Claims} {skew max_age : Option Duration} {e : OidcError}
      → now < instant_limit
      → AuthTimeFault env now claims skew max_age e
      → check_auth_age env now claims max_age skew ≡ err e
  unfolding check_auth_age
  AuthTimeFault-check fits (not_read e h) = rw h refl
  AuthTimeFault-check fits (out_of_range seconds h big) = rw (h, not_in_range seconds big) refl
  AuthTimeFault-check {now} {claims} {skew} fits (in_future {max_age} seconds h small late) =
      rw (h, in_range seconds small)
        (instant_future now (from_secs seconds) max_age (unwrap_or skew 0) small late)
  AuthTimeFault-check {now} {claims} {skew} fits (too_old {max_age} seconds h small early late) =
      rw (h, in_range seconds small)
        (instant_too_old now (from_secs seconds) max_age (unwrap_or skew 0) fits early late)

  pub auth_time-cases :
      (now : SystemTime) (claims : Claims) (max_age skew : Option Duration)
      → AuthTimeHolds env now claims max_age skew
        ⊎ ((e : OidcError) × AuthTimeFault env now claims skew max_age e)
  auth_time-cases now claims none skew = inl tt
  auth_time-cases now claims (some max_age) skew =
      elim (Result-cases (auth_time_seconds env claims)) [
        | inr (e, h) ↦ inr (e, not_read e h)
        | inl (seconds, h) ↦ elim (le-cases instant_limit (from_secs seconds)) [
          | inl big ↦ inr (_, out_of_range seconds h big)
          | inr small ↦ elim (le-cases (from_secs seconds) (now + unwrap_or skew 0)) [
            | inr late ↦ inr (_, in_future seconds h small late)
            | inl early ↦ elim (le-cases now (from_secs seconds + max_age + unwrap_or skew 0)) [
              | inr late ↦ inr (_, too_old seconds h small early late)
              | inl young ↦ inl (seconds, h, small, early, young)
            ]
          ]
        ]
      ]
