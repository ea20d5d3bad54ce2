-- ===== src/Flow/Authorize/Pending.antt =====
-- The stored request: its key and its age.
use oidc4rs.Time.{duration_since}
use oidc4rs.Flow.Authorize.{
  validate_created_at, key_for, duration_since, storage_key, to_pending, PendingAuthRequest,
  AuthRequestState, SystemTime, default_ttl,
}
use mathlib.Core.List.{append_cancel_left}
use oidc4rs.Prelude.{◌+◌, ◌≤◌, ◌<◌, ◌≡◌, refl, ap, ◌↔◌, arith, ok, err, Bytes, codes}
use oidc4rs.Error.{pending_authorization_from_future, pending_authorization_expired}

-- A pending request is accepted exactly from its creation until ten minutes later; an earlier clock
-- and a later one are told apart.
pub validate_created_at_lem :
    (p : PendingAuthRequest) (now : SystemTime)
    → ((validate_created_at p now ≡ ok tt)
        ↔ ((p.created_at ≤ now) × (now ≤ p.created_at + default_ttl)))
      × ((validate_created_at p now ≡ err pending_authorization_from_future) ↔ (now < p.created_at))
      × ((validate_created_at p now ≡ err pending_authorization_expired)
          ↔ (p.created_at + default_ttl < now))
unfolding validate_created_at duration_since
validate_created_at_lem p now = ground arith

-- Two states have one key exactly if they are equal, and the key under which a request is stored is
-- the one that its state leads to.
pub key_for_lem :
    (s t : Bytes) (a : AuthRequestState) (now : SystemTime)
    → ((key_for s ≡ key_for t) ↔ (s ≡ t)) × (storage_key a ≡ key_for (to_pending now a).state)
unfolding key_for storage_key to_pending
key_for_lem s t a now =
    ((λ h. append_cancel_left (codes "oidc4rs:pending:") s t h, λ e. ap key_for e), refl)
