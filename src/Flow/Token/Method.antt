-- ===== src/Flow/Token/Method.antt =====
-- Which authentication method discovery leads to.
use oidc4rs.Flow.Token.{TokenAuthMethod, from_metadata, lists, needs_secret, post, basic, no_auth}
use oidc4rs.Prelude.{
  ◌≡◌, refl, ◌↔◌, inl, inr, Bool, true, false, Option, none, some, List, arith, Bool-cases, ok,
  Bytes,
}

-- Whether the provider offers a method; a document with no list offers the two defaults.
abbrev pub offers : Option (List Bytes) → TokenAuthMethod → Bool
offers none basic = true
offers none post = false
offers none no_auth = true
offers (some supported) basic = lists "client_secret_basic" supported
offers (some supported) post = lists "client_secret_post" supported
offers (some supported) no_auth = lists "none" supported

-- The choice is a method that the provider offers, and it asks for a secret exactly if the client
-- has one; `client_secret_post` is chosen only if `client_secret_basic` is not offered.
pub from_metadata_sound :
    (supported : Option (List Bytes)) (has_secret : Bool) (m : TokenAuthMethod)
    → from_metadata supported has_secret ≡ ok m
    → (offers supported m ≡ true)
      × (needs_secret m ≡ has_secret)
      × ((m ≡ post) ↔ ((has_secret ≡ true) × (offers supported basic ≡ false)))
unfolding from_metadata needs_secret
from_metadata_sound none has_secret m h = ground arith
from_metadata_sound (some supported) has_secret m h = ground arith

choose :
    (supported : Option (List Bytes)) (has_secret : Bool) (m : TokenAuthMethod)
    → offers supported m ≡ true
    → needs_secret m ≡ has_secret
    → (m' : TokenAuthMethod) × (from_metadata supported has_secret ≡ ok m')
unfolding from_metadata needs_secret
choose none true m o n = (basic, refl)
choose none false m o n = (no_auth, refl)
choose (some supported) true m o n = elim (Bool-cases (lists "client_secret_basic" supported)) [
  | inl yes_basic ↦ (basic, ground arith)
  | inr no_basic ↦ (post, ground arith)
]
choose (some supported) false m o n = (no_auth, ground arith)

-- The choice of an authentication method succeeds exactly when the provider offers one that needs
-- a secret just if the client has one.
from_metadata_succeeds_iff :
    (supported : Option (List Bytes)) (has_secret : Bool)
    → ((m : TokenAuthMethod) × (from_metadata supported has_secret ≡ ok m))
      ↔ ((m : TokenAuthMethod) × (offers supported m ≡ true) × (needs_secret m ≡ has_secret))
unfolding from_metadata needs_secret
from_metadata_succeeds_iff supported has_secret = (
  λ (m, h). let (o, n, _) = from_metadata_sound supported has_secret m h in (m, o, n),
  λ (m, o, n). choose supported has_secret m o n,
)
