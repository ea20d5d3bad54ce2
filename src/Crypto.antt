-- ===== src/Crypto.antt =====
-- src/crypto: constant-time equality, random bytes and the digests. The functions of the C library
-- are parameters: `CRYPTO_memcmp`, `RAND_bytes` and the SHA-2 one-shots. A failed `assert!` ends
-- the process, and is `none` here.
use oidc4rs.Prelude.{
  ℕ, ◌≡◌, refl, ◌↔◌, inl, inr, Bool, true, false, not, Option, none, some, [], ◌∷◌, arith, ◌==◌,
  if◌then◌else◌, Bool-cases, Bytes, length,
}

-- `ct_equals`, over the number that `CRYPTO_memcmp` returns for two buffers of one length.
unfoldable pub ct_equals : (Bytes → Bytes → ℕ → ℕ) → Bytes → Bytes → Bool
ct_equals memcmp a b = if not (length a == length b) then false else memcmp a b (length a) == 0

-- What `CRYPTO_memcmp` documents: zero exactly if the first `len` bytes agree.
abbrev pub ComparesBytes : (Bytes → Bytes → ℕ → ℕ) → Type 0
ComparesBytes memcmp = (a b : Bytes) → length a ≡ length b → (memcmp a b (length a) ≡ 0) ↔ (a ≡ b)

-- `fill_bytes`: the buffer after the call. `rand n` is the status and the bytes for `n` bytes.
unfoldable pub fill_bytes : (ℕ → ℕ × Bytes) → Bytes → Option Bytes
fill_bytes rand [] = some []
fill_bytes rand (b ∷ dst) =
    if (rand (length (b ∷ dst))).0 == 1 then some (rand (length (b ∷ dst))).1 else none

-- The digest functions of src/crypto/hash.rs, and the lengths of what they return.
pub record Digests : Type 0 where
  pub sha256 : Bytes → Bytes
  pub sha384 : Bytes → Bytes
  pub sha512 : Bytes → Bytes

abbrev pub sha256_output_len : ℕ
sha256_output_len = 32

abbrev pub sha384_output_len : ℕ
sha384_output_len = 48

abbrev pub sha512_output_len : ℕ
sha512_output_len = 64

pub record HaveLengths (d : Digests) : Type 0 where
  pub sha256_len : (s : Bytes) → length (d.sha256 s) ≡ sha256_output_len
  pub sha384_len : (s : Bytes) → length (d.sha384 s) ≡ sha384_output_len
  pub sha512_len : (s : Bytes) → length (d.sha512 s) ≡ sha512_output_len

-- Two texts are equal for the constant-time comparison exactly when they are equal.
pub ct_equals_iff :
    (memcmp : Bytes → Bytes → ℕ → ℕ)
    → ComparesBytes memcmp
    → (a b : Bytes) → (ct_equals memcmp a b ≡ true) ↔ (a ≡ b)
unfolding ct_equals
ct_equals_iff memcmp law a b = elim (Bool-cases (length a == length b)) [
  | inl same ↦ ground (arith, law a b)
  | inr differ ↦ ground arith
]

-- The one-shot functions of the C library: whether the pointer that is returned is NULL, and the
-- buffer after the call.
pub record Sha2 : Type 0 where
  pub c_sha256 : Bytes → Bool × Bytes
  pub c_sha384 : Bytes → Bool × Bytes
  pub c_sha512 : Bytes → Bool × Bytes

module _ (c : Sha2) where
  -- `sha256`, `sha384` and `sha512`, with the assertion on the pointer.
  unfoldable pub sha256 : Bytes → Option Bytes
  sha256 bytes = let (is_null, out) = c.c_sha256 bytes in if is_null then none else some out

  unfoldable pub sha384 : Bytes → Option Bytes
  sha384 bytes = let (is_null, out) = c.c_sha384 bytes in if is_null then none else some out

  unfoldable pub sha512 : Bytes → Option Bytes
  sha512 bytes = let (is_null, out) = c.c_sha512 bytes in if is_null then none else some out

  -- What both libraries document.
  pub record NeverNull : Type 0 where
    pub sha256_given : (bytes : Bytes) → (c.c_sha256 bytes).0 ≡ false
    pub sha384_given : (bytes : Bytes) → (c.c_sha384 bytes).0 ≡ false
    pub sha512_given : (bytes : Bytes) → (c.c_sha512 bytes).0 ≡ false

  -- The digests that the rest of the library is given.
  abbrev pub digests : Digests
  digests = record {
    sha256 = λ bytes. (c.c_sha256 bytes).1;
    sha384 = λ bytes. (c.c_sha384 bytes).1;
    sha512 = λ bytes. (c.c_sha512 bytes).1;
  }

  -- Where no pointer is NULL, no digest ends the process, and each is the one of `digests`.
  pub digests_lem :
      NeverNull
      → (bytes : Bytes)
      → (sha256 bytes ≡ some (digests.sha256 bytes))
        × (sha384 bytes ≡ some (digests.sha384 bytes))
        × (sha512 bytes ≡ some (digests.sha512 bytes))
  unfolding sha256 sha384 sha512
  digests_lem law bytes = (
    rw (law.sha256_given bytes) refl,
    rw (law.sha384_given bytes) refl,
    rw (law.sha512_given bytes) refl,
  )
