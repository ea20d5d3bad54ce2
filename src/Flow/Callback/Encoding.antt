-- ===== src/Flow/Callback/Encoding.antt =====
-- The form encoding that the parser accepts: it decodes every percent-encoded byte string back to
-- itself, and the component check is the check that the decoded bytes are UTF-8.
use oidc4rs.Prelude.{
  ℕ, ◌+◌, ◌/◌, ◌%◌, ◌<◌, ◌≡◌, refl, ap, ◌↔◌, true, some, [], ◌∷◌, arith, ltb, if◌then◌else◌, ok,
  Bytes, All,
}
use oidc4rs.Flow.Callback.{hex_value, decode_component, validate_encoded_component, is_utf8}

-- The digit of a value below 16, in upper case, as RFC 3986 prefers.
abbrev pub hex_digit : ℕ → ℕ
hex_digit n = if ltb n 10 then n + b'0' else n + 55

-- Every byte as `%` and two digits.
abbrev pub percent_encode : Bytes → Bytes
percent_encode [] = []
percent_encode (b ∷ s) = b'%' ∷ hex_digit (b / 16) ∷ hex_digit (b % 16) ∷ percent_encode s

abbrev pub AreBytes : Bytes → Type 0
AreBytes s = All (λ b. b < 256) s

hex_value-hex_digit : (n : ℕ) → n < 16 → hex_value (hex_digit n) ≡ some n
unfolding hex_value
hex_value-hex_digit n h = ground arith

-- Decoding undoes the percent encoding of any bytes.
pub decode-percent_encode : (s : Bytes) → AreBytes s → decode_component (percent_encode s) ≡ some s
unfolding decode_component
decode-percent_encode [] h = refl
decode-percent_encode (b ∷ s) (lt, h) =
    simp
      (
        decode-percent_encode s h,
        hex_value-hex_digit (b / 16) (omega arith),
        hex_value-hex_digit (b % 16) (omega arith),
      )
      (ap (λ c. some (c ∷ s)) (omega arith))

-- A percent-encoded string of bytes is accepted exactly when the bytes are UTF-8.
pub validate-percent_encode_iff :
    (s : Bytes)
    → AreBytes s
    → (validate_encoded_component (percent_encode s) ≡ ok tt) ↔ (is_utf8 s ≡ true)
unfolding validate_encoded_component
validate-percent_encode_iff s h = ground (arith, decode-percent_encode s h)
