-- ===== src/Flow/Callback/Scan.antt =====
-- src/flow/callback.rs: the loop of `validate_encoded_component` as it is written, with its index,
-- on fuel.
pub mod Rounds
pub mod Total
use oidc4rs.Prelude.{
  ℕ, zero, suc, ◌+◌, ◌*◌, true, false, Option, none, some, [], ◌∷◌, ◌++◌, ltb, ◌==◌, Bytes, length,
  get_elem?, get_range?,
}
use oidc4rs.Prelude.{
  ℕ, zero, suc, ◌+◌, ◌*◌, true, false, Option, none, some, [], ◌∷◌, ◌++◌, ltb, ◌==◌, Bytes, length,
  get_elem?, get_range?,
}
use oidc4rs.Flow.Callback.{hex_value, plain_byte}

-- The byte that a round pushes, if it does not return early.
unfoldable pub hex_byte : Bytes → Option ℕ
hex_byte (h ∷ l ∷ _) = elim (hex_value h) [
  | none ↦ none
  | some high ↦ elim (hex_value l) [ none ↦ none | some low ↦ some (high * 16 + low) ]
]
hex_byte _ = none

-- One round: the byte and the next index.
unfoldable pub scan_round : Bytes → ℕ → Option (ℕ × ℕ)
scan_round encoded index = elim (get_elem? encoded index) [
  | none ↦ none
  | some byte ↦ elim (byte == b'%') [
    | false ↦ some (plain_byte byte, index + 1)
    | true ↦ elim (get_range? encoded (index + 1) (index + 3)) [
      | none ↦ none
      | some hex ↦ elim (hex_byte hex) [ none ↦ none | some b ↦ some (b, index + 3) ]
    ]
  ]
]

-- The loop: none where the fuel is spent, and otherwise the decoded bytes, or none of them where it
-- returns early.
unfoldable pub scan : ℕ → Bytes → ℕ → Bytes → Option (Option Bytes)
scan zero encoded index decoded = none
scan (suc fuel) encoded index decoded = elim (ltb index (length encoded)) [
  | false ↦ some (some decoded)
  | true ↦ elim (scan_round encoded index) [
    | none ↦ some none
    | some (byte, next) ↦ scan fuel encoded next (decoded ++ (byte ∷ []))
  ]
]
