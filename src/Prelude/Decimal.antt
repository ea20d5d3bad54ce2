-- ===== src/Prelude/Decimal.antt =====
-- Numbers as texts: `to_string` and `str::parse` of the unsigned integer types.
use Prim.Native.Nat.{ℕ, zero, suc, ◌+◌, ◌-◌, ◌*◌, ◌/◌, ◌%◌, ◌^◌, ◌≤◌, ◌<◌}
use mathlib.Core.Path.{◌≡◌, refl, ◌∙◌}
use mathlib.Core.Bool.{Bool, ◌&&◌}
use mathlib.Core.Option.{Option, none, some}
use mathlib.Core.List.{[], ◌∷◌}
use mathlib.Core.Logic.{inl, inr}
use native.Mathlib.Omega.{arith}
use oidc4rs.Prelude.Tests.{leb, ltb, ◌==◌, if◌then◌else◌, Bool-cases}
use oidc4rs.Prelude.Text.{Bytes}

abbrev is_digit : ℕ → Bool
is_digit c = leb b'0' c && leb c b'9'

-- The digits of `str::parse` for an unsigned type with values below `limit`.
unfoldable pub parse_digits : ℕ → ℕ → Bytes → Option ℕ
parse_digits limit acc [] = some acc
parse_digits limit acc (c ∷ s) =
    let value = acc * 10 + (c - b'0') in
    let rest = parse_digits limit value s in if is_digit c && ltb value limit then rest else none

-- `str::parse`: a `+` may stand before the digits, of which there is one at least.
unfoldable pub parse_uint : ℕ → Bytes → Option ℕ
unfolding parse_digits
parse_uint limit [] = none
parse_uint limit (c ∷ []) = parse_digits limit 0 (c ∷ [])
parse_uint limit (c ∷ d ∷ s) =
    if c == b'+' then parse_digits limit 0 (d ∷ s) else parse_digits limit 0 (c ∷ d ∷ s)

-- The decimal digits of a number, which `to_string` writes; the fuel bounds their number.
unfoldable pub decimal_from : ℕ → ℕ → Bytes → Bytes
decimal_from zero n out = out
decimal_from (suc fuel) n out =
    let digit = (b'0' + n % 10) ∷ out in
    let rest = decimal_from fuel (n / 10) digit in if ltb n 10 then digit else rest

-- A `u64` has 20 digits at most.
unfoldable pub decimal : ℕ → Bytes
unfolding decimal_from
decimal n = decimal_from 20 n []

-- The reader takes the last digit of a number after the others.
parse_digits-last :
    (limit acc n : ℕ) (out : Bytes)
    → acc * 10 + n % 10 ≡ n
    → n < limit
    → parse_digits limit acc ((b'0' + n % 10) ∷ out) ≡ parse_digits limit n out
unfolding parse_digits
parse_digits-last limit acc n out whole small =
    let value : acc * 10 + ((b'0' + n % 10) - b'0') ≡ n = omega arith in rw value (ground arith)

parse_digits-nil : (limit n : ℕ) → parse_digits limit n [] ≡ some n
unfolding parse_digits
parse_digits-nil limit n = refl

-- The reader takes the digits that were written before `out` back to the number.
parse_digits-decimal_from :
    (limit fuel n : ℕ) (out : Bytes)
    → n < limit
    → n < 10 ^ fuel
    → parse_digits limit 0 (decimal_from fuel n out) ≡ parse_digits limit n out
unfolding decimal_from
parse_digits-decimal_from limit zero n out small fits =
    let none_left : n ≡ 0 = omega arith in rw none_left refl
parse_digits-decimal_from limit (suc fuel) n out small fits = elim (Bool-cases (ltb n 10)) [
  | inl last ↦ rw last (parse_digits-last limit 0 n out (ground arith) small)
  | inr more ↦ rw more (
      parse_digits-decimal_from limit fuel (n / 10) ((b'0' + n % 10) ∷ out) (ground arith)
        (ground arith)
      ∙ parse_digits-last limit (n / 10) n out (omega arith) small)
]

-- What is written is not empty, and its first byte is no `+`.
decimal_from-head :
    (fuel n c : ℕ) (out : Bytes)
    → b'0' ≤ c
    → (d : ℕ) × (s : Bytes) × (decimal_from fuel n (c ∷ out) ≡ d ∷ s) × (b'0' ≤ d)
unfolding decimal_from
decimal_from-head zero n c out h = (c, out, refl, h)
decimal_from-head (suc fuel) n c out h = elim (Bool-cases (ltb n 10)) [
  | inl last ↦ (b'0' + n % 10, c ∷ out, rw last refl, omega arith)
  | inr more ↦ rw more (decimal_from-head fuel (n / 10) (b'0' + n % 10) (c ∷ out) (omega arith))
]

decimal_from-first :
    (fuel n : ℕ) → (d : ℕ) × (s : Bytes) × (decimal_from (suc fuel) n [] ≡ d ∷ s) × (b'0' ≤ d)
unfolding decimal_from
decimal_from-first fuel n = elim (Bool-cases (ltb n 10)) [
  | inl last ↦ (b'0' + n % 10, [], rw last refl, omega arith)
  | inr more ↦ rw more (decimal_from-head fuel (n / 10) (b'0' + n % 10) [] (omega arith))
]

parse_uint-digits :
    (limit d : ℕ) (s : Bytes) → b'0' ≤ d → parse_uint limit (d ∷ s) ≡ parse_digits limit 0 (d ∷ s)
unfolding parse_uint
parse_uint-digits limit d [] h = refl
parse_uint-digits limit d (c ∷ s) h = ground arith

-- A number that fits `u64` is what the reader makes of its decimal text: 20 digits are enough.
pub parse_uint-decimal : (n : ℕ) → n < 2 ^ 64 → parse_uint (2 ^ 64) (decimal n) ≡ some n
unfolding decimal
parse_uint-decimal n fits =
    let (d, s, text, digit) = decimal_from-first 19 n in
    let read = parse_digits-decimal_from (2 ^ 64) 20 n [] fits (omega arith) in
    rw text
      (parse_uint-digits (2 ^ 64) d s digit ∙ ((rw text at read) ∙ parse_digits-nil (2 ^ 64) n))
