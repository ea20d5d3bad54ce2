-- ===== src/Prelude/Text.antt =====
-- Texts as lists of bytes: what the source uses of `str` and of `[u8]`. A quoted text stands for
-- its code points, which are its bytes, as every literal of the source is ASCII.
use Prim.Native.Char.{code}
use Prim.Native.String.{String}
use Prim.Native.Nat.{ℕ, ◌+◌, zero, suc}
use mathlib.Core.Path.{◌≡◌}
use mathlib.Core.Logic.{◌↔◌, ◌⊎◌, ◌≢◌, inl, inr}
use mathlib.Core.Bool.{Bool, true, false, ◌&&◌, ◌||◌}
use mathlib.Core.Option.{Option, none, some}
use mathlib.Core.List.{List, [], ◌∷◌, reverse, map}
use native.Mathlib.Omega.{arith}
use oidc4rs.Prelude.Tests.{Bool-cases, leb, ◌==◌, if◌then◌else◌}

abbrev pub Bytes : Type 0
Bytes = List ℕ

abbrev pub codes : String → Bytes
codes String.[] = []
codes (String.◌∷◌ c s) = code c ∷ codes s

-- `==` on texts.
unfoldable pub eqb : Bytes → Bytes → Bool
eqb [] [] = true
eqb (x ∷ xs) (y ∷ ys) = x == y && eqb xs ys
eqb _ _ = false

pub eqb_iff : (a b : Bytes) → (eqb a b ≡ true) ↔ (a ≡ b)
unfolding eqb
eqb_iff (x ∷ a) (y ∷ b) = ground (arith, eqb_iff a b)
eqb_iff _ _ = ground arith

pub eqb-cases : (a b : Bytes) → (a ≡ b) ⊎ (a ≢ b)
eqb-cases a b = elim (Bool-cases (eqb a b)) [
  | inl h ↦ inl ((eqb_iff a b).0 h)
  | inr h ↦ inr (λ e. ground (arith, (eqb_iff a b).1 e))
]

abbrev pub is_empty : Bytes → Bool
is_empty [] = true
is_empty (x ∷ xs) = false

-- `u8::to_ascii_lowercase`.
unfoldable pub to_lower : ℕ → ℕ
to_lower c = if leb b'A' c && leb c b'Z' then c + 32 else c

unfoldable pub eq_ignore_ascii_case : Bytes → Bytes → Bool
unfolding to_lower
eq_ignore_ascii_case [] [] = true
eq_ignore_ascii_case (x ∷ xs) (y ∷ ys) = to_lower x == to_lower y && eq_ignore_ascii_case xs ys
eq_ignore_ascii_case _ _ = false

pub eq_ignore_lower :
    (a b : Bytes) → (eq_ignore_ascii_case a b ≡ true) ↔ (map to_lower a ≡ map to_lower b)
unfolding eq_ignore_ascii_case
eq_ignore_lower (x ∷ a) (y ∷ b) = ground (arith, eq_ignore_lower a b)
eq_ignore_lower _ _ = ground arith

-- `u8::is_ascii_whitespace`: space, tab, line feed, form feed, carriage return.
unfoldable pub is_ascii_space : ℕ → Bool
is_ascii_space c = c == 32 || c == 9 || c == 10 || c == 12 || c == 13

unfoldable pub trim_start_by : (ℕ → Bool) → Bytes → Bytes
trim_start_by p [] = []
trim_start_by p (c ∷ s) = if p c then trim_start_by p s else c ∷ s

-- `trim_matches`, and `trim_ascii` at `is_ascii_space`.
unfoldable pub trim_by : (ℕ → Bool) → Bytes → Bytes
unfolding trim_start_by
trim_by p s = reverse (trim_start_by p (reverse (trim_start_by p s)))

-- `split_once` at a byte.
unfoldable pub split_once : ℕ → Bytes → Option (Bytes × Bytes)
split_once d [] = none
split_once d (c ∷ s) =
    if c == d
    then some ([], s)
    else elim (split_once d s) [ none ↦ none | some (a, b) ↦ some (c ∷ a, b) ]

-- `split` at a byte: the pieces between the separators, one at least.
unfoldable pub split_from : ℕ → Bytes → Bytes → List Bytes
split_from d cur [] = reverse cur ∷ []
split_from d cur (c ∷ s) = elim (c == d) [
  | true ↦ reverse cur ∷ split_from d [] s
  | false ↦ split_from d (c ∷ cur) s
]

unfoldable pub split : ℕ → Bytes → List Bytes
unfolding split_from
split d s = split_from d [] s

-- `str::trim`: the white space of Unicode, in its one, two and three bytes of UTF-8.
abbrev space_one : ℕ → Bool
space_one c = c == 32 || (leb 9 c && leb c 13)

abbrev space_two : ℕ → ℕ → Bool
space_two a b = a == 194 && (b == 133 || b == 160)

abbrev space_three : ℕ → ℕ → ℕ → Bool
space_three a b c =
    (a == 225 && (b == 154 && c == 128))
    || ((a == 226
          && (b == 128 && ((leb 128 c && leb c 138) || (c == 168 || (c == 169 || c == 175)))))
        || ((a == 226 && (b == 129 && c == 159)) || (a == 227 && (b == 128 && c == 128))))

-- The number of bytes of the white space that a text starts with, or zero.
unfoldable pub space_width : Bytes → ℕ
space_width [] = 0
space_width (a ∷ []) = if space_one a then 1 else 0
space_width (a ∷ b ∷ []) = if space_one a then 1 else if space_two a b then 2 else 0
space_width (a ∷ b ∷ c ∷ s) =
    if space_one a then 1 else if space_two a b then 2 else if space_three a b c then 3 else 0

-- The same of a reversed text.
unfoldable pub reversed_space_width : Bytes → ℕ
reversed_space_width [] = 0
reversed_space_width (a ∷ []) = if space_one a then 1 else 0
reversed_space_width (a ∷ b ∷ []) = if space_one a then 1 else if space_two b a then 2 else 0
reversed_space_width (a ∷ b ∷ c ∷ s) =
    if space_one a then 1 else if space_two b a then 2 else if space_three c b a then 3 else 0

-- Drops white space from the start, after `skip` bytes of it.
unfoldable pub trim_start_from : (Bytes → ℕ) → ℕ → Bytes → Bytes
trim_start_from width skip [] = []
trim_start_from width (suc skip) (a ∷ s) = trim_start_from width skip s
trim_start_from width zero (a ∷ s) = elim (width (a ∷ s)) [
  | zero ↦ a ∷ s
  | suc skip ↦ trim_start_from width skip s
]

unfoldable pub trim : Bytes → Bytes
unfolding trim_start_from space_width reversed_space_width
trim s =
    reverse (trim_start_from reversed_space_width 0 (reverse (trim_start_from space_width 0 s)))
