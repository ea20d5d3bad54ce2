-- ===== src/Flow/Callback/Scan/Total.antt =====
-- src/flow/callback.rs: the loop ends, with what the structural loop returns.
use mathlib.Core.Path.{subst}
use oidc4rs.Prelude.{
  ℕ, zero, suc, ◌+◌, ◌-◌, ◌<◌, ◌≡◌, refl, sym, ap, ◌∙◌, ◌⊎◌, inl, inr, true, false, Option, none,
  some, [], ◌∷◌, ◌++◌, arith, ltb, ◌==◌, Bool-cases, Option-cases, Bytes, length, drop,
  get_elem?-drop, length-drop,
}
use mathlib.Core.List.{append-nil, append_assoc}
use oidc4rs.Prelude.{
  ℕ, zero, suc, ◌+◌, ◌-◌, ◌<◌, ◌≡◌, refl, sym, ap, ◌∙◌, ◌⊎◌, inl, inr, true, false, Option, none,
  some, [], ◌∷◌, ◌++◌, arith, ltb, ◌==◌, Bool-cases, Option-cases, Bytes, length, drop,
  get_elem?-drop, length-drop,
}
use mathlib.Core.List.{append-nil, append_assoc}
use oidc4rs.Flow.Callback.{push_front, plain_byte, push_front, decode_component}
use oidc4rs.Flow.Callback.Scan.{hex_byte, scan_round, scan}
use oidc4rs.Flow.Callback.Scan.Rounds.{
  scan_round-plain, scan_round-cut, scan_round-escaped, drop_three,
}

abbrev after : Bytes → Option Bytes → Option Bytes
after decoded none = none
after decoded (some rest) = some (decoded ++ rest)

after_nothing : (o : Option Bytes) → after [] o ≡ o
after_nothing none = refl
after_nothing (some rest) = refl

append_one :
    (decoded : Bytes) (b : ℕ) (o : Option Bytes)
    → after (decoded ++ (b ∷ [])) o ≡ after decoded (push_front b o)
append_one decoded b none = refl
append_one decoded b (some rest) = ap (λ s. some s) (append_assoc decoded (b ∷ []) rest)

-- A round of the loop, that returns early or goes on.
module _ (encoded : Bytes) (index c : ℕ) (rest : Bytes) (h : drop index encoded ≡ c ∷ rest) where
  within : ltb index (length encoded) ≡ true
  within =
      let left : length (c ∷ rest) ≡ length encoded - index =
        ap length (sym h) ∙ length-drop index encoded in
      ground (arith, left)

  scan_refuses :
      (fuel : ℕ) (decoded : Bytes)
      → scan_round encoded index ≡ none
      → scan (suc fuel) encoded index decoded ≡ some none
  unfolding scan
  scan_refuses fuel decoded e = rw (scan, within, e) refl

  scan_continues :
      (fuel : ℕ) (decoded : Bytes) (b next : ℕ)
      → scan_round encoded index ≡ some (b, next)
      → scan (suc fuel) encoded index decoded ≡ scan fuel encoded next (decoded ++ (b ∷ []))
  unfolding scan
  scan_continues fuel decoded b next e = rw (scan, within, e) refl

-- The structural loop at the same place.
decode_component-plain :
    (c : ℕ) (rest : Bytes)
    → (c == b'%') ≡ false
    → decode_component (c ∷ rest) ≡ push_front (plain_byte c) (decode_component rest)
unfolding decode_component
decode_component-plain c [] p = rw p refl
decode_component-plain c (h ∷ []) p = rw p refl
decode_component-plain c (h ∷ l ∷ s) p = rw p refl

decode_component-escaped :
    (c h l : ℕ) (rest : Bytes) (o : Option ℕ)
    → (c == b'%') ≡ true
    → hex_byte (h ∷ l ∷ []) ≡ o
    → decode_component (c ∷ h ∷ l ∷ rest)
      ≡ (elim o [ none ↦ none | some b ↦ push_front b (decode_component rest) ])
unfolding decode_component hex_byte
decode_component-escaped c h l rest o p d = ground (arith, p, d)

decode_component-cut :
    (c : ℕ) (rest : Bytes)
    → (c == b'%') ≡ true
    → length rest < 2
    → decode_component (c ∷ rest) ≡ none
unfolding decode_component
decode_component-cut c [] p short = rw p refl
decode_component-cut c (h ∷ []) p short = rw p refl
decode_component-cut c (h ∷ l ∷ s) p short = absurd (omega arith)

-- The end of the loop.
scan_ends :
    (encoded : Bytes) (index : ℕ)
    → drop index encoded ≡ []
    → (fuel : ℕ) (decoded : Bytes)
    → scan (suc fuel) encoded index decoded ≡ some (after decoded (decode_component []))
unfolding scan decode_component
scan_ends encoded index h fuel decoded =
    let left : length {A = ℕ} [] ≡ length encoded - index =
      ap length (sym h) ∙ length-drop index encoded in
    let outside : ltb index (length encoded) ≡ false = ground (arith, left) in
    rw (scan, outside) (ap (λ s. some (some s)) (sym (append-nil decoded)))

-- What a run of the loop returns from an index on, with what it has decoded before.
abbrev Decodes : ℕ → Bytes → ℕ → Bytes → Bytes → Type 0
Decodes fuel encoded index decoded rest =
    scan fuel encoded index decoded ≡ some (after decoded (decode_component rest))

Decodes-plain :
    (fuel : ℕ) (encoded : Bytes) (index : ℕ) (decoded : Bytes) (c : ℕ) (rest : Bytes)
    → drop index encoded ≡ c ∷ rest
    → (c == b'%') ≡ false
    → Decodes fuel encoded (index + 1) (decoded ++ (plain_byte c ∷ [])) rest
    → Decodes (suc fuel) encoded index decoded (c ∷ rest)
Decodes-plain fuel encoded index decoded c rest h p later =
    scan_continues encoded index c rest h fuel decoded (plain_byte c) (index + 1)
      (scan_round-plain encoded index c rest h p)
    ∙ (later
        ∙ ap (λ o. some o)
            (append_one decoded (plain_byte c) (decode_component rest)
              ∙ ap (after decoded) (sym (decode_component-plain c rest p))))

Decodes-cut :
    (fuel : ℕ) (encoded : Bytes) (index : ℕ) (decoded : Bytes) (c : ℕ) (rest : Bytes)
    → drop index encoded ≡ c ∷ rest
    → (c == b'%') ≡ true
    → length rest < 2
    → Decodes (suc fuel) encoded index decoded (c ∷ rest)
Decodes-cut fuel encoded index decoded c rest h p short =
    scan_refuses encoded index c rest h fuel decoded (scan_round-cut encoded index c rest h p short)
    ∙ ap (λ o. some (after decoded o)) (sym (decode_component-cut c rest p short))

Decodes-escaped :
    (fuel : ℕ) (encoded : Bytes) (index : ℕ) (decoded : Bytes) (c h l : ℕ) (rest : Bytes)
    → drop index encoded ≡ c ∷ h ∷ l ∷ rest
    → (c == b'%') ≡ true
    → ((b : ℕ) → Decodes fuel encoded (index + 3) (decoded ++ (b ∷ [])) rest)
    → Decodes (suc fuel) encoded index decoded (c ∷ h ∷ l ∷ rest)
Decodes-escaped fuel encoded index decoded c h l rest e p later =
    elim (Option-cases (hex_byte (h ∷ l ∷ []))) [
      | inl bad ↦
          scan_refuses encoded index c (h ∷ l ∷ rest) e fuel decoded
            (scan_round-escaped encoded index c h l rest none e p bad)
          ∙ ap (λ o. some (after decoded o)) (sym (decode_component-escaped c h l rest none p bad))
      | inr (b, good) ↦
          scan_continues encoded index c (h ∷ l ∷ rest) e fuel decoded b (index + 3)
            (scan_round-escaped encoded index c h l rest (some b) e p good)
          ∙ (later b
              ∙ ap (λ o. some o)
                  (append_one decoded b (decode_component rest)
                    ∙ ap (after decoded)
                        (sym (decode_component-escaped c h l rest (some b) p good))))
    ]

two_or_fewer :
    (s : Bytes) → (length s < 2) ⊎ ((h : ℕ) × (l : ℕ) × (rest : Bytes) × (s ≡ h ∷ l ∷ rest))
two_or_fewer [] = inl (omega arith)
two_or_fewer (h ∷ []) = inl (omega arith)
two_or_fewer (h ∷ l ∷ rest) = inr (h, l, rest, refl)

-- Fuel is enough that exceeds the number of bytes that are left.
scan-Decodes :
    (fuel : ℕ) (encoded : Bytes) (index : ℕ) (decoded rest : Bytes)
    → drop index encoded ≡ rest
    → length rest < fuel
    → Decodes fuel encoded index decoded rest
scan-Decodes zero encoded index decoded rest h lt = absurd (omega arith)
scan-Decodes (suc fuel) encoded index decoded [] h lt = scan_ends encoded index h fuel decoded
scan-Decodes (suc fuel) encoded index decoded (c ∷ rest) h lt = elim (Bool-cases (c == b'%')) [
  | inr p ↦ Decodes-plain fuel encoded index decoded c rest h p (
      scan-Decodes fuel encoded (index + 1) (decoded ++ (plain_byte c ∷ [])) rest
        (get_elem?-drop encoded index c rest h).1 (omega (arith, lt)))
  | inl p ↦ elim (two_or_fewer rest) [
    | inl short ↦ Decodes-cut fuel encoded index decoded c rest h p short
    | inr (d, l, more, is) ↦
        let at : drop index encoded ≡ c ∷ d ∷ l ∷ more = h ∙ ap (λ s. c ∷ s) is in
        let fewer : length more < fuel = omega (arith, lt, ap length is) in
        subst (λ s. Decodes (suc fuel) encoded index decoded (c ∷ s)) (sym is)
          (Decodes-escaped fuel encoded index decoded c d l more at p (λ b.
            scan-Decodes fuel encoded (index + 3) (decoded ++ (b ∷ [])) more
              (drop_three encoded index c d l more at) fewer))
  ]
]

-- The loop of `validate_encoded_component` ends after at most as many rounds as the component has
-- bytes, and has then decoded what the structural loop decodes, or returned early where that fails.
pub scan-decode_component :
    (component : Bytes)
    → scan (length component + 1) component 0 [] ≡ some (decode_component component)
scan-decode_component component =
    scan-Decodes (length component + 1) component 0 [] component refl (omega arith)
    ∙ ap (λ o. some o) (after_nothing (decode_component component))
