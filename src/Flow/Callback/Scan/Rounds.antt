-- ===== src/Flow/Callback/Scan/Rounds.antt =====
-- src/flow/callback.rs: one round of the loop, by the bytes that stand at its index.
use oidc4rs.Prelude.{
  ℕ, ◌+◌, ◌-◌, ◌<◌, ◌≡◌, refl, sym, ap, ◌∙◌, true, false, Option, none, some, [], ◌∷◌, arith, leb,
  ◌==◌, Bytes, length, drop, get_range?, get_elem?-drop, length-drop,
}
use oidc4rs.Prelude.{
  ℕ, ◌+◌, ◌-◌, ◌<◌, ◌≡◌, refl, sym, ap, ◌∙◌, true, false, Option, none, some, [], ◌∷◌, arith, leb,
  ◌==◌, Bytes, length, drop, get_range?, get_elem?-drop, length-drop,
}
use oidc4rs.Flow.Callback.{plain_byte}
use oidc4rs.Flow.Callback.Scan.{hex_byte, scan_round}

-- The round at an index, by what stands there.
pub scan_round-plain :
    (encoded : Bytes) (index c : ℕ) (rest : Bytes)
    → drop index encoded ≡ c ∷ rest
    → (c == b'%') ≡ false
    → scan_round encoded index ≡ some (plain_byte c, index + 1)
unfolding scan_round
scan_round-plain encoded index c rest h p =
    rw (scan_round, (get_elem?-drop encoded index c rest h).0, p) refl

-- The range of the two digits, where they are not there and where they are.
get_range?-short :
    (encoded : Bytes) (index c : ℕ) (rest : Bytes)
    → drop index encoded ≡ c ∷ rest
    → length rest < 2
    → get_range? encoded (index + 1) (index + 3) ≡ none
get_range?-short encoded index c rest h short =
    let left : length (c ∷ rest) ≡ length encoded - index =
      ap length (sym h) ∙ length-drop index encoded in
    let beyond : leb (index + 3) (length encoded) ≡ false = ground (arith, left) in
    ground (arith, beyond)

get_range?-two :
    (encoded : Bytes) (index c h l : ℕ) (rest : Bytes)
    → drop index encoded ≡ c ∷ h ∷ l ∷ rest
    → get_range? encoded (index + 1) (index + 3) ≡ some (h ∷ l ∷ [])
get_range?-two encoded index c h l rest e =
    let left : length (c ∷ h ∷ l ∷ rest) ≡ length encoded - index =
      ap length (sym e) ∙ length-drop index encoded in
    let within : leb (index + 3) (length encoded) ≡ true = ground (arith, left) in
    let ordered : leb (index + 1) (index + 3) ≡ true = ground arith in
    let two : index + 3 - (index + 1) ≡ 2 = omega arith in
    rw (ordered, within, two, (get_elem?-drop encoded index c (h ∷ l ∷ rest) e).1) refl

pub drop_three :
    (encoded : Bytes) (index c h l : ℕ) (rest : Bytes)
    → drop index encoded ≡ c ∷ h ∷ l ∷ rest
    → drop (index + 3) encoded ≡ rest
drop_three encoded index c h l rest e =
    let one = (get_elem?-drop encoded index c (h ∷ l ∷ rest) e).1 in
    let two = (get_elem?-drop encoded (index + 1) h (l ∷ rest) one).1 in
    let three = (get_elem?-drop encoded (index + 1 + 1) l rest two).1 in
    let same : index + 3 ≡ index + 1 + 1 + 1 = omega arith in ap (λ n. drop n encoded) same ∙ three

pub scan_round-cut :
    (encoded : Bytes) (index c : ℕ) (rest : Bytes)
    → drop index encoded ≡ c ∷ rest
    → (c == b'%') ≡ true
    → length rest < 2
    → scan_round encoded index ≡ none
unfolding scan_round
scan_round-cut encoded index c rest h p short =
    rw
      (
        scan_round,
        (get_elem?-drop encoded index c rest h).0,
        p,
        get_range?-short encoded index c rest h short,
      )
      refl

pub scan_round-escaped :
    (encoded : Bytes) (index c h l : ℕ) (rest : Bytes) (o : Option ℕ)
    → drop index encoded ≡ c ∷ h ∷ l ∷ rest
    → (c == b'%') ≡ true
    → hex_byte (h ∷ l ∷ []) ≡ o
    → scan_round encoded index ≡ (elim o [ none ↦ none | some b ↦ some (b, index + 3) ])
unfolding scan_round
scan_round-escaped encoded index c h l rest o e p d =
    rw
      (
        scan_round,
        (get_elem?-drop encoded index c (h ∷ l ∷ rest) e).0,
        p,
        get_range?-two encoded index c h l rest e,
        d,
      )
      refl
