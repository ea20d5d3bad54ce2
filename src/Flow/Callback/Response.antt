-- ===== src/Flow/Callback/Response.antt =====
-- What `parse_authorization_response` accepts, exactly, and what each accepted response holds.
use oidc4rs.Prelude.{
  ℕ, ◌≡◌, ◌≢◌, ◌↔◌, Bool, true, false, Option, none, some, List, [], ◌∷◌, arith, ok, Bytes, codes,
  eqb, any, all, All,
}
use oidc4rs.Flow.Callback.{
  Params, find_duplicate, validate_form_encoding, parameter, validate_chars, is_vschar, is_nqschar,
  String, code_response, is_uri_reference_char, validate_vschar, success, error_response, error,
  parse_authorization_response, validate_nqschar, classify, validate_uri_reference_chars,
  classify_given, reject_duplicates, AuthorizationResponse,
}

-- Every byte passes a test.
abbrev pub AllPass : (ℕ → Bool) → Bytes → Type 0
AllPass p s = All (λ b. p b ≡ true) s

-- No name occurs before, and none occurs twice.
abbrev pub Distinct : List Bytes → Params → Type 0
Distinct seen [] = Unit
Distinct seen ((name, value) ∷ ps) = (any (eqb name) seen ≡ false) × Distinct (name ∷ seen) ps

find_duplicate-eq-none_iff :
    (seen : List Bytes) (ps : Params) → (find_duplicate seen ps ≡ none) ↔ Distinct seen ps
unfolding find_duplicate
find_duplicate-eq-none_iff seen [] = ground arith
find_duplicate-eq-none_iff seen ((name, value) ∷ ps) =
    ground (arith, find_duplicate-eq-none_iff (name ∷ seen) ps)

all_iff : (p : ℕ → Bool) (s : Bytes) → (all p s ≡ true) ↔ AllPass p s
unfolding all
all_iff p [] = ground arith
all_iff p (b ∷ s) = ground (arith, all_iff p s)

-- The checks of the whole query.
pub record IsWellFormed (form_parse : Bytes → Params) (raw : Bytes) : Type 0 where
  pub encoded : validate_form_encoding raw ≡ ok tt
  pub distinct : Distinct [] (form_parse raw)

-- A code response: the parameters that are present and absent, and their characters. An empty
-- value counts as absent.
pub record IsCodeResponse (ps : Params) (code state : Bytes) (iss : Option Bytes) : Type 0 where
  pub has_code : parameter ps (codes "code") ≡ some code
  pub has_state : parameter ps (codes "state") ≡ some state
  pub has_iss : parameter ps (codes "iss") ≡ iss
  pub no_error : parameter ps (codes "error") ≡ none
  pub no_description : parameter ps (codes "error_description") ≡ none
  pub no_error_uri : parameter ps (codes "error_uri") ≡ none
  pub code_chars : AllPass (λ b. is_vschar b) code
  pub state_chars : AllPass (λ b. is_vschar b) state

abbrev pub OptionPass : (ℕ → Bool) → Option Bytes → Type 0
OptionPass p none = Unit
OptionPass p (some s) = AllPass p s

-- An error response.
pub record IsErrorResponse (ps : Params) (e : Bytes) (description error_uri : Option Bytes)
    (state : Bytes) (iss : Option Bytes) : Type 0 where
  pub has_error : parameter ps (codes "error") ≡ some e
  pub has_description : parameter ps (codes "error_description") ≡ description
  pub has_error_uri : parameter ps (codes "error_uri") ≡ error_uri
  pub has_state : parameter ps (codes "state") ≡ some state
  pub has_iss : parameter ps (codes "iss") ≡ iss
  pub no_code : parameter ps (codes "code") ≡ none
  pub error_chars : AllPass (λ b. is_nqschar b) e
  pub description_chars : OptionPass (λ b. is_nqschar b) description
  pub error_uri_chars : OptionPass (λ b. is_uri_reference_char b) error_uri
  pub state_chars : AllPass (λ b. is_vschar b) state

validate_chars_iff :
    (name : String) (value : Bytes) (p : ℕ → Bool)
    → (validate_chars name value p ≡ ok tt) ↔ AllPass p value
unfolding validate_chars
validate_chars_iff name value p = ground (arith, all_iff p value)

code_response_iff :
    (given_code description error_uri given_state given_iss : Option Bytes) (code state : Bytes)
    (iss : Option Bytes)
    → (code_response given_code description error_uri given_state given_iss
        ≡ ok (success code state iss))
      ↔ ((given_code ≡ some code)
          × (given_state ≡ some state)
          × (given_iss ≡ iss)
          × (description ≡ none)
          × (error_uri ≡ none)
          × (all (λ b. is_vschar b) code ≡ true)
          × (all (λ b. is_vschar b) state ≡ true))
unfolding code_response validate_vschar validate_chars
code_response_iff given_code description error_uri given_state given_iss code state iss =
    ground arith

abbrev OptionalAll : (ℕ → Bool) → Option Bytes → Type 0
OptionalAll p none = Unit
OptionalAll p (some s) = all p s ≡ true

optional_iff : (p : ℕ → Bool) (o : Option Bytes) → OptionalAll p o ↔ OptionPass p o
optional_iff p none = ground arith
optional_iff p (some s) = ground (arith, all_iff p s)

error_response_iff :
    (given_e : Bytes) (given_description given_uri given_state given_iss : Option Bytes) (e : Bytes)
    (description error_uri : Option Bytes) (state : Bytes) (iss : Option Bytes)
    → (error_response given_e given_description given_uri given_state given_iss
        ≡ ok (error e description error_uri state iss))
      ↔ ((given_e ≡ e)
          × (given_description ≡ description)
          × (given_uri ≡ error_uri)
          × (given_state ≡ some state)
          × (given_iss ≡ iss)
          × (all (λ b. is_nqschar b) e ≡ true)
          × OptionalAll (λ b. is_nqschar b) description
          × OptionalAll (λ b. is_uri_reference_char b) error_uri
          × (all (λ b. is_vschar b) state ≡ true))
unfolding error_response validate_vschar validate_nqschar validate_uri_reference_chars
    validate_chars
error_response_iff given_e none none given_state given_iss e description error_uri state iss =
    ground arith
error_response_iff given_e _ _ given_state given_iss e description error_uri state iss =
    ground arith

code_response-ne-error :
    (c d u s i : Option Bytes) (e : Bytes) (description error_uri : Option Bytes) (state : Bytes)
    (iss : Option Bytes)
    → code_response c d u s i ≢ ok (error e description error_uri state iss)
unfolding code_response validate_vschar validate_chars
code_response-ne-error c d u s i e description error_uri state iss h = ground arith

error_response-ne-success :
    (e : Bytes) (d u s i : Option Bytes) (code state : Bytes) (iss : Option Bytes)
    → error_response e d u s i ≢ ok (success code state iss)
unfolding error_response validate_vschar validate_nqschar validate_uri_reference_chars
    validate_chars
error_response-ne-success e none none s i code state iss h = ground arith
error_response-ne-success e _ _ s i code state iss h = ground arith

classify_given-success_iff :
    (c e d u s i : Option Bytes) (code state : Bytes) (iss : Option Bytes)
    → (classify_given c e d u s i ≡ ok (success code state iss)) ↔ (
        (c ≡ some code)
        × (s ≡ some state)
        × (i ≡ iss)
        × (e ≡ none)
        × (d ≡ none)
        × (u ≡ none)
        × (all (λ b. is_vschar b) code ≡ true)
        × (all (λ b. is_vschar b) state ≡ true))
unfolding classify_given
classify_given-success_iff c none d u s i code state iss =
    ground (arith, code_response_iff c d u s i code state iss)
classify_given-success_iff c (some e) d u s i code state iss =
    ground (arith, error_response-ne-success e d u s i code state iss)

classify_given-error_iff :
    (c given d u s i : Option Bytes) (e : Bytes) (description error_uri : Option Bytes)
    (state : Bytes) (iss : Option Bytes)
    → (classify_given c given d u s i ≡ ok (error e description error_uri state iss)) ↔ (
        (c ≡ none)
        × (given ≡ some e)
        × (d ≡ description)
        × (u ≡ error_uri)
        × (s ≡ some state)
        × (i ≡ iss)
        × (all (λ b. is_nqschar b) e ≡ true)
        × OptionalAll (λ b. is_nqschar b) description
        × OptionalAll (λ b. is_uri_reference_char b) error_uri
        × (all (λ b. is_vschar b) state ≡ true))
unfolding classify_given
classify_given-error_iff c none d u s i e description error_uri state iss =
    ground (arith, code_response-ne-error c d u s i e description error_uri state iss)
classify_given-error_iff c (some given) d u s i e description error_uri state iss =
    ground (arith, error_response_iff given d u s i e description error_uri state iss)

reject_duplicates_iff : (ps : Params) → (reject_duplicates ps ≡ ok tt) ↔ Distinct [] ps
reject_duplicates_iff ps = ground (arith, find_duplicate-eq-none_iff [] ps)

module _ (form_parse : Bytes → Params) (raw : Bytes) where
  parse-eq-ok_iff :
      (r : AuthorizationResponse)
      → (parse_authorization_response form_parse raw ≡ ok r) ↔ (
          (validate_form_encoding raw ≡ ok tt)
          × (reject_duplicates (form_parse raw) ≡ ok tt)
          × (classify (form_parse raw) ≡ ok r))
  unfolding parse_authorization_response
  parse-eq-ok_iff r = ground arith

  -- The parser returns a code response exactly when the query is well formed, its names are
  -- distinct, it has this non-empty code and state, of visible characters, and this issuer, and it
  -- has none of the error parameters with a value.
  pub parse-eq-success_iff :
      (code state : Bytes) (iss : Option Bytes)
      → (parse_authorization_response form_parse raw ≡ ok (success code state iss))
        ↔ (IsWellFormed form_parse raw × IsCodeResponse (form_parse raw) code state iss)
  unfolding classify
  parse-eq-success_iff code state iss =
      let get = λ (name : String). parameter (form_parse raw) (codes name) in
      ground (
        arith,
        parse-eq-ok_iff (success code state iss),
        reject_duplicates_iff (form_parse raw),
        classify_given-success_iff (get "code") (get "error") (get "error_description")
            (get "error_uri") (get "state") (get "iss") code state iss,
        all_iff (λ b. is_vschar b) code,
        all_iff (λ b. is_vschar b) state,
      )

  -- The parser returns an error response exactly when the query is well formed, its names are
  -- distinct, it has this non-empty error and state and these other parameters, no code with a
  -- value, and each value has the characters that its grammar allows.
  pub parse-eq-error_iff :
      (e : Bytes) (description error_uri : Option Bytes) (state : Bytes) (iss : Option Bytes)
      → (parse_authorization_response form_parse raw ≡ ok (error e description error_uri state iss))
        ↔ (IsWellFormed form_parse raw
            × IsErrorResponse (form_parse raw) e description error_uri state iss)
  unfolding classify
  parse-eq-error_iff e description error_uri state iss =
      let get = λ (name : String). parameter (form_parse raw) (codes name) in
      ground (
        arith,
        parse-eq-ok_iff (error e description error_uri state iss),
        reject_duplicates_iff (form_parse raw),
        classify_given-error_iff (get "code") (get "error") (get "error_description")
            (get "error_uri") (get "state") (get "iss") e description error_uri state iss,
        all_iff (λ b. is_nqschar b) e,
        optional_iff (λ b. is_nqschar b) description,
        optional_iff (λ b. is_uri_reference_char b) error_uri,
        all_iff (λ b. is_vschar b) state,
      )
