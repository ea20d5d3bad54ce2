-- ===== src/Flow/Callback.antt =====
-- src/flow/callback.rs: parsing of an authorization response. `url::form_urlencoded::parse` is the
-- parameter `form_parse`, from the raw query to its decoded names and values.
pub mod Encoding
pub mod Scan
pub mod Response
use oidc4rs.Prelude.{
  ℕ, ◌+◌, ◌-◌, ◌*◌, Bool, true, false, not, ◌&&◌, ◌||◌, Option, none, some, List, [], ◌∷◌, ltb, leb,
  ◌==◌, if◌then◌else◌, is_some, unwrap_or, Result, ◌>>=◌, ◌>>◌, ensure, ok_or, ok, err, Bytes,
  codes, eqb, split_once, split, any, all,
}
use Prim.Native.String.{String}
use oidc4rs.Error.{
  CallbackError, missing, duplicate_parameter, ambiguous_response, invalid_parameter, parse, say,
}

-- `AuthorizationResponse`.
pub data AuthorizationResponse : Type 0 where
  success : (code state : Bytes) (iss : Option Bytes) → AuthorizationResponse
  error :
      (error : Bytes) (description error_uri : Option Bytes) (state : Bytes) (iss : Option Bytes)
      → AuthorizationResponse

-- `AuthorizationResponse::state` and `AuthorizationResponse::issuer`.
unfoldable pub state : AuthorizationResponse → Bytes
state (success _ s _) = s
state (error _ _ _ s _) = s

unfoldable pub issuer : AuthorizationResponse → Option Bytes
issuer (success _ _ iss) = iss
issuer (error _ _ _ _ iss) = iss

abbrev between : ℕ → ℕ → ℕ → Bool
between lo hi c = leb lo c && leb c hi

unfoldable pub hex_value : ℕ → Option ℕ
hex_value byte =
    if between b'0' b'9' byte
    then some (byte - b'0')
    else if between b'a' b'f' byte
    then some (byte - b'a' + 10)
    else if between b'A' b'F' byte
    then some (byte - b'A' + 10)
    else none

abbrev pub plain_byte : ℕ → ℕ
plain_byte c = if c == b'+' then 32 else c

abbrev pub push_front : ℕ → Option Bytes → Option Bytes
push_front c none = none
push_front c (some s) = some (c ∷ s)

-- `(high << 4) | low` in front of the rest, where both are hex digits.
abbrev pub push_hex : Option ℕ → Option ℕ → Option Bytes → Option Bytes
push_hex (some high) (some low) rest = push_front (high * 16 + low) rest
push_hex _ _ rest = none

-- The loop of `validate_encoded_component`: the decoded bytes, or none where it returns an error.
unfoldable pub decode_component : Bytes → Option Bytes
decode_component [] = some []
decode_component (c ∷ []) = if c == b'%' then none else some (plain_byte c ∷ [])
decode_component (c ∷ h ∷ []) =
    let rest = decode_component (h ∷ []) in
    if c == b'%' then none else push_front (plain_byte c) rest
decode_component (c ∷ h ∷ l ∷ s) =
    let escaped = push_hex (hex_value h) (hex_value l) (decode_component s) in
    let unescaped = push_front (plain_byte c) (decode_component (h ∷ l ∷ s)) in
    if c == b'%' then escaped else unescaped

-- `std::str::from_utf8`: the ranges of the bytes that must follow a lead byte.
abbrev tail_byte : ℕ × ℕ
tail_byte = (0x80, 0xbf)

unfoldable pub utf8_tail : ℕ → Option (List (ℕ × ℕ))
utf8_tail b =
    if ltb b 0x80
    then some []
    else if between 0xc2 0xdf b
    then some (tail_byte ∷ [])
    else if b == 0xe0
    then some ((0xa0, 0xbf) ∷ tail_byte ∷ [])
    else if b == 0xed
    then some ((0x80, 0x9f) ∷ tail_byte ∷ [])
    else if between 0xe1 0xef b
    then some (tail_byte ∷ tail_byte ∷ [])
    else if b == 0xf0
    then some ((0x90, 0xbf) ∷ tail_byte ∷ tail_byte ∷ [])
    else if between 0xf1 0xf3 b
    then some (tail_byte ∷ tail_byte ∷ tail_byte ∷ [])
    else if b == 0xf4
    then some ((0x80, 0x8f) ∷ tail_byte ∷ tail_byte ∷ [])
    else none

unfoldable pub utf8_from : List (ℕ × ℕ) → Bytes → Bool
utf8_from [] [] = true
utf8_from (r ∷ rs) [] = false
utf8_from [] (b ∷ s) = elim (utf8_tail b) [ none ↦ false | some rs ↦ utf8_from rs s ]
utf8_from ((lo, hi) ∷ rs) (b ∷ s) = between lo hi b && utf8_from rs s

abbrev pub is_utf8 : Bytes → Bool
is_utf8 s = utf8_from [] s

abbrev pub Checked : Type 0
Checked = Result CallbackError (Unit {0})

abbrev invalid_form_encoding : CallbackError
invalid_form_encoding = parse (say "authorization response is not valid form encoding")

unfoldable pub validate_encoded_component : Bytes → Checked
validate_encoded_component component = elim (decode_component component) [
  | none ↦ err invalid_form_encoding
  | some decoded ↦ ensure (is_utf8 decoded) invalid_form_encoding
]

unfoldable pub validate_fields : List Bytes → Checked
validate_fields [] = ok tt
validate_fields (field ∷ fields) = do
  let parts = unwrap_or (split_once b'=' field) (field, [])
  validate_encoded_component parts.0
  validate_encoded_component parts.1
  validate_fields fields

unfoldable pub validate_form_encoding : Bytes → Checked
validate_form_encoding raw = validate_fields (split b'&' raw)

abbrev pub Params : Type 0
Params = List (Bytes × Bytes)

-- The loop that inserts each name into a hash set: the first name that is there already.
unfoldable pub find_duplicate : List Bytes → Params → Option Bytes
find_duplicate seen [] = none
find_duplicate seen ((name, value) ∷ ps) =
    if any (eqb name) seen then some name else find_duplicate (name ∷ seen) ps

abbrev pub non_empty : Bytes → Option Bytes
non_empty [] = none
non_empty (c ∷ s) = some (c ∷ s)

unfoldable pub parameter : Params → Bytes → Option Bytes
parameter [] name = none
parameter ((key, value) ∷ ps) name = if eqb key name then non_empty value else parameter ps name

unfoldable pub validate_chars : String → Bytes → (ℕ → Bool) → Checked
validate_chars name value allowed = ensure (all allowed value) (invalid_parameter name)

abbrev pub is_vschar : ℕ → Bool
is_vschar b = between 0x20 0x7e b

abbrev pub is_nqschar : ℕ → Bool
is_nqschar b = between 0x20 0x21 b || between 0x23 0x5b b || between 0x5d 0x7e b

abbrev pub is_uri_reference_char : ℕ → Bool
is_uri_reference_char b = b == 0x21 || between 0x23 0x5b b || between 0x5d 0x7e b

unfoldable pub validate_vschar : String → Bytes → Checked
validate_vschar name value = validate_chars name value (λ b. is_vschar b)

unfoldable pub validate_nqschar : String → Bytes → Checked
validate_nqschar name value = validate_chars name value (λ b. is_nqschar b)

unfoldable pub validate_uri_reference_chars : String → Bytes → Checked
validate_uri_reference_chars name value = validate_chars name value (λ b. is_uri_reference_char b)

-- `if let Some(value) = … { validate(value)? }`.
abbrev pub when_some : Option Bytes → (Bytes → Checked) → Checked
when_some none f = ok tt
when_some (some v) f = f v

abbrev pub reject_duplicates : Params → Checked
reject_duplicates ps = elim (find_duplicate [] ps) [
  | none ↦ ok tt
  | some name ↦ err (duplicate_parameter name)
]

-- The branch of an error response.
unfoldable pub error_response :
    Bytes
    → (description error_uri state iss : Option Bytes) → Result CallbackError AuthorizationResponse
error_response e description error_uri given_state iss = do
  validate_nqschar "error" e
  when_some description (validate_nqschar "error_description")
  when_some error_uri (validate_uri_reference_chars "error_uri")
  s ← ok_or given_state (missing "state")
  validate_vschar "state" s
  ok (error e description error_uri s iss)

-- The branch of a code response.
unfoldable pub code_response :
    (code description error_uri state iss : Option Bytes)
    → Result CallbackError AuthorizationResponse
code_response given_code description error_uri given_state iss = do
  ensure (not (is_some description || is_some error_uri)) (missing "error")
  c ← ok_or given_code (missing "code")
  s ← ok_or given_state (missing "state")
  validate_vschar "code" c
  validate_vschar "state" s
  ok (success c s iss)

abbrev is_ambiguous : (code e description error_uri : Option Bytes) → Bool
is_ambiguous given_code e description error_uri =
    is_some given_code && (is_some e || is_some description || is_some error_uri)

-- The branches on the parameters that were found.
unfoldable pub classify_given :
    (code e description error_uri state iss : Option Bytes)
    → Result CallbackError AuthorizationResponse
classify_given given_code none description error_uri given_state iss = do
  ensure (not (is_ambiguous given_code none description error_uri)) ambiguous_response
  code_response given_code description error_uri given_state iss
classify_given given_code (some e) description error_uri given_state iss = do
  ensure (not (is_ambiguous given_code (some e) description error_uri)) ambiguous_response
  error_response e description error_uri given_state iss

-- What follows the checks of the whole query.
unfoldable pub classify : Params → Result CallbackError AuthorizationResponse
classify ps =
    classify_given (parameter ps (codes "code")) (parameter ps (codes "error"))
      (parameter ps (codes "error_description")) (parameter ps (codes "error_uri"))
      (parameter ps (codes "state")) (parameter ps (codes "iss"))

unfoldable pub parse_authorization_response :
    (Bytes → Params) → Bytes → Result CallbackError AuthorizationResponse
parse_authorization_response form_parse raw = do
  validate_form_encoding raw
  reject_duplicates (form_parse raw)
  classify (form_parse raw)
