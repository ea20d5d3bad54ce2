-- ===== src/Transport/Http.antt =====
-- src/transport/http.rs: requests, responses, and what their debug output shows.
use oidc4rs.Prelude.{
  ℕ, ◌≡◌, refl, ◌⊎◌, Bool, true, ◌||◌, Option, none, some, List, [], ◌∷◌, arith, if◌then◌else◌,
  Bytes, codes, eq_ignore_ascii_case, length,
}

pub data HttpMethod : Type 0 where
  get post : HttpMethod

pub record HttpRequest : Type 0 where
  pub method : HttpMethod
  pub url : Bytes
  pub headers : List (Bytes × Bytes)
  pub body : Option Bytes

pub record HttpResponse : Type 0 where
  pub status : ℕ
  pub headers : List (Bytes × Bytes)
  pub body : Bytes

unfoldable pub is_sensitive_header : Bytes → Bool
is_sensitive_header name =
    eq_ignore_ascii_case name (codes "authorization")
    || eq_ignore_ascii_case name (codes "proxy-authorization")
    || eq_ignore_ascii_case name (codes "cookie")

-- The headers that `Debug` prints.
unfoldable pub debug_headers : List (Bytes × Bytes) → List (Bytes × Bytes)
debug_headers [] = []
debug_headers ((k, v) ∷ hs) =
    (k, if is_sensitive_header k then codes "***" else v) ∷ debug_headers hs

-- What `Debug` prints of the body: its number of bytes.
unfoldable pub debug_body : Option Bytes → Option ℕ
debug_body none = none
debug_body (some b) = some (length b)

-- Two lists of headers that differ only in the values of sensitive headers.
abbrev pub AgreeInPublic : List (Bytes × Bytes) → List (Bytes × Bytes) → Type 0
AgreeInPublic [] [] = Unit
AgreeInPublic ((k, v) ∷ hs) ((j, w) ∷ js) =
    (k ≡ j) × ((is_sensitive_header k ≡ true) ⊎ (v ≡ w)) × AgreeInPublic hs js
AgreeInPublic _ _ = ⊥

-- Two lists of headers that differ only in the values of sensitive headers have the same debug
-- output.
pub debug_headers-eq :
    (hs js : List (Bytes × Bytes)) → AgreeInPublic hs js → debug_headers hs ≡ debug_headers js
unfolding debug_headers
debug_headers-eq [] [] h = refl
debug_headers-eq ((k, v) ∷ hs) ((j, w) ∷ js) h = ground (arith, debug_headers-eq hs js h.2)
debug_headers-eq [] (j ∷ js) h = elim h [ ]
debug_headers-eq (k ∷ hs) [] h = elim h [ ]
