-- ===== src/Types/Url.antt =====
-- src/types/url.rs: the URL newtypes. A `url::Url` is known by its serialization, by which the
-- crate `url` compares and prints it; all else that the source asks of that crate is a field of
-- `UrlOps`.
pub mod Serde
use Prim.Native.String.{String}
use oidc4rs.Prelude.{
  ◌≡◌, ◌↔◌, Bool, true, not, ◌&&◌, ◌||◌, Option, none, [], ◌∷◌, arith, is_some, Result, ◌>>=◌, ◌>>◌,
  ensure, map_err, ok, Bytes, codes, eqb, eqb_iff,
}
use oidc4rs.Error.{Outcome, invalid_url, say, lit, arg}

pub record Url : Type 0 where
  pub text : Bytes

-- `==` on URLs.
abbrev pub url_eq : Url → Url → Bool
url_eq a b = eqb a.text b.text

pub record UrlOps : Type 0 where
  -- `Url::parse`, with the text of its error.
  pub parse_url : Bytes → Result Bytes Url
  pub scheme : Url → Bytes
  pub query : Url → Option Bytes
  pub fragment : Url → Option Bytes
  -- `query_pairs_mut` opens the query; each `append_pair` adds to it.
  pub query_pairs_mut : Url → Url
  pub append_pair : Url → Bytes → Bytes → Url
  -- `set_query(None)`.
  pub clear_query : Url → Url
  -- `path_segments_mut`, whose error says that the URL cannot be a base, and its edits.
  pub can_be_base : Url → Bool
  pub pop_if_empty : Url → Url
  pub push_segment : Url → Bytes → Url

-- `IssuerUrl`: the parsed URL, and the text it was parsed from.
pub record IssuerUrl : Type 0 where
  pub url : Url
  pub serialized : Bytes

-- The derived `==` of `IssuerUrl`.
unfoldable pub issuer_eq : IssuerUrl → IssuerUrl → Bool
issuer_eq a b = url_eq a.url b.url && eqb a.serialized b.serialized

module _ (ops : UrlOps) where
  abbrev parse_or_invalid : Bytes → Outcome Url
  parse_or_invalid s = map_err (λ e. invalid_url (arg e ∷ [])) (ops.parse_url s)

  -- `from_str` of the macro `https_url_newtype`, for the type of the given name.
  unfoldable pub https_from_str : String → Bytes → Outcome Url
  https_from_str name s = do
    url ← parse_or_invalid s
    ensure (eqb (ops.scheme url) (codes "https"))
        (invalid_url (lit name ∷ lit " requires https, got " ∷ arg (ops.scheme url) ∷ []))
    ok url

  -- `IssuerUrl::from_str`.
  unfoldable pub issuer_from_str : Bytes → Outcome IssuerUrl
  issuer_from_str s = do
    url ← parse_or_invalid s
    ensure (eqb (ops.scheme url) (codes "https"))
        (invalid_url (lit "IssuerUrl requires https, got " ∷ arg (ops.scheme url) ∷ []))
    ensure (not (is_some (ops.query url) || is_some (ops.fragment url)))
        (invalid_url (say "IssuerUrl must not contain a query or fragment"))
    ok (record { url = url; serialized = s })

  -- `RedirectUrl::from_str` and `PostLogoutRedirectUrl::from_str`: any scheme.
  unfoldable pub redirect_from_str : Bytes → Outcome Url
  redirect_from_str s = parse_or_invalid s

  unfoldable pub post_logout_from_str : Bytes → Outcome Url
  post_logout_from_str s = parse_or_invalid s

  -- An issuer is accepted exactly when its text parses to an https URL with no query and no
  -- fragment, and it keeps that text as it was written.
  pub issuer_from_str_iff :
      (s : Bytes) (i : IssuerUrl)
      → (issuer_from_str s ≡ ok i) ↔ (
          (ops.parse_url s ≡ ok i.url)
          × (i.serialized ≡ s)
          × (ops.scheme i.url ≡ codes "https")
          × (ops.query i.url ≡ none)
          × (ops.fragment i.url ≡ none))
  unfolding issuer_from_str
  issuer_from_str_iff s i = ground (arith, eqb_iff (ops.scheme i.url) (codes "https"))

  -- So is a URL of the https newtypes, with no condition on its query and fragment.
  pub https_from_str_iff :
      (name : String) (s : Bytes) (u : Url)
      → (https_from_str name s ≡ ok u) ↔ ((ops.parse_url s ≡ ok u) × (ops.scheme u ≡ codes "https"))
  unfolding https_from_str
  https_from_str_iff name s u = ground (arith, eqb_iff (ops.scheme u) (codes "https"))

pub issuer_eq_iff : (a b : IssuerUrl) → (issuer_eq a b ≡ true) ↔ (a ≡ b)
unfolding issuer_eq
issuer_eq_iff a b = ground (arith, eqb_iff a.url.text b.url.text, eqb_iff a.serialized b.serialized)

pub url_eq_iff : (a b : Url) → (url_eq a b ≡ true) ↔ (a ≡ b)
url_eq_iff a b = ground (arith, eqb_iff a.text b.text)
