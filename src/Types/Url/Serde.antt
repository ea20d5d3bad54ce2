-- ===== src/Types/Url/Serde.antt =====
-- src/types/url.rs: the URL types as serde writes and reads them, on the text of a JSON string. The
-- error of a text that does not parse is the message that `Error::custom` keeps.
use Prim.Native.String.{String}
use oidc4rs.Prelude.{◌≡◌, refl, ap, ◌∙◌, Result, map_err, map_err-eq-ok, ok, Bytes}
use oidc4rs.Error.{Message, text}
use oidc4rs.Types.Url.{
  Url, UrlOps, IssuerUrl, https_from_str, issuer_from_str, redirect_from_str, post_logout_from_str,
  issuer_from_str_iff, https_from_str_iff,
}

-- `IssuerUrl` is written as it was given, the others as the crate url writes them.
unfoldable pub serialize_issuer : IssuerUrl → Bytes
serialize_issuer i = i.serialized

unfoldable pub serialize_https : Url → Bytes
serialize_https u = u.text

unfoldable pub serialize_redirect : Url → Bytes
serialize_redirect u = u.text

unfoldable pub serialize_post_logout : Url → Bytes
serialize_post_logout u = u.text

module _ (ops : UrlOps) where
  unfoldable pub deserialize_issuer : Bytes → Result Message IssuerUrl
  deserialize_issuer s = map_err text (issuer_from_str ops s)

  -- For the type of the given name.
  unfoldable pub deserialize_https : String → Bytes → Result Message Url
  deserialize_https name s = map_err text (https_from_str ops name s)

  unfoldable pub deserialize_redirect : Bytes → Result Message Url
  deserialize_redirect s = map_err text (redirect_from_str ops s)

  unfoldable pub deserialize_post_logout : Bytes → Result Message Url
  deserialize_post_logout s = map_err text (post_logout_from_str ops s)

  -- What the crate url documents of `as_str`: it parses to the URL again.
  abbrev pub Reparses : Type 0
  Reparses = (s : Bytes) (u : Url) → ops.parse_url s ≡ ok u → ops.parse_url u.text ≡ ok u

  module _ (law : Reparses) where
    deserialize_https-serialize :
        (name : String) (s : Bytes) (u : Url)
        → https_from_str ops name s ≡ ok u
        → deserialize_https name (serialize_https u) ≡ ok u
    unfolding deserialize_https serialize_https
    deserialize_https-serialize name s u h =
        let (parsed, secure) = (https_from_str_iff ops name s u).0 h in
        rw ((https_from_str_iff ops name u.text u).1 (law s u parsed, secure)) refl

    deserialize_issuer-serialize :
        (s : Bytes) (i : IssuerUrl)
        → issuer_from_str ops s ≡ ok i
        → deserialize_issuer (serialize_issuer i) ≡ ok i
    unfolding deserialize_issuer serialize_issuer
    deserialize_issuer-serialize s i h =
        let same = ((issuer_from_str_iff ops s i).0 h).1 in
        let again = ap (λ x. issuer_from_str ops x) same ∙ h in rw again refl

    deserialize_redirect-serialize :
        (s : Bytes) (u : Url)
        → redirect_from_str ops s ≡ ok u
        → deserialize_redirect (serialize_redirect u) ≡ ok u
    unfolding deserialize_redirect serialize_redirect redirect_from_str
    deserialize_redirect-serialize s u h = rw (law s u (map_err-eq-ok _ (ops.parse_url s) h)) refl

    deserialize_post_logout-serialize :
        (s : Bytes) (u : Url)
        → post_logout_from_str ops s ≡ ok u
        → deserialize_post_logout (serialize_post_logout u) ≡ ok u
    unfolding deserialize_post_logout serialize_post_logout post_logout_from_str
    deserialize_post_logout-serialize s u h =
        rw (law s u (map_err-eq-ok _ (ops.parse_url s) h)) refl

    -- Where the text of a URL parses to that URL again, every issuer, every URL of an https type and
    -- every redirect URI, also of a logout, that was read from a text is read back from what serde
    -- writes of it.
    pub deserialize-serialize :
        (name : String) (s e r l : Bytes) (issuer : IssuerUrl) (endpoint redirect logout : Url)
        → issuer_from_str ops s ≡ ok issuer
        → https_from_str ops name e ≡ ok endpoint
        → redirect_from_str ops r ≡ ok redirect
        → post_logout_from_str ops l ≡ ok logout
        → (deserialize_issuer (serialize_issuer issuer) ≡ ok issuer)
          × (deserialize_https name (serialize_https endpoint) ≡ ok endpoint)
          × (deserialize_redirect (serialize_redirect redirect) ≡ ok redirect)
          × (deserialize_post_logout (serialize_post_logout logout) ≡ ok logout)
    deserialize-serialize name s e r l issuer endpoint redirect logout h k m n = (
      deserialize_issuer-serialize s issuer h,
      deserialize_https-serialize name e endpoint k,
      deserialize_redirect-serialize r redirect m,
      deserialize_post_logout-serialize l logout n,
    )
