-- ===== src/Tests/Links.antt =====
-- An authorization URL whose pairs can be read back. Each appended pair stands before the text, its
-- bytes moved up by 3 to keep them apart from three marks: 1 before the name, 0 before the value, 2
-- after it.
use oidc4rs.Time.{nanos_per_sec}
use oidc4rs.Types.Identifiers.{
  s256, new_verifier, new_state, new_nonce, random_url_safe, s256_from_verifier, scope_iter,
}
use oidc4rs.Flow.Authorize.Agreement.{Agrees, IsRepresentable, authorize-Agrees}
use oidc4rs.Flow.Authorize.Settings.{Setting, aged, param, apply_settings, apply_setting}
use oidc4rs.Flow.Authorize.{
  AuthorizeUrlBuilder, new_builder, AuthRequestState, initial_pkce, build, to_pending, append_pairs,
  set_max_age, extra_param,
}
use mathlib.Core.List.{append-nil}
use oidc4rs.Prelude.{
  ℕ, zero, suc, ◌*◌, ◌≡◌, refl, true, none, some, List, [], ◌∷◌, ◌++◌, arith, is_some, ok, Bytes,
  codes, eqb, split, any, retain,
}
use oidc4rs.Types.Url.{UrlOps, Url}
use oidc4rs.Flow.Logout.{
  EndSessionUrlBuilder, new_end_session, with_post_logout_redirect_uri, with_id_token_hint,
}
use oidc4rs.Tests.Env.{urls, document}
use oidc4rs.Flow.Authorize.Pairs.{QueryLaws}

abbrev raised : Bytes → Bytes
raised [] = []
raised (c ∷ s) = suc (suc (suc c)) ∷ raised s

-- The bytes since the last mark, the value that they are the name of, and the pairs before.
abbrev step : ℕ → Bytes × Bytes × List (Bytes × Bytes) → Bytes × Bytes × List (Bytes × Bytes)
step zero (current, value, pairs) = ([], current, pairs)
step (suc zero) (current, value, pairs) = ([], [], pairs ++ ((current, value) ∷ []))
step (suc (suc zero)) (current, value, pairs) = ([], value, pairs)
step (suc (suc (suc c))) (current, value, pairs) = (c ∷ current, value, pairs)

abbrev scan : Bytes → Bytes × Bytes × List (Bytes × Bytes)
scan [] = ([], [], [])
scan (c ∷ s) = step c (scan s)

abbrev framed : Bytes → Bytes → Bytes → Bytes
framed k v s = 1 ∷ (raised k ++ (0 ∷ (raised v ++ (2 ∷ s))))

abbrev links : UrlOps
links = record urls {
  query_pairs_mut = λ u. u;
  append_pair = λ u k v. record { text = framed k v u.text };
}

abbrev pairs_of : Url → List (Bytes × Bytes)
pairs_of u = (scan u.text).2

scan-raised :
    (s rest : Bytes) → scan (raised s ++ rest) ≡ (s ++ (scan rest).0, (scan rest).1, (scan rest).2)
scan-raised [] rest = refl
scan-raised (c ∷ s) rest = rw (scan-raised s rest) refl

scan-framed : (k v s : Bytes) → (scan (framed k v s)).2 ≡ (scan s).2 ++ ((k, v) ∷ [])
scan-framed k v s =
    rw (scan-raised k (0 ∷ (raised v ++ (2 ∷ s))), scan-raised v (2 ∷ s))
      (rw (append-nil k, append-nil v) refl)

links-QueryLaws : QueryLaws links pairs_of
links-QueryLaws = record { opened = λ u. refl; appended = λ u k v. scan-framed k v u.text }

-- The builder of a public client, where the generator answers with its number of calls.
abbrev client_builder : AuthorizeUrlBuilder
client_builder = record {
  url = record {
    text = framed (codes "scope") (codes "openid") (
        framed (codes "redirect_uri") (codes "app:back") (
          framed (codes "client_id") (codes "me")
            (framed (codes "response_type") (codes "code") document.authorization_endpoint.text)));
  };
  state = 1 ∷ [];
  nonce = 2 ∷ [];
  pkce_verifier = some (0 ∷ []);
  pkce_challenge = some (record { method = s256; value = 0 ∷ [] });
  response_mode = none;
  prompt = none;
  max_age = none;
  id_token_hint = none;
  extra = [];
  redirect_uri = record { text = codes "app:back" };
  scopes = codes "openid";
}

client_builder_made :
    new_builder links
      (λ s. s)
      (λ s. s)
      (λ calls n. calls ∷ [])
      document
      (codes "me")
      none
      (record { text = codes "app:back" })
      (codes "openid")
      0
    ≡ ok (client_builder, 3)
unfolding new_builder initial_pkce new_verifier new_state new_nonce random_url_safe append_pairs any
    eqb s256_from_verifier scope_iter retain split
client_builder_made = refl

abbrev settings : List Setting
settings = aged (90 * nanos_per_sec) ∷ param (codes "hd") (codes "op") ∷ []

abbrev sent : AuthRequestState
sent =
    build links
      (apply_settings links (λ s. s) (λ s. s) (λ calls n. calls ∷ []) client_builder settings)

sent_fits :
    IsRepresentable
      (apply_settings links
        (λ s. s)
        (λ s. s)
        (λ calls n. calls ∷ [])
        client_builder
        settings).max_age
unfolding apply_settings apply_setting set_max_age extra_param
sent_fits = omega arith

authorize-Agrees_example :
    Agrees links
      (λ s. s)
      (λ s. s)
      (λ calls n. calls ∷ [])
      (pairs_of sent.authorization_url)
      (to_pending 7 sent)
    × (is_some (to_pending 7 sent).pkce_verifier ≡ true)
authorize-Agrees_example =
    authorize-Agrees links (λ s. s) (λ s. s) (λ calls n. calls ∷ []) pairs_of links-QueryLaws
      document (codes "me") none (record { text = codes "app:back" }) (codes "openid") 0 3
      client_builder settings 7 client_builder_made sent_fits

abbrev logout : EndSessionUrlBuilder
logout =
    with_post_logout_redirect_uri (with_id_token_hint new_end_session (codes "token"))
      (record { text = codes "https://rp/bye" })

abbrev fresh : ℕ → Bytes × ℕ
fresh calls = (codes "fresh", suc calls)

abbrev logout_endpoint : Url
logout_endpoint = record { text = codes "https://op/logout" }

abbrev logout_url : Url
logout_url = record {
  text = framed (codes "state") (codes "fresh") (
      framed (codes "post_logout_redirect_uri") (codes "https://rp/bye")
        (framed (codes "id_token_hint") (codes "token") logout_endpoint.text));
}
