-- ===== src/Cmd/BaseUrl.antt =====
-- cmd/root.go: `parseBaseURL`, which completes the URL of the server.
pub mod Laws
use linstor_gateway.Base.{
  ℕ, zero, suc, Option, none, some, List, [], ◌∷◌, ◌++◌, if◌then◌else◌, ◌⊎◌, inl, inr,
}
use linstor_gateway.Base.Int.{pos}
use linstor_gateway.Base.Outcome.{Error, message}
use linstor_gateway.Base.Text.{Text, codes, has_prefix, split, is_empty, onto_first}
use linstor_gateway.Base.Decimal.{itoa}

abbrev default_host : Text
default_host = codes "localhost"

abbrev default_scheme : Text
default_scheme = codes "http"

abbrev default_port : ℕ
default_port = 8080

abbrev scheme_separator : Text
scheme_separator = codes "://"

-- `strings.Split(s, "://")`; the first argument counts the bytes of a separator that are left.
unfoldable pub split_scheme : ℕ → Text → List Text
unfolding has_prefix
split_scheme skip [] = [] ∷ []
split_scheme (suc skip) (c ∷ s) = split_scheme skip s
split_scheme zero (c ∷ s) =
    let behind = split_scheme 2 s in
    let rest = split_scheme 0 s in
    if has_prefix (c ∷ s) scheme_separator then [] ∷ behind else onto_first c rest

-- The scheme and the rest.
unfoldable pub scheme_of : List Text → Error ⊎ Text × Text
scheme_of (whole ∷ []) = inr (default_scheme, if is_empty whole then default_host else whole)
scheme_of (scheme ∷ endpoint ∷ []) = inr (scheme, endpoint)
scheme_of _ = inl (message "URL with multiple scheme separators. parts: %v")

-- The host and the port.
unfoldable pub port_of : List Text → Error ⊎ Text × Text
port_of (host ∷ []) = inr (host, itoa (pos default_port))
port_of (host ∷ port ∷ []) = inr (host, port)
port_of _ = inl (message "URL with multiple port separators. parts: %v")

abbrev pub url_text : Text → Text → Text → Text
url_text scheme host port = scheme ++ (codes "://" ++ (host ++ (b':' ∷ port)))

-- The URL that is handed to `url.Parse`.
abbrev with_scheme : Text → Error ⊎ Text × Text → Error ⊎ Text
with_scheme scheme (inl e) = inl e
with_scheme scheme (inr (host, port)) = inr (url_text scheme host port)

abbrev with_endpoint : Error ⊎ Text × Text → Error ⊎ Text
with_endpoint (inl e) = inl e
with_endpoint (inr (scheme, endpoint)) = with_scheme scheme (port_of (split b':' endpoint))

unfoldable pub base_url : Text → Error ⊎ Text
unfolding split_scheme scheme_of port_of
base_url url = with_endpoint (scheme_of (split_scheme 0 url))

abbrev parsed : {A : Type 0} → (Text → Error ⊎ A) → Error ⊎ Text → Error ⊎ A
parsed url_parse (inl e) = inl e
parsed url_parse (inr url) = url_parse url

unfoldable pub parse_base_url : {A : Type 0} → (Text → Error ⊎ A) → Text → Error ⊎ A
unfolding base_url
parse_base_url url_parse url = parsed url_parse (base_url url)
