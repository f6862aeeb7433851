-- ===== src/Cmd/BaseUrl/Laws.antt =====
-- The parts of the URL that may be left out.
use linstor_gateway.Base.{ℕ, ◌≡◌, refl, false, [], ◌∷◌, ◌++◌, inr, arith}
use linstor_gateway.Base.Text.{
  Text, codes, has_byte, has_prefix, split_whole, split-append, is_empty,
}
use linstor_gateway.Base.Decimal.{itoa, digits_onto}
use linstor_gateway.Cmd.BaseUrl.{base_url, split_scheme, scheme_of, port_of, url_text}

split_scheme_whole : (s : Text) → has_byte b':' s ≡ false → split_scheme 0 s ≡ s ∷ []
unfolding split_scheme has_prefix
split_scheme_whole [] h = refl
split_scheme_whole (c ∷ s) h = ground (arith, split_scheme_whole s)

split_scheme-append :
    (w r : Text)
    → has_byte b':' w ≡ false
    → split_scheme 0 (w ++ (codes "://" ++ r)) ≡ w ∷ split_scheme 0 r
unfolding split_scheme has_prefix
split_scheme-append [] r h = ground arith
split_scheme-append (c ∷ w) r h = ground (arith, split_scheme-append w r)

split_scheme_no_slash : (s : Text) → has_byte b'/' s ≡ false → split_scheme 0 s ≡ s ∷ []
unfolding split_scheme has_prefix
split_scheme_no_slash [] h = refl
split_scheme_no_slash (c ∷ []) h = ground arith
split_scheme_no_slash (c ∷ d ∷ s) h = ground (arith, split_scheme_no_slash (d ∷ s))

abbrev pub HasNone : ℕ → Text → Type 0
HasNone c s = has_byte c s ≡ false

endpoint_no_slash :
    (host port : Text)
    → HasNone b'/' host
    → HasNone b'/' port
    → has_byte b'/' (host ++ (b':' ∷ port)) ≡ false
endpoint_no_slash [] port h p = ground arith
endpoint_no_slash (c ∷ host) port h p = ground (arith, endpoint_no_slash host port)

endpoint_non_empty : (host port : Text) → is_empty (host ++ (b':' ∷ port)) ≡ false
endpoint_non_empty [] port = refl
endpoint_non_empty (c ∷ host) port = refl

-- A URL of the server may leave out the scheme, the port or both, and be empty: http, localhost and
-- 8080 are put in, and a URL with all three parts is kept as it is. The scheme holds no colon, the
-- host and the port no colon and no slash.
pub base_url-url_text :
    (scheme host port : Text)
    → HasNone b':' scheme
    → HasNone b':' host
    → HasNone b'/' host
    → HasNone b':' port
    → HasNone b'/' port
    → (base_url [] ≡ inr (codes "http://localhost:8080"))
      × (is_empty host ≡ false → base_url host ≡ inr (url_text (codes "http") host (codes "8080")))
      × (base_url (host ++ (b':' ∷ port)) ≡ inr (url_text (codes "http") host port))
      × (base_url (scheme ++ (codes "://" ++ host)) ≡ inr (url_text scheme host (codes "8080")))
      × (base_url (url_text scheme host port) ≡ inr (url_text scheme host port))
unfolding base_url scheme_of port_of itoa digits_onto
base_url-url_text scheme host port s h k p q = (
  rw (split_whole b':' (codes "localhost") refl) refl,
  λ e. rw (split_scheme_whole host h, e, split_whole b':' host h) refl,
  rw
      (
        split_scheme_no_slash (host ++ (b':' ∷ port)) (endpoint_no_slash host port k q),
        endpoint_non_empty host port,
        split-append b':' host port h,
        split_whole b':' port p,
      )
      refl,
  rw (split_scheme-append scheme host s, split_scheme_whole host h, split_whole b':' host h) refl,
  rw
      (
        split_scheme-append scheme (host ++ (b':' ∷ port)) s,
        split_scheme_no_slash (host ++ (b':' ∷ port)) (endpoint_no_slash host port k q),
        split-append b':' host port h,
        split_whole b':' port p,
      )
      refl,
)
