-- ===== src/Restclient/EndToEnd.antt =====
-- The client, the routes, the handlers and the operations together.
pub mod Iscsi
pub mod Nvmeof
pub mod Nfs
pub mod Calls
use linstor_gateway.Base.{
  ℕ, String, ◌<◌, ◌^◌, ◌≡◌, refl, true, false, Bool, ◌&&◌, ◌||◌, Option, none, some, List, [], ◌∷◌,
  ◌++◌, ◌∙◌, ◌⊎◌, inl, inr, arith, leb, ◌==◌, ◌≢◌,
}
use linstor_gateway.Base.Int.{ℤ, pos}
use linstor_gateway.Base.Lists.{all, all-append}
use linstor_gateway.Base.Outcome.{Error, ok}
use linstor_gateway.Base.Text.{Text, Dict, codes, has_byte, is_empty}
use linstor_gateway.Base.Decimal.{itoa, is_digit}
use linstor_gateway.Base.Decimal.Laws.{itoa_digits, itoa_start, atoi-itoa, starts_digit}
use linstor_gateway.External.{External}
use linstor_gateway.Linstor.{Client}
use linstor_gateway.Rest.{Handler, Reply, config_body, empty_body, on_result, calling, given}
use linstor_gateway.Rest.Iscsi.{with_iqn, iscsi_start, iscsi_stop, iscsi_delete}
use linstor_gateway.Rest.Routes.{Route, Handle, ServerCodec, writing, serve}
use linstor_gateway.Rest.Routes.Router.{IsRouter}
use linstor_gateway.Rest.Routes.Paths.{is_clean, IsPart, IsCleanPath}
use linstor_gateway.Rest.Routes.Reached.{Runs}
use linstor_gateway.Iscsi.Iqn.{Iqn, new_iqn, iqn_string}
use linstor_gateway.Nvmeof.Nqn.{Nqn, new_nqn, nqn_string}
use linstor_gateway.Iscsi.ResourceConfig as IscsiConfig
use linstor_gateway.Nvmeof.ResourceConfig as NvmeofConfig
use linstor_gateway.Nfs.ResourceConfig as NfsConfig
use linstor_gateway.Iscsi.Service as IscsiService
use linstor_gateway.Nvmeof.Service as NvmeofService
use linstor_gateway.Nfs.Service as NfsService
use linstor_gateway.Rest.Nvmeof.{with_nqn, nvmeof_get, nvmeof_start, nvmeof_stop, nvmeof_delete}
use linstor_gateway.Rest.Nfs.{nfs_get, nfs_start, nfs_stop, nfs_delete}
use linstor_gateway.Restclient.{RestClient, HttpRequest, HttpResponse, Wire}
use linstor_gateway.Restclient.Requests.{
  json_type, into_nil, discard, new_request, do_get, do_post, do_delete,
}
use linstor_gateway.Restclient.Served.{IsConnection, Reports, Reaches, sent-Reports}

-- The bytes that `url.Parse` and `URL.String` keep in a path, the slash apart.
abbrev pub is_plain : ℕ → Bool
is_plain c =
    is_digit c
    || (leb b'a' c && leb c b'z'
        || (leb b'A' c && leb c b'Z' || (c == b'-' || (c == b'.' || c == b':'))))

-- A name of such bytes, which is neither empty nor `.` or `..`.
abbrev pub IsPlain : Text → Type 0
IsPlain s = (is_clean s ≡ true) × (all is_plain s ≡ true)

plain_no_slash : (s : Text) → all is_plain s ≡ true → has_byte b'/' s ≡ false
plain_no_slash [] h = refl
plain_no_slash (c ∷ s) h = ground (arith, plain_no_slash s)

pub IsPlain-IsPart : (s : Text) → IsPlain s → IsPart s
IsPlain-IsPart s (e, h) = (e, plain_no_slash s h)

digits_plain : (s : Text) → all is_digit s ≡ true → all is_plain s ≡ true
digits_plain [] h = refl
digits_plain (c ∷ s) h = ground (arith, digits_plain s)

starts_digit_clean : (s : Text) → starts_digit s ≡ true → is_clean s ≡ true
starts_digit_clean [] h = cc
starts_digit_clean (c ∷ []) h = ground arith
starts_digit_clean (c ∷ d ∷ []) h = ground arith
starts_digit_clean (c ∷ d ∷ e ∷ s) h = refl

pub itoa-IsPlain : (n : ℕ) → IsPlain (itoa (pos n))
itoa-IsPlain n =
    (starts_digit_clean (itoa (pos n)) (itoa_start n), digits_plain (itoa (pos n)) (itoa_digits n))

abbrev pub is_path_byte : ℕ → Bool
is_path_byte c = is_plain c || c == b'/'

pub plain_path : (s : Text) → all is_plain s ≡ true → all is_path_byte s ≡ true
plain_path [] h = refl
plain_path (c ∷ s) h = ground (arith, plain_path s)

pub below_plain :
    (s t : Text)
    → all is_plain s ≡ true
    → all is_path_byte t ≡ true
    → all is_path_byte (s ++ t) ≡ true
below_plain s t h k = rw (all-append is_path_byte s t, plain_path s h) k

abbrev pub content_of : Option Text → Text
content_of none = []
content_of (some body) = body

-- The methods of the requests that the client sends.
abbrev pub IsMethod : Text → Type 0
IsMethod method =
    (method ≡ codes "GET")
    ⊎ ((method ≡ codes "POST") ⊎ ((method ≡ codes "PUT") ⊎ (method ≡ codes "DELETE")))

-- Package net/url keeps a clean path of such bytes beside the base URL of the client, and a request
-- with one of the methods can be made for it.
abbrev pub KeepsPaths : {W C : Type 0} → Wire C → RestClient W → (Text → Text) → Type 0
KeepsPaths wire c url_path =
    (method path : Text)
    → IsMethod method
    → all is_path_byte path ≡ true
    → IsCleanPath (b'/' ∷ path)
    → (rel : Text) × (wire.parse_url (b'/' ∷ path) ≡ inr rel)
      × (wire.check_request method (wire.resolve_reference c.base_url rel) ≡ none)
      × (url_path (wire.resolve_reference c.base_url rel) ≡ b'/' ∷ path)

module _ (ext : External) (codec : ServerCodec (Error ⊎ HttpResponse)) {W : Type 0} (cli : Client W)
    (mux : List (Route (Handle W (Error ⊎ HttpResponse)))
      → Text
      → Text
      → Option (Handle W (Error ⊎ HttpResponse) × Dict Text))
    (unrouted : Text → Text → Error ⊎ HttpResponse) (c : RestClient W)
    (url_path : Text → Text) where
  -- The requests of the client for clean paths are answered by the server.
  abbrev pub IsLinked : Type 0
  IsLinked =
      (req : HttpRequest) (w : W)
      → IsCleanPath (url_path req.url)
      → c.http_client req w
        ≡ serve ext codec cli mux unrouted req.method (url_path req.url) (content_of req.body) w

  pub Runs-Reaches :
      {C : Type 0} (wire : Wire C) (write : Reply C → Error ⊎ HttpResponse) (method : String)
      (path : Text) (handler : Text → Handler W C)
      → IsLinked
      → KeepsPaths wire c url_path
      → IsMethod (codes method)
      → all is_path_byte path ≡ true
      → IsCleanPath (b'/' ∷ path)
      → Runs ext codec cli mux unrouted method (b'/' ∷ path) write handler
      → Reaches wire write c (codes method) (b'/' ∷ path) (handler [])
  unfolding new_request
  Runs-Reaches wire write method path handler linked keeps m plain clean runs =
      let (rel, parsed, checked, kept) = keeps (codes method) path m plain clean in
      let req : HttpRequest = record {
        method = codes method;
        url = wire.resolve_reference c.base_url rel;
        content_type = none;
        accept = json_type;
        body = none;
      } in
      (req, rw (parsed, checked) refl, λ w. linked req w (rw kept clean) ∙ rw kept (runs [] w))
