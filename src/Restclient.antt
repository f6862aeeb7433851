-- ===== src/Restclient.antt =====
-- client/client.go and client/options.go: the client of the REST API. A method that returns a value
-- and an error returns both here, as Go does. Where `json.Decode` is handed the address of an
-- interface that holds a nil pointer, it decodes into a value of its own and the variable of the
-- caller stays nil.
pub mod Requests
pub mod Iscsi
pub mod Nvmeof
pub mod Nfs
pub mod Served
pub mod EndToEnd
pub mod Creation
use linstor_gateway.Base.{
  ℕ, Bool, true, false, ◌||◌, Option, none, some, List, [], ◌∷◌, ◌⊎◌, inl, inr, if◌then◌else◌,
}
use linstor_gateway.Base.Outcome.{Error, message}
use linstor_gateway.Base.Text.{Text, codes}
use linstor_gateway.Common.Volume.{VolumeConfig}

-- `rest.Error`, as it is decoded
pub record RestError : Type 0 where
  pub code : Text
  pub message : Text

-- `NotFoundError`; a `rest.Error` of the server; the error of the decoder, wrapped where it is an
-- error response that is decoded; or one of another function.
pub data ClientError : Type 0 where
  not_found_error : ClientError
  rest_error : RestError → ClientError
  undecodable : ClientError
  undecodable_error : ClientError
  failed : Error → ClientError

-- The results of a call: a value, and an error or nil.
abbrev pub Returned : Type 0 → Type 0
Returned A = A × Option ClientError

abbrev pub Request : Type 0 → Type 0 → Type 0
Request W A = W → Returned A × W

pub record HttpRequest : Type 0 where
  pub method : Text
  pub url : Text
  pub content_type : Option Text
  pub accept : Text
  pub body : Option Text

pub record HttpResponse : Type 0 where
  pub status_code : ℕ
  pub body : Text

-- Which of the interfaces the value of a logger implements.
pub record LoggerType : Type 0 where
  pub is_logger : Bool
  pub is_test_logger : Bool
  pub is_leveled_logger : Bool

pub data LogLevel : Type 0 where
  level_debug level_info level_warn level_error : LogLevel

-- The method of the logger that is called, with the level that is printed in front.
pub data Logged : Type 0 where
  errorf infof debugf warnf : Logged
  with_level : LogLevel → Logged

-- `http.Client.Do`, with the error on the left that `do` returns: that of the context, if it is done
abbrev pub Http : Type 0 → Type 0
Http W = HttpRequest → W → (Error ⊎ HttpResponse) × W

pub record RestClient (W : Type 0) : Type 0 where
  pub http_client : Http W
  pub base_url : Text
  pub log : Option LoggerType

-- What the client calls of other packages.
pub record Wire (C : Type 0) : Type 0 where
  -- `url.Parse(path)`, and `c.baseURL.ResolveReference(rel).String()`
  pub parse_url : Text → Error ⊎ Text
  pub resolve_reference : Text → Text → Text
  -- the error of `http.NewRequest` for a method and a URL, or nil
  pub check_request : Text → Text → Option Error
  -- `json.Encoder.Encode` of a configuration, and of a volume
  pub encode : C → Error ⊎ Text
  pub encode_volume : VolumeConfig → Error ⊎ Text
  -- whether `json.Decoder.Decode` finds a JSON value in front
  pub is_json : Text → Bool
  -- `Decode` into a slice of configurations: what it holds then, and whether that is all right
  pub decode_list : Text → List C × Bool
  -- `Decode` into a `rest.Error`
  pub decode_error : Text → Option RestError

abbrev leveled : LogLevel → Logged
leveled level_debug = debugf
leveled level_info = infof
leveled level_warn = warnf
leveled level_error = errorf

-- `logf`, which does nothing without a logger
unfoldable pub logf : {W : Type 0} → RestClient W → LogLevel → Option Logged
logf c level = elim c.log [
  | none ↦ none
  | some l ↦
      if l.is_leveled_logger
      then some (leveled level)
      else if l.is_test_logger || l.is_logger
      then some (with_level level)
      else none
]

-- `Option`, and the three of them
abbrev pub ClientOption : Type 0 → Type 0
ClientOption W = RestClient W → Error ⊎ RestClient W

abbrev pub std_logger : LoggerType
std_logger = record { is_logger = true; is_test_logger = false; is_leveled_logger = false }

module _ {W : Type 0} where
  unfoldable pub with_base_url : Text → ClientOption W
  with_base_url url c = inr (record c { base_url = url })

  unfoldable pub with_http_client : Http W → ClientOption W
  with_http_client http_client c = inr (record c { http_client = http_client })

  unfoldable pub with_log : Option LoggerType → ClientOption W
  with_log none c = inr (record c { log = none })
  with_log (some l) c =
      if l.is_logger || (l.is_test_logger || l.is_leveled_logger)
      then inr (record c { log = some l })
      else inl (message "invalid logger type, expected Logger or LeveledLogger")

  unfoldable pub apply_options : List (ClientOption W) → RestClient W → Error ⊎ RestClient W
  apply_options [] c = inr c
  apply_options (opt ∷ options) c = elim (opt c) [
    | inl e ↦ inl e
    | inr c' ↦ apply_options options c'
  ]

  -- `NewClient`, on an empty `http.Client`
  unfoldable pub new_client : Http W → List (ClientOption W) → Error ⊎ RestClient W
  unfolding apply_options
  new_client http_client options = apply_options options (record {
    http_client = http_client;
    base_url = codes "http://localhost:8080";
    log = some std_logger;
  })
