-- ===== src/External.antt =====
-- What the program takes from third-party packages, and the textual forms of IP addresses, as
-- parameters: the shell splitter, the TOML codec, UUIDs, hashes, and `%` verbs in a format string
-- that is a device path.
use linstor_gateway.Base.{Bool, Option, List}
use linstor_gateway.Base.Text.{Text, Dict}

-- A `net.IP` that is not nil, by `To4`: the four bytes of an IPv4 address in either of Go's
-- representations, or the sixteen of any other.
pub data Ip : Type 0 where
  ip4 : Text → Ip
  ip6 : Text → Ip

-- A value of a decoded TOML table (`interface{}`).
pub data Scalar : Type 0 where
  quoted : Text → Scalar
  unquoted : Scalar

pub data TomlValue : Type 0 where
  string : Text → TomlValue
  boolean : Bool → TomlValue
  array : List Scalar → TomlValue
  other : TomlValue

abbrev pub Table : Type 0
Table = Dict TomlValue

-- One `[[promoter]]` of a document: its `id`, and the tables under `resources`.
pub record RawPromoter : Type 0 where
  pub id : Text
  pub resources : Dict Table

pub record External : Type 0 where
  -- `net.ParseIP`, `net.IP.String`
  pub parse_ip : Text → Option Ip
  pub ip_string : Ip → Text
  -- `fmt.Sprintf(s)` with no further argument
  pub sprintf : Text → Text
  -- `shell.Split`, with `none` where it is not valid, and `shell.Quote`
  pub shell_split : Text → Option (List Text)
  pub shell_quote : Text → Text
  -- `toml.Encoder.Encode` and `toml.Unmarshal`
  pub toml_encode : List RawPromoter → Text
  pub toml_decode : Text → Option (List RawPromoter)
  -- `md5.Sum` and `sha256.Sum256`
  pub md5 : Text → Text
  pub sha256 : Text → Text
  -- `uuid.NewSHA1(space, data)` as its `String()`
  pub new_sha1 : Text → Text → Text
