-- ===== src/Common/Ip.antt =====
-- pkg/common/net.go: an IP address with its network mask, on what it uses of package `net`.
pub mod Laws
use linstor_gateway.Base.{
  ℕ, zero, suc, ◌+◌, ◌-◌, ◌*◌, ◌/◌, ◌%◌, ◌^◌, Bool, true, false, ◌||◌, Option, none, some, List, [],
  ◌∷◌, ◌++◌, ltb, leb, ◌==◌, if◌then◌else◌,
}
use linstor_gateway.Base.Int.{ℤ, pos, negsuc}
use linstor_gateway.Base.Lists.{length, all, drop}
use linstor_gateway.Base.Outcome.{Result, ok, fail, ◌>>=◌, wrapping}
use linstor_gateway.Base.Text.{Text, codes, cut}
use linstor_gateway.Base.Decimal.{itoa, read_digits}
use linstor_gateway.External.{External, Ip, ip4, ip6}
use linstor_gateway.Common.Status.{Json, string, other}

-- `net.IPNet`; the mask is a list of bytes, `none` for nil
pub record IpCidr : Type 0 where
  pub ip : Option Ip
  pub mask : Option Text

-- The bits of a byte that are set from the left; `none` if another is set too.
abbrev byte_ones : ℕ → Option ℕ
byte_ones v =
    if v == 0
    then some 0
    else if v == 128
    then some 1
    else if v == 192
    then some 2
    else if v == 224
    then some 3
    else if v == 240
    then some 4
    else if v == 248
    then some 5
    else if v == 252
    then some 6
    else if v == 254
    then some 7
    else none

abbrev add_ones : ℕ → Option ℕ → Option ℕ
add_ones n none = none
add_ones n (some m) = some (n + m)

abbrev is_zero : ℕ → Bool
is_zero v = v == 0

-- `net.simpleMaskLength`, with `none` for -1
unfoldable pub simple_mask_length : Text → Option ℕ
simple_mask_length [] = some 0
simple_mask_length (v ∷ mask) =
    let rest = add_ones 8 (simple_mask_length mask) in
    if v == 255 then rest else if all is_zero mask then byte_ones v else none

-- `net.CIDRMask(ones, bits)` for a number of bytes
abbrev top_bits : ℕ → ℕ
top_bits n = if leb 8 n then 255 else 256 - 2 ^ (8 - n)

cidr_bytes : ℕ → ℕ → Text
cidr_bytes zero ones = []
cidr_bytes (suc bytes) ones = top_bits ones ∷ cidr_bytes bytes (ones - 8)

unfoldable pub cidr_mask : ℤ → ℕ → Option Text
unfolding cidr_bytes
cidr_mask (negsuc n) bytes = none
cidr_mask (pos n) bytes = if leb n (8 * bytes) then some (cidr_bytes bytes n) else none

abbrev or_zero : Option ℕ → ℕ
or_zero none = 0
or_zero (some n) = n

-- `s.Mask.Size()`, of which `Prefix` returns the first number
unfoldable pub prefix : IpCidr → ℕ
unfolding simple_mask_length
prefix s = elim s.mask [ none ↦ 0 | some m ↦ or_zero (simple_mask_length m) ]

-- `ServiceIPFromParts`; the first argument is not nil at the call sites.
abbrev pub address_bytes : Ip → ℕ
address_bytes (ip4 a) = 4
address_bytes (ip6 a) = 16

unfoldable pub service_ip_from_parts : Ip → ℤ → IpCidr
unfolding cidr_mask
service_ip_from_parts ip prefix = record {
  ip = some ip;
  mask = cidr_mask prefix (address_bytes ip);
}

hex_digit : ℕ → ℕ
hex_digit n = if ltb n 10 then b'0' + n else b'a' + (n - 10)

unfoldable pub hex : Text → Text
unfolding hex_digit
hex [] = []
hex (v ∷ s) = hex_digit (v / 16) ∷ hex_digit (v % 16) ∷ hex s

-- The mask that `net.networkNumberAndMask` takes for the address.
network_mask : Ip → Text → Option Text
network_mask (ip4 a) mask =
    if length mask == 4 then some mask else if length mask == 16 then some (drop 12 mask) else none
network_mask (ip6 a) mask = if length mask == 16 then some mask else none

mask_text : Text → Option ℕ → Text
mask_text mask none = hex mask
mask_text mask (some n) = itoa (pos n)

module _ (ext : External) where
  network_text : Ip → Option Text → Text
  unfolding mask_text
  network_text ip none = codes "<nil>"
  network_text ip (some mask) =
      ext.ip_string ip ++ (b'/' ∷ mask_text mask (simple_mask_length mask))

  cidr_text : Option Ip → Option Text → Text
  unfolding network_text network_mask
  cidr_text (some ip) (some mask) = network_text ip (network_mask ip mask)
  cidr_text _ _ = codes "<nil>"

  -- `IPNet.String()`
  unfoldable pub cidr_string : IpCidr → Text
  unfolding cidr_text
  cidr_string s = cidr_text s.ip s.mask

  -- `n.IP().String()`
  unfoldable pub ip_text : IpCidr → Text
  ip_text s = elim s.ip [ none ↦ codes "<nil>" | some ip ↦ ext.ip_string ip ]

  unsigned : Text → Option ℕ
  unsigned [] = none
  unsigned (c ∷ s) = read_digits 0 (c ∷ s)

  parsed : Option Ip → Option ℕ → Result IpCidr
  parsed (some ip) (some n) =
      if leb n (8 * address_bytes ip)
      then ok (service_ip_from_parts ip (pos n))
      else fail "invalid CIDR address"
  parsed _ _ = fail "invalid CIDR address"

  parse_parts : Text × Option Text → Result IpCidr
  unfolding parsed unsigned
  parse_parts (addr, none) = fail "invalid CIDR address"
  parse_parts (addr, some mask) = parsed (ext.parse_ip addr) (unsigned mask)

  -- `ServiceIPFromString`, with `net.ParseCIDR`
  unfoldable pub service_ip_from_string : Text → Result IpCidr
  unfolding parse_parts
  service_ip_from_string s = wrapping "failed to parse service ip: %w" (parse_parts (cut b'/' s))

  unfoldable pub marshal_cidr : IpCidr → Json
  unfolding cidr_string
  marshal_cidr s = string (cidr_string s)

  unfoldable pub unmarshal_cidr : Json → Result IpCidr
  unfolding service_ip_from_string
  unmarshal_cidr (string s) = service_ip_from_string s
  unmarshal_cidr other = fail "json: cannot unmarshal into string"
