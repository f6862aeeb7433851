-- ===== src/Nfs/Cidr.antt =====
-- pkg/nfs/resource_config.go: network masks as the NFS server writes them.
pub mod Laws
use linstor_gateway.Base.{
  ℕ, Bool, true, false, ◌&&◌, ◌||◌, Option, none, some, List, [], ◌∷◌, ◌++◌, ◌==◌, if◌then◌else◌,
}
use linstor_gateway.Base.Int.{ℤ, pos}
use linstor_gateway.Base.Lists.{any}
use linstor_gateway.Base.Outcome.{Result, ok, panic, fail}
use linstor_gateway.Base.Text.{Text, codes, cut, has_byte}
use linstor_gateway.Base.Decimal.{itoa, atoi}
use linstor_gateway.External.{External, Ip, ip4, ip6}
use linstor_gateway.Common.Ip.{IpCidr, prefix, service_ip_from_parts, cidr_string, ip_text}

-- `strings.Trim(s, "[]")`
unfoldable pub is_bracket : ℕ → Bool
is_bracket c = c == b'[' || c == b']'

unfoldable pub trim_left : Text → Text
unfolding is_bracket
trim_left [] = []
trim_left (c ∷ s) = let rest = trim_left s in if is_bracket c then rest else c ∷ s

-- The byte, unless only brackets were behind it and it is one too.
unfoldable pub keep_unless : ℕ → Text → Text
unfolding is_bracket
keep_unless c [] = if is_bracket c then [] else c ∷ []
keep_unless c (d ∷ s) = c ∷ d ∷ s

unfoldable pub trim_right : Text → Text
unfolding keep_unless
trim_right [] = []
trim_right (c ∷ s) = keep_unless c (trim_right s)

unfoldable pub trim_brackets : Text → Text
unfolding trim_left trim_right
trim_brackets s = trim_right (trim_left s)

-- `net.IPMask(mask)` of an address that `net.ParseIP` has returned, which has sixteen bytes
unfoldable pub mask_of : Ip → Text
mask_of (ip4 a) = 0 ∷ 0 ∷ 0 ∷ 0 ∷ 0 ∷ 0 ∷ 0 ∷ 0 ∷ 0 ∷ 0 ∷ 255 ∷ 255 ∷ a
mask_of (ip6 a) = a

-- What `ParseIP` returns for the two parts, and `Atoi` for the second.
unfoldable pub with_mask : Option Ip → Option Ip → Result IpCidr
unfolding mask_of
with_mask none mask = fail "failed to parse nfs export control %s as ip"
with_mask (some ip) none = fail "failed to parse nfs export control %s as mask"
with_mask (some ip) (some mask) = ok (record { ip = some ip; mask = some (mask_of mask) })

unfoldable pub with_prefix : Option Ip → Option ℤ → Result IpCidr
with_prefix none length = fail "failed to parse nfs export control %s as ip"
with_prefix (some ip) none = fail "failed to parse cidr prefix length: %s"
with_prefix (some ip) (some length) = ok (service_ip_from_parts ip length)

-- The bytes that `%d` prints of a mask; it is indexed with 0 to 3.
unfoldable pub dotted_mask : Option Text → Result Text
dotted_mask (some (a ∷ b ∷ c ∷ d ∷ s)) =
    ok (itoa (pos a) ++ (b'.' ∷ (itoa (pos b) ++ (b'.' ∷ (itoa (pos c) ++ (b'.' ∷ itoa (pos d)))))))
dotted_mask _ = panic

-- `ip.To4() != nil`
abbrev pub is_ip4 : Option Ip → Bool
is_ip4 none = false
is_ip4 (some (ip4 a)) = true
is_ip4 (some (ip6 a)) = false

module _ (ext : External) where
  unfoldable pub parse_parts : Text × Option Text → Result IpCidr
  unfolding with_mask with_prefix
  parse_parts (addr, none) = fail "expected at least one / in nfs export control %s"
  parse_parts (addr, some mask) =
      if has_byte b'.' mask
      then with_mask (ext.parse_ip (trim_brackets addr)) (ext.parse_ip mask)
      else with_prefix (ext.parse_ip (trim_brackets addr)) (atoi mask)

  unfoldable pub cidr_from_nfs : Text → Result IpCidr
  unfolding parse_parts
  cidr_from_nfs nfs = parse_parts (cut b'/' nfs)

  append_mask : Text → Result Text → Result Text
  append_mask address (ok mask) = ok (address ++ (b'/' ∷ mask))
  append_mask address r = r

  unfoldable pub nfs_format_cidr : IpCidr → Result Text
  unfolding dotted_mask append_mask
  nfs_format_cidr n =
      if (prefix n == 0) && is_ip4 n.ip
      then append_mask (ip_text ext n) (dotted_mask n.mask)
      else if is_ip4 n.ip
      then ok (cidr_string ext n)
      else ok (b'[' ∷ (ip_text ext n ++ (b']' ∷ b'/' ∷ itoa (pos (prefix n)))))
