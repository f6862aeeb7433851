-- ===== src/Common/Ip/Laws.antt =====
-- A service IP made of an address and a prefix length shows that length, and its text is read back.
use linstor_gateway.Base.{
  ℕ, zero, suc, ◌-◌, ◌*◌, ◌^◌, ◌≤◌, ◌<◌, ◌≡◌, refl, Bool, true, false, none, some, ◌∷◌, ◌++◌, ◌==◌,
  arith,
}
use linstor_gateway.Base.Int.{pos}
use linstor_gateway.Base.Lists.{length}
use linstor_gateway.Base.Outcome.{ok}
use linstor_gateway.Base.Text.{cut-append, has_byte}
use linstor_gateway.Base.Decimal.{itoa, read_digits, passes_below, test-passes_below}
use linstor_gateway.External.{External, Ip, ip4, ip6}
use linstor_gateway.Common.Ip.{
  simple_mask_length, cidr_bytes, cidr_mask, IpCidr, prefix, address_bytes, service_ip_from_parts,
  network_mask, cidr_string, service_ip_from_string, parsed, unsigned,
}

-- What the mask of `n` ones in so many bytes is worth, as a check over all lengths.
shows : ℕ → ℕ → Bool
shows bytes n = elim (simple_mask_length (cidr_bytes bytes n)) [ none ↦ false | some m ↦ m == n ]

shows_all4 : passes_below (shows 4) 33 ≡ true
unfolding passes_below shows simple_mask_length cidr_bytes
shows_all4 = refl

shows_all16 : passes_below (shows 16) 129 ≡ true
unfolding passes_below shows simple_mask_length cidr_bytes
shows_all16 = refl

shows_lem : (bytes n : ℕ) → shows bytes n ≡ true → simple_mask_length (cidr_bytes bytes n) ≡ some n
unfolding shows
shows_lem bytes n h = ground arith

length-cidr_bytes : (bytes n : ℕ) → length (cidr_bytes bytes n) ≡ bytes
unfolding cidr_bytes
length-cidr_bytes zero n = refl
length-cidr_bytes (suc bytes) n = omega (arith, length-cidr_bytes bytes (n - 8))

mask_length :
    (ip : Ip) (n : ℕ)
    → n ≤ 8 * address_bytes ip
    → simple_mask_length (cidr_bytes (address_bytes ip) n) ≡ some n
mask_length (ip4 a) n h = shows_lem 4 n (test-passes_below (shows 4) 33 n shows_all4 (omega arith))
mask_length (ip6 a) n h =
    shows_lem 16 n (test-passes_below (shows 16) 129 n shows_all16 (omega arith))

cidr_mask_lem : (n bytes : ℕ) → n ≤ 8 * bytes → cidr_mask (pos n) bytes ≡ some (cidr_bytes bytes n)
unfolding cidr_mask
cidr_mask_lem n bytes h = ground arith

-- The prefix length of a service IP is the one that it was made of, if that is in range for the
-- kind of its address: 32 at most for IPv4, 128 at most for IPv6.
pub prefix-service_ip_from_parts :
    (ip : Ip) (n : ℕ) → n ≤ 8 * address_bytes ip → prefix (service_ip_from_parts ip (pos n)) ≡ n
unfolding prefix service_ip_from_parts
prefix-service_ip_from_parts ip n h =
    rw (cidr_mask_lem n (address_bytes ip) h) (rw (mask_length ip n h))

-- The digits of a prefix length are read back.
reads_back : External → ℕ → Bool
reads_back ext n = elim (unsigned ext (itoa (pos n))) [ none ↦ false | some m ↦ m == n ]

reads_back_all : (ext : External) → passes_below (reads_back ext) 129 ≡ true
unfolding passes_below reads_back unsigned read_digits itoa
reads_back_all ext = refl

reads_back_lem :
    (ext : External) (n : ℕ) → reads_back ext n ≡ true → unsigned ext (itoa (pos n)) ≡ some n
unfolding reads_back
reads_back_lem ext n h = ground arith

unsigned-itoa : (ext : External) (n : ℕ) → n < 129 → unsigned ext (itoa (pos n)) ≡ some n
unsigned-itoa ext n h =
    reads_back_lem ext n
      (test-passes_below (reads_back ext) 129 n (reads_back_all ext) (omega arith))

bytes_bound : (ip : Ip) (n : ℕ) → n ≤ 8 * address_bytes ip → n < 129
bytes_bound (ip4 a) n h = omega arith
bytes_bound (ip6 a) n h = omega arith

-- What package `net` does with the text of an address: it holds no slash and is parsed as it.
pub record IsReadable (ext : External) (ip : Ip) : Type 0 where
  pub read_back : ext.parse_ip (ext.ip_string ip) ≡ some ip
  pub no_slash : has_byte b'/' (ext.ip_string ip) ≡ false

-- A service IP made of a readable address and a prefix length in range.
pub record IsServiceIp (ext : External) (c : IpCidr) : Type 0 where
  pub address : Ip
  pub length : ℕ
  pub made : c ≡ service_ip_from_parts address (pos length)
  pub readable : IsReadable ext address
  pub in_range : length ≤ 8 * address_bytes address

-- A prefix length fits an `int`.
pub bytes_int : (a : Ip) (n : ℕ) → n ≤ 8 * address_bytes a → n < 2 ^ 63
bytes_int (ip4 b) n h = omega arith
bytes_int (ip6 b) n h = omega arith

network_mask_lem :
    (ip : Ip) (n : ℕ)
    → network_mask ip (cidr_bytes (address_bytes ip) n) ≡ some (cidr_bytes (address_bytes ip) n)
unfolding network_mask
network_mask_lem (ip4 a) n = rw (length-cidr_bytes 4 n)
network_mask_lem (ip6 a) n = rw (length-cidr_bytes 16 n)

module _ (ext : External) where
  pub cidr_string_lem :
      (ip : Ip) (n : ℕ)
      → n ≤ 8 * address_bytes ip
      → cidr_string ext (service_ip_from_parts ip (pos n))
        ≡ ext.ip_string ip ++ (b'/' ∷ itoa (pos n))
  unfolding cidr_string service_ip_from_parts
  cidr_string_lem ip n h =
      rw (cidr_mask_lem n (address_bytes ip) h)
        (rw (network_mask_lem ip n) (rw (mask_length ip n h)))

  parsed_lem :
      (ip : Ip) (n : ℕ)
      → n ≤ 8 * address_bytes ip
      → parsed ext (some ip) (some n) ≡ ok (service_ip_from_parts ip (pos n))
  unfolding parsed
  parsed_lem ip n h = ground arith

  -- The text of a service IP with a prefix length in range is parsed as that service IP, if package
  -- `net` parses the text of its address as that address.
  pub service_ip_from_string-cidr_string :
      (ip : Ip) (n : ℕ)
      → IsReadable ext ip
      → n ≤ 8 * address_bytes ip
      → service_ip_from_string ext (cidr_string ext (service_ip_from_parts ip (pos n)))
        ≡ ok (service_ip_from_parts ip (pos n))
  unfolding service_ip_from_string
  service_ip_from_string-cidr_string ip n r h =
      rw (cidr_string_lem ip n h, cut-append b'/' (ext.ip_string ip) (itoa (pos n)) r.no_slash)
        (rw (r.read_back, unsigned-itoa ext n (bytes_bound ip n h)) (rw (parsed_lem ip n h)))
