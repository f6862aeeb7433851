-- ===== src/Nfs/Cidr/Laws.antt =====
-- Network masks are read back as they are written, up to the form of the mask of length 0; and what
-- becomes of a dotted mask.
use mathlib.Core.List.{append_assoc}
use linstor_gateway.Base.{
  ℕ, zero, suc, ◌*◌, ◌^◌, ◌≤◌, ◌<◌, ◌≡◌, refl, sym, ap, ◌∙◌, true, false, ◌&&◌, some, [], ◌∷◌, ◌++◌,
  arith, ◌==◌, inl, inr, Bool-cases, if◌then◌else◌,
}
use linstor_gateway.Base.Int.{pos}
use linstor_gateway.Base.Lists.{any, all, any-append}
use linstor_gateway.Base.Outcome.{ok}
use linstor_gateway.Base.Text.{Text, codes, cut-append, has_byte}
use linstor_gateway.Base.Decimal.{itoa, is_digit}
use linstor_gateway.Base.Decimal.Laws.{atoi-itoa, itoa_digits}
use linstor_gateway.External.{External, Ip, ip4, ip6}
use linstor_gateway.Common.Ip.{IpCidr, address_bytes, prefix, service_ip_from_parts, ip_text}
use linstor_gateway.Common.Ip.Laws.{
  IsReadable, bytes_int, prefix-service_ip_from_parts, cidr_string_lem,
}
use linstor_gateway.Nfs.Cidr.{
  is_bracket, trim_right, keep_unless, trim_brackets, mask_of, with_mask, with_prefix, parse_parts,
  is_ip4, dotted_mask, cidr_from_nfs, nfs_format_cidr,
}

-- A text without brackets is left as it is, and is what is left of it in brackets.
keep_unless_lem : (c : ℕ) (s : Text) → is_bracket c ≡ false → keep_unless c s ≡ c ∷ s
unfolding keep_unless
keep_unless_lem c [] h = rw h refl
keep_unless_lem c (d ∷ s) h = refl

trim_right_lem : (s : Text) → any is_bracket s ≡ false → trim_right s ≡ s
unfolding trim_right
trim_right_lem [] h = refl
trim_right_lem (c ∷ s) h =
    ap (keep_unless c) (trim_right_lem s (ground arith)) ∙ keep_unless_lem c s (ground arith)

trim_right_bracket : (s : Text) → any is_bracket s ≡ false → trim_right (s ++ b']' ∷ []) ≡ s
unfolding trim_right
trim_right_bracket [] h = unfold keep_unless in refl
trim_right_bracket (c ∷ s) h =
    ap (keep_unless c) (trim_right_bracket s (ground arith)) ∙ keep_unless_lem c s (ground arith)

trim_brackets_plain : (s : Text) → any is_bracket s ≡ false → trim_brackets s ≡ s
unfolding trim_brackets
trim_brackets_plain [] h = refl
trim_brackets_plain (c ∷ s) h =
    let b : is_bracket c ≡ false = ground arith in rw b (trim_right_lem (c ∷ s) h)

trim_brackets_inside :
    (s : Text) → any is_bracket s ≡ false → trim_brackets (b'[' ∷ (s ++ b']' ∷ [])) ≡ s
unfolding trim_brackets
trim_brackets_inside [] h = refl
trim_brackets_inside (c ∷ s) h =
    let b : is_bracket c ≡ false = ground arith in rw b (trim_right_bracket (c ∷ s) h)

digits_no_dot : (s : Text) → all is_digit s ≡ true → has_byte b'.' s ≡ false
digits_no_dot [] h = refl
digits_no_dot (c ∷ s) h = ground (arith, digits_no_dot s)

-- What package `net` does with the text of an address: it is parsed as that address, and it holds no
-- slash and no bracket.
pub record IsAddress (ext : External) (ip : Ip) : Type 0 where
  pub readable : IsReadable ext ip
  pub no_bracket : any is_bracket (ext.ip_string ip) ≡ false

abbrev pub zero_address : Ip
zero_address = ip4 (0 ∷ 0 ∷ 0 ∷ 0 ∷ [])

-- An address with its mask as it is read back: the mask of length 0 of an IPv4 address comes back
-- with sixteen bytes.
unfoldable pub as_read : IpCidr → IpCidr
as_read c =
    if (prefix c == 0) && is_ip4 c.ip then record c { mask = some (mask_of zero_address) } else c

module _ (ext : External) where
  read_prefix :
      (addr : Text) (ip : Ip) (n : ℕ)
      → has_byte b'/' addr ≡ false
      → ext.parse_ip (trim_brackets addr) ≡ some ip
      → n < 2 ^ 63
      → cidr_from_nfs ext (addr ++ (b'/' ∷ itoa (pos n))) ≡ ok (service_ip_from_parts ip (pos n))
  unfolding cidr_from_nfs parse_parts with_prefix
  read_prefix addr ip n h e b =
      rw (cut-append b'/' addr (itoa (pos n)) h)
        (rw (digits_no_dot (itoa (pos n)) (itoa_digits n)) (rw (e, atoi-itoa n b) refl))

  read_mask :
      (addr mask : Text) (ip m : Ip)
      → has_byte b'/' addr ≡ false
      → has_byte b'.' mask ≡ true
      → ext.parse_ip (trim_brackets addr) ≡ some ip
      → ext.parse_ip mask ≡ some m
      → cidr_from_nfs ext (addr ++ (b'/' ∷ mask))
        ≡ ok (record { ip = some ip; mask = some (mask_of m) })
  unfolding cidr_from_nfs parse_parts with_mask
  read_mask addr mask ip m h d e f = rw (cut-append b'/' addr mask h) (rw d (rw (e, f) refl))

  format_zero :
      (a : Text)
      → nfs_format_cidr ext (service_ip_from_parts (ip4 a) (pos 0))
        ≡ ok (ext.ip_string (ip4 a) ++ (b'/' ∷ codes "0.0.0.0"))
  unfolding nfs_format_cidr prefix service_ip_from_parts itoa ip_text dotted_mask
  format_zero a = refl

  as_read_zero :
      (a : Text)
      → as_read (service_ip_from_parts (ip4 a) (pos 0))
        ≡ record { ip = some (ip4 a); mask = some (mask_of zero_address) }
  unfolding as_read prefix service_ip_from_parts
  as_read_zero a = refl

  format_ip4 :
      (a : Text) (n : ℕ)
      → suc n ≤ 32
      → nfs_format_cidr ext (service_ip_from_parts (ip4 a) (pos (suc n)))
        ≡ ok (ext.ip_string (ip4 a) ++ (b'/' ∷ itoa (pos (suc n))))
  unfolding nfs_format_cidr
  format_ip4 a n b =
      let e : (suc n == 0) ≡ false = ground arith in
      rw (prefix-service_ip_from_parts (ip4 a) (suc n) b)
        (rw e (unfold service_ip_from_parts in ap ok (cidr_string_lem ext (ip4 a) (suc n) b)))

  pub as_read_ip4 :
      (a : Text) (n : ℕ)
      → suc n ≤ 32
      → as_read (service_ip_from_parts (ip4 a) (pos (suc n)))
        ≡ service_ip_from_parts (ip4 a) (pos (suc n))
  unfolding as_read
  as_read_ip4 a n b =
      let e : (suc n == 0) ≡ false = ground arith in
      rw (prefix-service_ip_from_parts (ip4 a) (suc n) b) (rw e refl)

  format_ip6 :
      (a : Text) (n : ℕ)
      → n ≤ 128
      → nfs_format_cidr ext (service_ip_from_parts (ip6 a) (pos n))
        ≡ ok ((b'[' ∷ (ext.ip_string (ip6 a) ++ b']' ∷ [])) ++ (b'/' ∷ itoa (pos n)))
  unfolding nfs_format_cidr service_ip_from_parts ip_text
  format_ip6 a n b = elim (Bool-cases (n == 0)) [
    | inl e ↦
        rw (prefix-service_ip_from_parts (ip6 a) n b)
          (rw e (ap (λ (t : Text). ok (b'[' ∷ t)) (sym (append_assoc (ext.ip_string (ip6 a)) _ _))))
    | inr e ↦
        rw (prefix-service_ip_from_parts (ip6 a) n b)
          (rw e (ap (λ (t : Text). ok (b'[' ∷ t)) (sym (append_assoc (ext.ip_string (ip6 a)) _ _))))
  ]

  pub as_read_ip6 :
      (a : Text) (n : ℕ)
      → as_read (service_ip_from_parts (ip6 a) (pos n)) ≡ service_ip_from_parts (ip6 a) (pos n)
  unfolding as_read service_ip_from_parts
  as_read_ip6 a n = elim (Bool-cases (prefix (service_ip_from_parts (ip6 a) (pos n)) == 0)) [
    | inl e ↦ rw e refl
    | inr e ↦ rw e refl
  ]

  -- What is written for an address with a prefix length is read back as that, with the mask of
  -- length 0 in its longer form.
  abbrev Reads : IpCidr → Type 0
  Reads c =
      (text : Text) × (nfs_format_cidr ext c ≡ ok text) × (cidr_from_nfs ext text ≡ ok (as_read c))

  reads :
      (ip : Ip) (n : ℕ)
      → ext.parse_ip (codes "0.0.0.0") ≡ some zero_address
      → IsAddress ext ip
      → n ≤ 8 * address_bytes ip
      → Reads (service_ip_from_parts ip (pos n))
  reads (ip4 a) zero z h b = (
    _,
    format_zero a,
    read_mask (ext.ip_string (ip4 a)) (codes "0.0.0.0") (ip4 a) zero_address h.readable.no_slash
          refl
          (ap ext.parse_ip (trim_brackets_plain (ext.ip_string (ip4 a)) h.no_bracket)
            ∙ h.readable.read_back)
          z
        ∙ ap ok (sym (as_read_zero a)),
  )
  reads (ip4 a) (suc n) z h b = (
    _,
    format_ip4 a n b,
    read_prefix (ext.ip_string (ip4 a)) (ip4 a) (suc n) h.readable.no_slash
          (ap ext.parse_ip (trim_brackets_plain (ext.ip_string (ip4 a)) h.no_bracket)
            ∙ h.readable.read_back)
          (bytes_int (ip4 a) (suc n) b)
        ∙ ap ok (sym (as_read_ip4 a n b)),
  )
  reads (ip6 a) n z h b = (
    _,
    format_ip6 a n b,
    read_prefix (b'[' ∷ (ext.ip_string (ip6 a) ++ b']' ∷ [])) (ip6 a) n
          (any-append (λ d. d == b'/') (ext.ip_string (ip6 a)) (b']' ∷ [])
            ∙ rw h.readable.no_slash refl)
          (ap ext.parse_ip (trim_brackets_inside (ext.ip_string (ip6 a)) h.no_bracket)
            ∙ h.readable.read_back)
          (bytes_int (ip6 a) n b)
        ∙ ap ok (sym (as_read_ip6 a n)),
  )

  -- An allowed address made of an address and a prefix length in range.
  pub record IsAllowedIp (c : IpCidr) : Type 0 where
    pub address : Ip
    pub length : ℕ
    pub made : c ≡ service_ip_from_parts address (pos length)
    pub is_address : IsAddress ext address
    pub in_range : length ≤ 8 * address_bytes address

  -- The text of an allowed address is written, and read back as that address, with the mask of length
  -- 0 in its longer form, if package `net` parses 0.0.0.0 and the text of the address as they are.
  pub cidr_from_nfs-nfs_format_cidr :
      (c : IpCidr)
      → ext.parse_ip (codes "0.0.0.0") ≡ some zero_address
      → IsAllowedIp c
      → (text : Text) × (nfs_format_cidr ext c ≡ ok text)
        × (cidr_from_nfs ext text ≡ ok (as_read c))
  cidr_from_nfs-nfs_format_cidr c z h =
      rw h.made (reads h.address h.length z h.is_address h.in_range)

  -- A dotted mask is lost: what is read of an IPv4 address with one, whichever it is, is written with
  -- the mask 0.0.0.0, which allows every address.
  pub nfs_format_cidr-dotted :
      (a m mask : Text)
      → IsAddress ext (ip4 a)
      → has_byte b'.' mask ≡ true
      → ext.parse_ip mask ≡ some (ip4 m)
      → (c : IpCidr) × (cidr_from_nfs ext (ext.ip_string (ip4 a) ++ (b'/' ∷ mask)) ≡ ok c)
        × (nfs_format_cidr ext c ≡ ok (ext.ip_string (ip4 a) ++ (b'/' ∷ codes "0.0.0.0")))
  unfolding nfs_format_cidr prefix itoa ip_text dotted_mask mask_of
  nfs_format_cidr-dotted a m mask h d e = (
    _,
    read_mask (ext.ip_string (ip4 a)) mask (ip4 a) (ip4 m) h.readable.no_slash d
        (ap ext.parse_ip (trim_brackets_plain (ext.ip_string (ip4 a)) h.no_bracket)
          ∙ h.readable.read_back)
        e,
    refl,
  )
