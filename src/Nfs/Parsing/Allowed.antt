-- ===== src/Nfs/Parsing/Allowed.antt =====
-- The allowed addresses that `FromPromoter` collects from the agents of all volumes.
use mathlib.Core.List.{append_assoc, append-nil}
use mathlib.Core.Path.{subst}
use linstor_gateway.Base.{
  ◌≤◌, ◌*◌, ◌≡◌, refl, sym, ap, ◌∙◌, true, false, List, [], ◌∷◌, ◌++◌, arith, suc, zero, ℕ,
}
use linstor_gateway.Base.Int.{pos}
use linstor_gateway.Base.Lists.{any, any-append}
use linstor_gateway.Base.Text.{eq, eq_iff, eq_refl}
use linstor_gateway.External.{External, Ip, ip4, ip6}
use linstor_gateway.Common.Ip.{
  IpCidr, address_bytes, prefix, service_ip_from_parts, cidr_string, simple_mask_length,
}
use linstor_gateway.Nfs.Cidr.{mask_of}
use linstor_gateway.Nfs.Cidr.Laws.{IsAllowedIp, as_read, as_read_ip4, as_read_ip6}
use linstor_gateway.Nfs.Parsing.{add_allowed}

module _ (ext : External) where
  made-as_read :
      (ip : Ip) (n : ℕ)
      → n ≤ 8 * address_bytes ip
      → cidr_string ext (as_read (service_ip_from_parts ip (pos n)))
        ≡ cidr_string ext (service_ip_from_parts ip (pos n))
  made-as_read (ip4 a) zero h =
      unfold cidr_string as_read service_ip_from_parts prefix simple_mask_length mask_of in refl
  made-as_read (ip4 a) (suc n) h = ap (cidr_string ext) (as_read_ip4 ext a n h)
  made-as_read (ip6 a) n h = ap (cidr_string ext) (as_read_ip6 ext a n)

  -- An allowed address that is read back has the text that it had.
  pub cidr_string-as_read :
      (c : IpCidr) → IsAllowedIp ext c → cidr_string ext (as_read c) ≡ cidr_string ext c
  cidr_string-as_read c h = rw h.made (made-as_read h.address h.length h.in_range)

  -- No two of the addresses have the same text.
  abbrev pub Distinct : List IpCidr → Type 0
  Distinct [] = Unit
  Distinct (c ∷ cs) =
      (any (λ d. eq (cidr_string ext d) (cidr_string ext c)) cs ≡ false) × Distinct cs

  -- The addresses, added one after the other.
  abbrev pub add_all : List IpCidr → List IpCidr → List IpCidr
  add_all allowed [] = allowed
  add_all allowed (c ∷ cs) = add_all (add_allowed ext c allowed) cs

  other_text :
      (a c : IpCidr)
      → eq (cidr_string ext c) (cidr_string ext a) ≡ false
      → eq (cidr_string ext a) (cidr_string ext c) ≡ false
  other_text a c h = ground (
    arith,
    eq_iff (cidr_string ext a) (cidr_string ext c),
    eq_iff (cidr_string ext c) (cidr_string ext a),
  )

  Distinct-any :
      (kept : List IpCidr) (c : IpCidr) (cs : List IpCidr)
      → Distinct (kept ++ c ∷ cs)
      → any (λ d. eq (cidr_string ext d) (cidr_string ext c)) kept ≡ false
  Distinct-any [] c cs h = refl
  Distinct-any (a ∷ kept) c cs h =
      let e = any-append (λ d. eq (cidr_string ext d) (cidr_string ext a)) kept (c ∷ cs) in
      ground (arith, e, other_text a c, Distinct-any kept c cs)

  pub add_all-Distinct :
      (kept cs : List IpCidr) → Distinct (kept ++ cs) → add_all kept cs ≡ kept ++ cs
  unfolding add_allowed
  add_all-Distinct kept [] h = sym (append-nil kept)
  add_all-Distinct kept (c ∷ cs) h = rw (Distinct-any kept c cs h) (
      add_all-Distinct (kept ++ c ∷ []) cs (subst Distinct (sym (append_assoc kept (c ∷ []) cs)) h)
      ∙ append_assoc kept (c ∷ []) cs)

  pub add_all-again : (kept cs : List IpCidr) → add_all (kept ++ cs) cs ≡ kept ++ cs
  unfolding add_allowed
  add_all-again kept [] = refl
  add_all-again kept (c ∷ cs) =
      let t : any (λ d. eq (cidr_string ext d) (cidr_string ext c)) (kept ++ c ∷ cs) ≡ true =
        any-append (λ d. eq (cidr_string ext d) (cidr_string ext c)) kept (c ∷ cs)
        ∙ ground (arith, eq_refl (cidr_string ext c)) in
      rw t (
        ap (λ (l : List IpCidr). add_all l cs) (sym (append_assoc kept (c ∷ []) cs))
        ∙ add_all-again (kept ++ c ∷ []) cs
        ∙ append_assoc kept (c ∷ []) cs)
