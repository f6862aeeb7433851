-- ===== src/Iscsi/Promoter/Reading.antt =====
-- How `FromPromoter` reads the single entries that `ToPromoter` writes.
use mathlib.Core.List.{append_assoc, append-nil}
use linstor_gateway.Base.{
  ℕ, ◌+◌, ◌≡◌, refl, sym, ap, ◌∙◌, false, List, [], ◌∷◌, ◌++◌, map, arith, if◌then◌else◌,
}
use linstor_gateway.Base.Lists.{length}
use linstor_gateway.Base.Outcome.{ok}
use linstor_gateway.Base.Text.{Text, eq, lookup, join, split, NoByte, is_empty}
use linstor_gateway.Base.Text.Laws.{split-join}
use linstor_gateway.Base.Decimal.Laws.{atoi-itoa}
use linstor_gateway.External.{External}
use linstor_gateway.Linstor
use linstor_gateway.Linstor.{ResourceDefinition, VolumeDefinition, ResourceWithVolumes}
use linstor_gateway.Reactor.Agent.{ResourceAgent, StartEntry, resource_agent}
use linstor_gateway.Common.Ip.{IpCidr, service_ip_from_parts, ip_text}
use linstor_gateway.Common.Ip.Laws.{IsServiceIp, bytes_int, prefix-service_ip_from_parts}
use linstor_gateway.Common.Volume.{VolumeConfig, cluster_private_volume_agent}
use linstor_gateway.Iscsi.Iqn.{Iqn, iqn_string}
use linstor_gateway.Iscsi.Iqn.Laws.{
  IsIqn, new_iqn-iqn_string, iqn_string_no_space, iqn_string_non_empty,
}
use linstor_gateway.Iscsi.ResourceConfig.{ResourceConfig}
use linstor_gateway.Iscsi.Promoter.{
  Parsing, parse_agent, parse_entries, parse_allowed, for_ips, block_agent, ip_agent, unblock_agent,
  target_agent, lun_agent,
}

module _ (ext : External) where
  abbrev pub lun_entry : ResourceConfig → Linstor.Volume → StartEntry
  lun_entry r vol = resource_agent (lun_agent ext r vol)

  abbrev pub AllServiceIps : List IpCidr → Type 0
  AllServiceIps [] = Unit
  AllServiceIps (c ∷ cs) = IsServiceIp ext c × AllServiceIps cs

  block_step :
      (i : ℕ) (ip : IpCidr) (p : Parsing)
      → parse_agent ext (block_agent ext i ip) p
        ≡ ok (record p { num_portblocks = p.num_portblocks + 1 })
  unfolding parse_agent block_agent eq lookup
  block_step i ip p = refl

  unblock_step :
      (resource : Text) (i : ℕ) (ip : IpCidr) (p : Parsing)
      → parse_agent ext (unblock_agent ext resource i ip) p
        ≡ ok (record p { num_portunblocks = p.num_portunblocks + 1 })
  unfolding parse_agent unblock_agent eq lookup
  unblock_step resource i ip p = refl

  lun_step :
      (r : ResourceConfig) (vol : Linstor.Volume) (p : Parsing)
      → parse_agent ext (lun_agent ext r vol) p ≡ ok p
  unfolding parse_agent lun_agent eq
  lun_step r vol p = refl

  pub private_step :
      (v : VolumeConfig) (vol : Linstor.Volume) (resource : Text) (p : Parsing)
      → parse_agent ext (cluster_private_volume_agent v vol resource) p ≡ ok p
  unfolding parse_agent cluster_private_volume_agent eq
  private_step v vol resource p = refl

  ip_step :
      (i : ℕ) (c : IpCidr) (p : Parsing)
      → IsServiceIp ext c
      → parse_agent ext (ip_agent ext i c) p
        ≡ ok (record p {
          config = record (p.config) { service_ips = p.config.service_ips ++ c ∷ [] };
        })
  unfolding parse_agent ip_agent eq lookup ip_text service_ip_from_parts
  ip_step i c p h =
      rw (h.made, prefix-service_ip_from_parts h.address h.length h.in_range)
        (rw (h.readable.read_back, atoi-itoa h.length (bytes_int h.address h.length h.in_range)))

  abbrev pub AllIqns : List Iqn → Type 0
  AllIqns [] = Unit
  AllIqns (i ∷ is) = IsIqn i × AllIqns is

  parse_allowed_lem : (is : List Iqn) → AllIqns is → parse_allowed (map iqn_string is) ≡ ok is
  unfolding parse_allowed
  parse_allowed_lem [] h = refl
  parse_allowed_lem (i ∷ is) h = rw (new_iqn-iqn_string i h.0) (rw (parse_allowed_lem is h.1))

  iqns_no_space : (is : List Iqn) → AllIqns is → NoByte b' ' (map iqn_string is)
  iqns_no_space [] h = tt
  iqns_no_space (i ∷ is) h = (iqn_string_no_space i h.0, iqns_no_space is h.1)

  joined_non_empty :
      (i : Iqn) (is : List Iqn) → IsIqn i → is_empty (join b' ' (map iqn_string (i ∷ is))) ≡ false
  unfolding join
  joined_non_empty i [] h = iqn_string_non_empty i h
  joined_non_empty i (j ∷ is) h = go (iqn_string i) (iqn_string_non_empty i h)
    where
      go :
          (a : Text)
          → is_empty a ≡ false
          → is_empty (a ++ (b' ' ∷ join b' ' (map iqn_string (j ∷ is)))) ≡ false
      go [] e = refl
      go (c ∷ a) e = refl

  allowed_lem :
      (is : List Iqn)
      → AllIqns is
      → (if is_empty (join b' ' (map iqn_string is))
          then ok []
          else parse_allowed (split b' ' (join b' ' (map iqn_string is))))
        ≡ ok is
  allowed_lem [] h = unfold join in refl
  allowed_lem (i ∷ is) h =
      rw
        (
          joined_non_empty i is h.0,
          split-join b' ' (iqn_string i) (map iqn_string is) (iqns_no_space (i ∷ is) h),
        )
        (parse_allowed_lem (i ∷ is) h)

  -- What the target's agent adds to the configuration.
  abbrev pub with_target : ResourceConfig → Parsing → Parsing
  with_target r p = record p {
    config = record (p.config) {
      iqn = r.iqn;
      username = r.username;
      password = r.password;
      allowed_initiators = p.config.allowed_initiators ++ r.allowed_initiators;
    };
  }

  pub target_step :
      (r : ResourceConfig) (p : Parsing)
      → IsIqn r.iqn
      → AllIqns r.allowed_initiators
      → parse_agent ext (target_agent ext r) p ≡ ok (with_target r p)
  unfolding parse_agent target_agent eq lookup
  target_step r p h k = rw (new_iqn-iqn_string r.iqn h) (rw (allowed_lem r.allowed_initiators k))

  pub agent_first :
      (agent : ResourceAgent) (rest : List StartEntry) (p q : Parsing)
      → parse_agent ext agent p ≡ ok q
      → parse_entries ext (resource_agent agent ∷ rest) p ≡ parse_entries ext rest q
  unfolding parse_entries
  agent_first agent rest p q h = rw h

  module _ (rest : List StartEntry) where
    pub block_steps :
        (ips : List IpCidr) (i : ℕ) (p : Parsing)
        → parse_entries ext (for_ips (block_agent ext) i ips ++ rest) p
          ≡ parse_entries ext rest (record p { num_portblocks = p.num_portblocks + length ips })
    unfolding for_ips parse_entries
    block_steps [] i p =
        ap (λ (n : ℕ). parse_entries ext rest (record p { num_portblocks = n })) (omega arith)
    block_steps (ip ∷ ips) i p = rw (block_step i ip p) (
        block_steps ips (i + 1) (record p { num_portblocks = p.num_portblocks + 1 })
        ∙ ap (λ (n : ℕ). parse_entries ext rest (record p { num_portblocks = n })) (omega arith))

    pub unblock_steps :
        (resource : Text) (ips : List IpCidr) (i : ℕ) (p : Parsing)
        → parse_entries ext (for_ips (unblock_agent ext resource) i ips ++ rest) p
          ≡ parse_entries ext rest (record p { num_portunblocks = p.num_portunblocks + length ips })
    unfolding for_ips parse_entries
    unblock_steps resource [] i p =
        ap (λ (n : ℕ). parse_entries ext rest (record p { num_portunblocks = n })) (omega arith)
    unblock_steps resource (ip ∷ ips) i p = rw (unblock_step resource i ip p) (
        unblock_steps resource ips (i + 1) (record p { num_portunblocks = p.num_portunblocks + 1 })
        ∙ ap (λ (n : ℕ). parse_entries ext rest (record p { num_portunblocks = n })) (omega arith))

    abbrev pub with_ips : List IpCidr → Parsing → Parsing
    with_ips ips p = record p { config = record (p.config) { service_ips = ips } }

    pub ip_steps :
        (ips : List IpCidr) (i : ℕ) (p : Parsing)
        → AllServiceIps ips
        → parse_entries ext (for_ips (ip_agent ext) i ips ++ rest) p
          ≡ parse_entries ext rest (with_ips (p.config.service_ips ++ ips) p)
    unfolding for_ips parse_entries
    ip_steps [] i p h =
        ap (λ (l : List IpCidr). parse_entries ext rest (with_ips l p))
          (sym (append-nil p.config.service_ips))
    ip_steps (c ∷ ips) i p h = rw (ip_step i c p h.0) (
        ip_steps ips (i + 1) (with_ips (p.config.service_ips ++ c ∷ []) p) h.1
        ∙ ap (λ (l : List IpCidr). parse_entries ext rest (with_ips l p))
            (append_assoc p.config.service_ips (c ∷ []) ips))

    pub lun_steps :
        (r : ResourceConfig) (vols : List Linstor.Volume) (p : Parsing)
        → parse_entries ext (map (lun_entry r) vols ++ rest) p ≡ parse_entries ext rest p
    unfolding parse_entries
    lun_steps r [] p = refl
    lun_steps r (vol ∷ vols) p = rw (lun_step r vol p) (lun_steps r vols p)
