-- ===== src/Nfs/Parsing/Agents.antt =====
-- How `FromPromoter` reads the single agents that `ToPromoter` writes.
use linstor_gateway.Base.{
  ℕ, ◌+◌, ◌^◌, ◌<◌, ◌≡◌, refl, ◌∙◌, true, false, some, List, [], ◌∷◌, ◌++◌, arith,
}
use linstor_gateway.Base.Int.{ℤ, pos}
use linstor_gateway.Base.Outcome.{ok, wrapping, ◌>>=◌}
use linstor_gateway.Base.Text.{Text, codes, eq, eq_refl, lookup, attribute, strip_prefix}
use linstor_gateway.Base.FilePath.Laws.{IsPlain, AllPlain, rooted}
use linstor_gateway.Base.Decimal.{itoa, scan_number}
use linstor_gateway.Base.Decimal.Laws.{atoi-itoa, itoa_start, starts_digit, scan_number-itoa}
use linstor_gateway.External.{External}
use linstor_gateway.Linstor
use linstor_gateway.Linstor.{VolumeDefinition}
use linstor_gateway.Common.Ip.{IpCidr, service_ip_from_parts, ip_text}
use linstor_gateway.Common.Ip.Laws.{IsServiceIp, bytes_int, prefix-service_ip_from_parts}
use linstor_gateway.Common.Volume
use linstor_gateway.Common.Volume.{cluster_private_volume_agent, cluster_private_volume_agent_name}
use linstor_gateway.Nfs.ResourceConfig.{ResourceConfig, VolumeConfig, export_path_of}
use linstor_gateway.Nfs.Cidr.{cidr_from_nfs}
use linstor_gateway.Nfs.Promoter.{
  fs_prefix, fs_agent, block_agent, unblock_agent, ip_agent, server_agent, export_agent,
}
use linstor_gateway.Nfs.Parsing.{
  Parsing, find_volume, find_filesystem_agent_volume, find_scanned, export_path_in, volume_of,
  parse_defined, parse_volume, parse_portblock, set_service_ip, add_allowed, parse_agent,
}
use linstor_gateway.Nfs.Parsing.Paths.{export_path_in-export_path_of}

-- An exported volume whose number is that of a volume definition, and whose path is rooted.
pub record IsExported (vds : List VolumeDefinition) (v : VolumeConfig) (d : VolumeDefinition)
    : Type 0 where
  pub number : ℕ
  pub made : v.config.number ≡ pos number
  pub in_range : number < 2 ^ 63
  pub defined : find_volume (pos number) vds ≡ some d
  pub components : List Text
  pub plain : AllPlain components
  pub path : v.export_path ≡ rooted components

digit_first : (s t : Text) → starts_digit s ≡ true → eq s (b'c' ∷ t) ≡ false
unfolding eq
digit_first [] t h = refl
digit_first (c ∷ s) t h = ground arith

not_private : (n : ℕ) → eq (fs_prefix ++ itoa (pos n)) cluster_private_volume_agent_name ≡ false
unfolding eq
not_private n = digit_first (itoa (pos n)) _ (itoa_start n)

fs_number : (n : ℕ) → n < 2 ^ 63 → scan_number fs_prefix (fs_prefix ++ itoa (pos n)) ≡ some (pos n)
fs_number n h = scan_number-itoa fs_prefix n (unfold strip_prefix in refl) h

-- What a volume adds to the configuration.
abbrev pub with_volume : VolumeConfig → Parsing → Parsing
with_volume v p = record p { config = record (p.config) { volumes = p.config.volumes ++ v ∷ [] } }

abbrev pub with_allowed : List IpCidr → Parsing → Parsing
with_allowed allowed p = record p { config = record (p.config) { allowed_ips = allowed } }

module _ (ext : External) (namespace : Text) (vds : List VolumeDefinition) where
  pub block_step :
      (r : ResourceConfig) (p : Parsing)
      → parse_agent ext namespace vds (block_agent ext r) p
        ≡ ok (record p { num_portblocks = p.num_portblocks + 1 })
  unfolding parse_agent parse_portblock block_agent eq lookup
  block_step r p = refl

  pub unblock_step :
      (r : ResourceConfig) (resource : Text) (p : Parsing)
      → parse_agent ext namespace vds (unblock_agent ext r resource) p
        ≡ ok (record p { num_portunblocks = p.num_portunblocks + 1 })
  unfolding parse_agent parse_portblock unblock_agent eq lookup
  unblock_step r resource p = refl

  pub server_step :
      (r : ResourceConfig) (resource : Text) (p : Parsing)
      → parse_agent ext namespace vds (server_agent ext r resource) p ≡ ok p
  unfolding parse_agent server_agent eq
  server_step r resource p = refl

  pub ip_step :
      (r : ResourceConfig) (p : Parsing)
      → IsServiceIp ext r.service_ip
      → parse_agent ext namespace vds (ip_agent ext r) p
        ≡ ok (record p { config = record (p.config) { service_ip = r.service_ip } })
  unfolding parse_agent ip_agent eq lookup ip_text set_service_ip service_ip_from_parts
  ip_step r p h =
      rw (h.made, prefix-service_ip_from_parts h.address h.length h.in_range)
        (rw (h.readable.read_back, atoi-itoa h.length (bytes_int h.address h.length h.in_range)))

  pub export_step :
      (directory fsid : Text) (number : ℤ) (j : ℕ) (text : Text) (c : IpCidr) (p : Parsing)
      → cidr_from_nfs ext text ≡ ok c
      → parse_agent ext namespace vds (export_agent ext directory fsid number j text) p
        ≡ ok (with_allowed (add_allowed ext c p.config.allowed_ips) p)
  unfolding parse_agent export_agent eq lookup
  export_step directory fsid number j text c p h = rw h

  pub private_step :
      (v : Volume.VolumeConfig) (vol : Linstor.Volume) (resource : Text) (d : VolumeDefinition)
      (p : Parsing)
      → find_volume (pos 0) vds ≡ some d
      → parse_agent ext namespace vds (cluster_private_volume_agent v vol resource) p
        ≡ ok (with_volume (volume_of namespace d []) p)
  unfolding parse_agent parse_volume find_filesystem_agent_volume parse_defined export_path_in
      cluster_private_volume_agent eq
  private_step v vol resource d p h = rw h

  found-fs_agent :
      (name : Text) (vol : Linstor.Volume) (v : VolumeConfig) (d : VolumeDefinition)
      → IsExported vds v d
      → vol.volume_number ≡ v.config.number
      → find_filesystem_agent_volume vds (fs_agent name vol v) ≡ ok (some d)
  unfolding find_filesystem_agent_volume find_scanned fs_agent
  found-fs_agent name vol v d h e =
      rw
        (
          e,
          h.made,
          eq_refl (codes "ocf:heartbeat:Filesystem"),
          not_private h.number,
          fs_number h.number h.in_range,
          h.defined,
        )
        refl

  directory_lem :
      (name : Text) (vol : Linstor.Volume) (v : VolumeConfig)
      → attribute (codes "directory") (fs_agent name vol v).attributes ≡ export_path_of name v
  unfolding fs_agent eq lookup
  directory_lem name vol v = refl

  agent_name_lem :
      (name : Text) (vol : Linstor.Volume) (v : VolumeConfig) (n : ℕ)
      → vol.volume_number ≡ pos n
      → eq (fs_agent name vol v).name cluster_private_volume_agent_name ≡ false
  unfolding fs_agent
  agent_name_lem name vol v n e = rw e (not_private n)

  parse_volume-fs_agent :
      (name : Text) (vol : Linstor.Volume) (v : VolumeConfig) (d : VolumeDefinition)
      → IsPlain name
      → IsExported vds v d
      → vol.volume_number ≡ v.config.number
      → parse_volume namespace (fs_agent name vol v) vds name
        ≡ ok (volume_of namespace d v.export_path)
  unfolding parse_volume parse_defined
  parse_volume-fs_agent name vol v d n h e =
      let q = agent_name_lem name vol v h.number (e ∙ h.made) in
      rw
        (
          found-fs_agent name vol v d h e,
          directory_lem name vol v,
          export_path_in-export_path_of (fs_agent name vol v).name name v h.components q n h.plain
              h.path,
        )
        refl

  type_lem :
      (name : Text) (vol : Linstor.Volume) (v : VolumeConfig) (p : Parsing)
      → parse_agent ext namespace vds (fs_agent name vol v) p ≡ (do
        vol' ←
            wrapping "invalid ocf:heartbeat:Filesystem entry: %w"
              (parse_volume namespace (fs_agent name vol v) vds p.config.name)
        ok (with_volume vol' p))
  unfolding parse_agent fs_agent eq
  type_lem name vol v p = refl

  pub fs_step :
      (vol : Linstor.Volume) (v : VolumeConfig) (d : VolumeDefinition) (p : Parsing)
      → IsPlain p.config.name
      → IsExported vds v d
      → vol.volume_number ≡ v.config.number
      → parse_agent ext namespace vds (fs_agent p.config.name vol v) p
        ≡ ok (with_volume (volume_of namespace d v.export_path) p)
  fs_step vol v d p n h e =
      rw (type_lem p.config.name vol v p, parse_volume-fs_agent p.config.name vol v d n h e) refl
