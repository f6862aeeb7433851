-- ===== src/Iscsi/Promoter.antt =====
-- pkg/iscsi/resource_config.go: the promoter configuration of a target, written and read.
pub mod Reading
pub mod Laws
use linstor_gateway.Base.{
  ℕ, zero, suc, ◌+◌, Bool, true, false, not, ◌&&◌, ◌||◌, Option, none, some, List, [], ◌∷◌, ◌++◌,
  map, ltb, ◌==◌, if◌then◌else◌,
}
use linstor_gateway.Base.Int.{ℤ, pos, eqb_ℤ}
use linstor_gateway.Base.Lists.{length, any, take}
use linstor_gateway.Base.Outcome.{Result, ok, err, panic, fail, wrapping, ◌>>=◌, ◌>>◌}
use linstor_gateway.Base.Text.{Text, Dict, codes, eq, attribute, is_empty, join, split, scan}
use linstor_gateway.Base.FilePath.{join_path}
use linstor_gateway.Base.Decimal.{itoa, atoi}
use linstor_gateway.External.{External, Ip}
use linstor_gateway.Linstor
use linstor_gateway.Linstor.{ResourceDefinition, VolumeDefinition, ResourceWithVolumes}
use linstor_gateway.Reactor.Agent.{ResourceAgent, StartEntry, resource_agent, systemd_service}
use linstor_gateway.Reactor.Config.{PromoterConfig, PromoterResourceConfig}
use linstor_gateway.Common.Ip.{IpCidr, service_ip_from_parts, ip_text, prefix, hex}
use linstor_gateway.Common.Volume.{
  VolumeConfig, device_path, cluster_private_volume_agent, cluster_private_volume_mount_path,
}
use linstor_gateway.Common.Volumes.{configs_of}
use linstor_gateway.Iscsi.Iqn.{Iqn, new_iqn, iqn_string}
use linstor_gateway.Iscsi.ResourceConfig.{ResourceConfig, zero_config}

abbrev pub default_iscsi_port : ℤ
default_iscsi_port = pos 3260

abbrev pub id_prefix : Text
id_prefix = codes "iscsi-"

-- `ID()`, and `fmt.Sprintf(IDFormat, iqn.WWN())`
abbrev pub id_of : Text → Text
id_of wwn = id_prefix ++ wwn

-- The variables of the loop of `parsePromoterConfig`.
pub record Parsing : Type 0 where
  pub config : ResourceConfig
  pub num_portblocks : ℕ
  pub num_portunblocks : ℕ

abbrev start_parsing : Parsing
start_parsing = record { config = zero_config; num_portblocks = 0; num_portunblocks = 0 }

unfoldable pub parse_portblock : ResourceAgent → Parsing → Parsing
parse_portblock agent p =
    if eq (attribute (codes "action") agent.attributes) (codes "block")
    then record p { num_portblocks = p.num_portblocks + 1 }
    else if eq (attribute (codes "action") agent.attributes) (codes "unblock")
    then record p { num_portunblocks = p.num_portunblocks + 1 }
    else p

unfoldable pub parse_allowed : List Text → Result (List Iqn)
parse_allowed [] = ok []
parse_allowed (allowed ∷ rest) = do
  iqn ← wrapping "got malformed iqn %s for allowed initiators: %w" (new_iqn allowed)
  iqns ← parse_allowed rest
  ok (iqn ∷ iqns)

unfoldable pub parse_target : ResourceAgent → Parsing → Result Parsing
unfolding parse_allowed
parse_target agent p = do
  iqn ← wrapping "got malformed iqn: %w" (new_iqn (attribute (codes "iqn") agent.attributes))
  let raw_allowed = attribute (codes "allowed_initiators") agent.attributes
  allowed ← if is_empty raw_allowed then ok [] else parse_allowed (split b' ' raw_allowed)
  ok (record p {
    config = record (p.config) {
      iqn = iqn;
      username = attribute (codes "incoming_username") agent.attributes;
      password = attribute (codes "incoming_password") agent.attributes;
      allowed_initiators = p.config.allowed_initiators ++ allowed;
    };
  })

-- `for i, ip := range r.ServiceIPs`, from the index `i` on
unfoldable pub for_ips : (ℕ → IpCidr → ResourceAgent) → ℕ → List IpCidr → List StartEntry
for_ips agent i [] = []
for_ips agent i (ip ∷ ips) = resource_agent (agent i ip) ∷ for_ips agent (i + 1) ips

-- What `net.ParseIP` and `strconv.Atoi` return, put together.
unfoldable pub add_service_ip : Option Ip → Option ℤ → Parsing → Result Parsing
add_service_ip none length p = fail "malformed ip %s"
add_service_ip (some ip) none p = fail "failed to parse service ip prefix"
add_service_ip (some ip) (some length) p = ok (record p {
  config = record (p.config) {
    service_ips = p.config.service_ips ++ service_ip_from_parts ip length ∷ [];
  };
})

module _ (ext : External) where
  unfoldable pub parse_ip : ResourceAgent → Parsing → Result Parsing
  unfolding add_service_ip
  parse_ip agent p =
      add_service_ip (ext.parse_ip (attribute (codes "ip") agent.attributes))
        (atoi (attribute (codes "cidr_netmask") agent.attributes)) p

  unfoldable pub parse_agent : ResourceAgent → Parsing → Result Parsing
  unfolding parse_portblock parse_ip parse_target
  parse_agent agent p =
      if eq agent.type (codes "ocf:heartbeat:portblock")
      then ok (parse_portblock agent p)
      else if eq agent.type (codes "ocf:heartbeat:IPaddr2")
      then parse_ip agent p
      else if eq agent.type (codes "ocf:heartbeat:iSCSITarget")
      then parse_target agent p
      else ok p

  unfoldable pub parse_entries : List StartEntry → Parsing → Result Parsing
  unfolding parse_agent
  parse_entries [] p = ok p
  parse_entries (systemd_service name ∷ entries) p = parse_entries entries p
  parse_entries (resource_agent agent ∷ entries) p = do
    p' ← parse_agent agent p
    parse_entries entries p'

  unfoldable pub check_parsed : Parsing → Result ResourceConfig
  check_parsed p =
      if not (p.num_portblocks == p.num_portunblocks)
      then fail
          "malformed configuration: got a different number of portblock and portunblock agents"
      else if not (p.num_portblocks == length p.config.service_ips)
      then fail
          "malformed configuration: got a different number of portblock agents than IPaddr2 agents"
      else ok p.config

  parse_resources : Dict PromoterResourceConfig → Result ResourceConfig
  unfolding parse_entries check_parsed
  parse_resources ((name, rsc_cfg) ∷ []) =
      if ltb (length rsc_cfg.start) 4
      then fail "config has too few agent entries, expected at least %d, got %d"
      else do p ← parse_entries rsc_cfg.start start_parsing; check_parsed p
  parse_resources _ = fail "promoter config without exactly 1 resource (has %d)"

  -- What `Sscanf` reads in the identifier, and the resources.
  parse_scanned : Option Text → Dict PromoterResourceConfig → Result ResourceConfig
  unfolding parse_resources
  parse_scanned none resources = fail "failed to parse id into resource name: %w"
  parse_scanned (some res) resources = parse_resources resources

  unfoldable pub parse_promoter_config : PromoterConfig → Result ResourceConfig
  unfolding parse_scanned
  parse_promoter_config cfg = parse_scanned (scan id_prefix cfg.id) cfg.resources

  -- `definition` is nil where `List` could not fetch the deployment; reading its field then panics.
  unfoldable pub from_promoter :
      PromoterConfig → Option ResourceDefinition → List VolumeDefinition → Result ResourceConfig
  unfolding parse_promoter_config
  from_promoter cfg definition volume_definitions = do
    r ← wrapping "failed to parse promoter config: %w" (parse_promoter_config cfg)
    d ← elim definition [ none ↦ panic | some d ↦ ok d ]
    ok (record r {
      resource_group = d.resource_group_name;
      volumes = r.volumes ++ configs_of volume_definitions;
      gross_size =
          any (λ vd. any (λ flag. eq flag (codes "GROSS_SIZE")) vd.flags) volume_definitions;
    })

  portal : IpCidr → Text
  portal ip = ip_text ext ip ++ (b':' ∷ itoa default_iscsi_port)

  unfoldable pub portals : ResourceConfig → Text
  unfolding portal
  portals r = join b' ' (map portal r.service_ips)

  unfoldable pub block_agent : ℕ → IpCidr → ResourceAgent
  block_agent i ip = record {
    type = codes "ocf:heartbeat:portblock";
    name = codes "pblock" ++ itoa (pos i);
    attributes =
        (codes "ip", ip_text ext ip)
        ∷ (codes "portno", itoa default_iscsi_port)
        ∷ (codes "action", codes "block")
        ∷ (codes "protocol", codes "tcp")
        ∷ [];
  }

  unfoldable pub ip_agent : ℕ → IpCidr → ResourceAgent
  ip_agent i ip = record {
    type = codes "ocf:heartbeat:IPaddr2";
    name = codes "service_ip" ++ itoa (pos i);
    attributes = (codes "ip", ip_text ext ip) ∷ (codes "cidr_netmask", itoa (pos (prefix ip))) ∷ [];
  }

  unfoldable pub unblock_agent : Text → ℕ → IpCidr → ResourceAgent
  unblock_agent resource i ip = record {
    type = codes "ocf:heartbeat:portblock";
    name = codes "portunblock" ++ itoa (pos i);
    attributes =
        (codes "ip", ip_text ext ip)
        ∷ (codes "portno", itoa default_iscsi_port)
        ∷ (codes "action", codes "unblock")
        ∷ (codes "protocol", codes "tcp")
        ∷ (codes "tickle_dir", join_path (cluster_private_volume_mount_path ∷ resource ∷ []))
        ∷ [];
  }

  unfoldable pub target_agent : ResourceConfig → ResourceAgent
  unfolding portals
  target_agent r = record {
    type = codes "ocf:heartbeat:iSCSITarget";
    name = codes "target";
    attributes =
        (codes "iqn", iqn_string r.iqn)
        ∷ (codes "portals", portals r)
        ∷ (codes "incoming_username", r.username)
        ∷ (codes "incoming_password", r.password)
        ∷ (codes "allowed_initiators", join b' ' (map iqn_string r.allowed_initiators))
        ∷ [];
  }

  unfoldable pub lun_agent : ResourceConfig → Linstor.Volume → ResourceAgent
  lun_agent r vol = record {
    type = codes "ocf:heartbeat:iSCSILogicalUnit";
    name = codes "lu" ++ itoa vol.volume_number;
    attributes =
        (codes "target_iqn", iqn_string r.iqn)
        ∷ (codes "lun", itoa vol.volume_number)
        ∷ (codes "path", ext.sprintf (device_path vol))
        ∷ (codes "product_id", codes "LINSTOR iSCSI")
        ∷ (codes "scsi_sn", hex (take 4 (ext.md5 (iqn_string r.iqn))))
        ∷ [];
  }

  -- The loop over the deployed volumes from the second on, beside the configured ones.
  unfoldable pub lun_agents :
      ResourceConfig → List Linstor.Volume → List VolumeConfig → Result (List StartEntry)
  unfolding lun_agent
  lun_agents r [] volumes = ok []
  lun_agents r (vol ∷ vols) [] = panic
  lun_agents r (vol ∷ vols) (v ∷ vs) =
      let rest = lun_agents r vols vs in
      if not (eqb_ℤ vol.volume_number v.number)
      then fail "inconsistent volumes, expected volume number %d, got %d"
      else do agents ← rest; ok (resource_agent (lun_agent r vol) ∷ agents)

  agents_of :
      ResourceConfig
      → ResourceWithVolumes
      → List VolumeConfig
      → List Linstor.Volume
      → Result (List StartEntry)
  unfolding for_ips block_agent ip_agent unblock_agent target_agent lun_agents
  agents_of r deployed (private ∷ volumes) (deployed_private ∷ deployed_volumes) = do
    luns ← lun_agents r deployed_volumes volumes
    ok (
        resource_agent (cluster_private_volume_agent private deployed_private r.iqn.wwn)
        ∷ (for_ips block_agent 0 r.service_ips
            ++ (for_ips ip_agent 0 r.service_ips
                ++ (resource_agent (target_agent r)
                    ∷ (luns ++ for_ips (unblock_agent deployed.name) 0 r.service_ips)))))
  agents_of r deployed _ _ = panic

  -- `ToPromoter`; the volume with the index 0 is read without a test of its presence.
  unfoldable pub to_promoter : ResourceConfig → List ResourceWithVolumes → Result PromoterConfig
  unfolding agents_of
  to_promoter r [] = fail "resource config is missing deployment information"
  to_promoter r (deployed ∷ others) = do
    agents ← agents_of r deployed r.volumes deployed.volumes
    ok (record {
      id = id_of r.iqn.wwn;
      resources =
          (
            r.iqn.wwn,
            record {
              start = agents;
              runner = codes "systemd";
              on_drbd_demote_failure = codes "reboot-immediate";
              stop_services_on_exit = true;
              target_as = codes "Requires";
            },
          )
          ∷ [];
    })
