-- ===== src/Nvmeof/Promoter.antt =====
-- pkg/nvmeof/resource_config.go: the promoter configuration of a target, written and read.
pub mod Laws
use linstor_gateway.Base.{true, not, Option, none, some, List, [], ◌∷◌, ◌++◌, ltb, if◌then◌else◌}
use linstor_gateway.Base.Int.{ℤ, pos, eqb_ℤ}
use linstor_gateway.Base.Lists.{length, take, get_elem?}
use linstor_gateway.Base.Outcome.{Result, ok, panic, fail, wrapping, ◌>>=◌}
use linstor_gateway.Base.Text.{Text, Dict, codes, eq, attribute, scan}
use linstor_gateway.Base.FilePath.{join_path}
use linstor_gateway.Base.Decimal.{itoa, atoi}
use linstor_gateway.External.{External, Ip}
use linstor_gateway.Linstor
use linstor_gateway.Linstor.{ResourceDefinition, VolumeDefinition, ResourceWithVolumes}
use linstor_gateway.Reactor.Agent.{ResourceAgent, StartEntry, resource_agent, systemd_service}
use linstor_gateway.Reactor.Config.{PromoterConfig, PromoterResourceConfig}
use linstor_gateway.Common.Ip.{IpCidr, service_ip_from_parts, ip_text, prefix, hex}
use linstor_gateway.Common.Volume.{
  VolumeConfig, device_path, cluster_private_volume_agent, cluster_private_volume_mount_path,
}
use linstor_gateway.Common.Volumes.{configs_of}
use linstor_gateway.Nvmeof.Nqn.{Nqn, new_nqn, nqn_string}
use linstor_gateway.Nvmeof.ResourceConfig.{ResourceConfig, zero_config}

abbrev pub default_port : ℤ
default_port = pos 4420

abbrev pub id_prefix : Text
id_prefix = codes "nvmeof-"

-- `ID()`, and `fmt.Sprintf(IDFormat, nqn.Subsystem())`
abbrev pub id_of : Text → Text
id_of subsystem = id_prefix ++ subsystem

-- What `net.ParseIP` and `strconv.Atoi` return, put together.
read_ip : Option Ip → Option ℤ → Result IpCidr
read_ip none length = fail "malformed ip %s"
read_ip (some ip) none = fail "failed to parse service ip prefix"
read_ip (some ip) (some length) = ok (service_ip_from_parts ip length)

unfoldable pub parse_nqn : Option StartEntry → Result Nqn
parse_nqn none = panic
parse_nqn (some (systemd_service name)) =
    fail "expected a resource agent at index %d, got a systemd service"
parse_nqn (some (resource_agent agent)) =
    if eq agent.type (codes "ocf:heartbeat:nvmet-subsystem")
    then new_nqn (attribute (codes "nqn") agent.attributes)
    else fail "expected 'ocf:heartbeat:nvmet-subsystem' agent, got '%s' instead"

module _ (ext : External) where
  unfoldable pub parse_ip : Option StartEntry → Result IpCidr
  unfolding read_ip
  parse_ip none = panic
  parse_ip (some (systemd_service name)) =
      fail "expected a resource agent at index %d, got a systemd service"
  parse_ip (some (resource_agent agent)) =
      if eq agent.type (codes "ocf:heartbeat:IPaddr2")
      then read_ip (ext.parse_ip (attribute (codes "ip") agent.attributes))
          (atoi (attribute (codes "cidr_netmask") agent.attributes))
      else fail "expected 'ocf:heartbeat:IPaddr2' agent, got '%s' instead"

  parse_resources : Dict PromoterResourceConfig → Result ResourceConfig
  unfolding parse_ip parse_nqn
  parse_resources ((name, rsc_cfg) ∷ []) =
      if ltb (length rsc_cfg.start) 5
      then fail "config has too few agent entries, expected at least 3, got %d"
      else do
        ip ← wrapping "failed to parse service IP: %w" (parse_ip (get_elem? rsc_cfg.start 2))
        nqn ← wrapping "failed to parse NQN: %w" (parse_nqn (get_elem? rsc_cfg.start 3))
        ok (record zero_config { nqn = nqn; service_ip = ip })
  parse_resources _ = fail "promoter config without exactly 1 resource (has %d)"

  -- What `Sscanf` reads in the identifier, the definition (nil where `List` could not fetch the
  -- deployment), whose field is read next, and the rest.
  parse_scanned :
      Option Text
      → Option ResourceDefinition
      → List VolumeDefinition
      → Dict PromoterResourceConfig
      → Result ResourceConfig
  unfolding parse_resources
  parse_scanned none definition volume_definitions resources =
      fail "failed to parse id into resource name: %w"
  parse_scanned (some nqn) none volume_definitions resources = panic
  parse_scanned (some nqn) (some d) volume_definitions resources = do
    r ← parse_resources resources
    ok (record r {
      resource_group = d.resource_group_name;
      volumes = configs_of volume_definitions;
    })

  unfoldable pub from_promoter :
      PromoterConfig → Option ResourceDefinition → List VolumeDefinition → Result ResourceConfig
  unfolding parse_scanned
  from_promoter cfg definition volume_definitions =
      parse_scanned (scan id_prefix cfg.id) definition volume_definitions cfg.resources

  -- The two agents that block the port and let it through again.
  unfoldable pub block_agent : ResourceConfig → ResourceAgent
  block_agent r = record {
    type = codes "ocf:heartbeat:portblock";
    name = codes "portblock";
    attributes =
        (codes "ip", ip_text ext r.service_ip)
        ∷ (codes "portno", itoa default_port)
        ∷ (codes "action", codes "block")
        ∷ (codes "protocol", codes "tcp")
        ∷ [];
  }

  unfoldable pub unblock_agent : ResourceConfig → Text → ResourceAgent
  unblock_agent r resource = record {
    type = codes "ocf:heartbeat:portblock";
    name = codes "portunblock";
    attributes =
        (codes "ip", ip_text ext r.service_ip)
        ∷ (codes "portno", itoa default_port)
        ∷ (codes "action", codes "unblock")
        ∷ (codes "protocol", codes "tcp")
        ∷ (codes "tickle_dir", join_path (cluster_private_volume_mount_path ∷ resource ∷ []))
        ∷ [];
  }

  unfoldable pub ip_agent : ResourceConfig → ResourceAgent
  ip_agent r = record {
    type = codes "ocf:heartbeat:IPaddr2";
    name = codes "service_ip";
    attributes =
        (codes "ip", ip_text ext r.service_ip)
        ∷ (codes "cidr_netmask", itoa (pos (prefix r.service_ip)))
        ∷ [];
  }

  unfoldable pub subsystem_agent : ResourceConfig → ResourceAgent
  subsystem_agent r = record {
    type = codes "ocf:heartbeat:nvmet-subsystem";
    name = codes "subsys";
    attributes =
        (codes "nqn", nqn_string r.nqn)
        ∷ (codes "serial", hex (take 8 (ext.sha256 (nqn_string r.nqn))))
        ∷ [];
  }

  unfoldable pub port_agent : ResourceConfig → ResourceAgent
  port_agent r = record {
    type = codes "ocf:heartbeat:nvmet-port";
    name = codes "port";
    attributes =
        (codes "nqns", nqn_string r.nqn)
        ∷ (codes "addr", ip_text ext r.service_ip)
        ∷ (codes "type", codes "tcp")
        ∷ [];
  }

  -- `UUIDNVMeoF`
  unfoldable pub uuid_nvmeof : Text
  uuid_nvmeof =
      ext.new_sha1 (codes "00000000-0000-0000-0000-000000000000")
        (codes "nvmeof.gateway.linstor.linbit.com")

  -- The namespace of one volume; the space of its UUID is that of the deployed resource.
  unfoldable pub namespace_agent : ResourceConfig → Text → Linstor.Volume → ResourceAgent
  namespace_agent r uuid_ns vol =
      let guid = ext.new_sha1 uuid_ns vol.uuid in
      record {
        type = codes "ocf:heartbeat:nvmet-namespace";
        name = codes "ns_" ++ itoa vol.volume_number;
        attributes =
            (codes "nqn", nqn_string r.nqn)
            ∷ (codes "namespace_id", itoa vol.volume_number)
            ∷ (codes "backing_path", ext.sprintf (device_path vol))
            ∷ (codes "uuid", guid)
            ∷ (codes "nguid", guid)
            ∷ [];
      }

  -- The loop over the deployed volumes from the second on, beside the configured ones.
  unfoldable pub namespace_agents :
      ResourceConfig → Text → List Linstor.Volume → List VolumeConfig → Result (List StartEntry)
  unfolding namespace_agent
  namespace_agents r uuid_ns [] volumes = ok []
  namespace_agents r uuid_ns (vol ∷ vols) [] = panic
  namespace_agents r uuid_ns (vol ∷ vols) (v ∷ vs) =
      let rest = namespace_agents r uuid_ns vols vs in
      if not (eqb_ℤ vol.volume_number v.number)
      then fail "inconsistent volumes, expected volume number %d, got %d"
      else do agents ← rest; ok (resource_agent (namespace_agent r uuid_ns vol) ∷ agents)

  agents_of :
      ResourceConfig
      → ResourceWithVolumes
      → List VolumeConfig
      → List Linstor.Volume
      → Result (List StartEntry)
  unfolding uuid_nvmeof namespace_agents block_agent unblock_agent ip_agent subsystem_agent
      port_agent
  agents_of r deployed (private ∷ volumes) (deployed_private ∷ deployed_volumes) = do
    namespaces ←
        namespace_agents r (ext.new_sha1 uuid_nvmeof deployed.uuid) deployed_volumes volumes
    ok (
        resource_agent (block_agent r)
        ∷ resource_agent (cluster_private_volume_agent private deployed_private r.nqn.subsystem)
        ∷ resource_agent (ip_agent r)
        ∷ resource_agent (subsystem_agent r)
        ∷ (namespaces
            ++ (resource_agent (port_agent r)
                ∷ resource_agent (unblock_agent r deployed.name)
                ∷ [])))
  agents_of r deployed _ _ = panic

  -- `ToPromoter`; the volume with the index 0 is read without a test of its presence.
  unfoldable pub to_promoter : ResourceConfig → List ResourceWithVolumes → Result PromoterConfig
  unfolding agents_of
  to_promoter r [] = fail "resource config is missing deployment information"
  to_promoter r (deployed ∷ others) = do
    agents ← agents_of r deployed r.volumes deployed.volumes
    ok (record {
      id = id_of r.nqn.subsystem;
      resources =
          (
            r.nqn.subsystem,
            record {
              start = agents;
              runner = codes "systemd";
              on_drbd_demote_failure = codes "reboot-immediate";
              stop_services_on_exit = true;
              target_as = codes "Requires";
            },
          )
          ∷ [];
    })
