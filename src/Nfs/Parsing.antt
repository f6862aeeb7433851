-- ===== src/Nfs/Parsing.antt =====
-- pkg/nfs/resource_config.go: how `FromPromoter` reads a promoter configuration.
pub mod Paths
pub mod Allowed
pub mod Agents
pub mod Steps
pub mod Laws
pub mod Matching
use linstor_gateway.Base.{
  ℕ, zero, suc, ◌+◌, not, Option, none, some, List, [], ◌∷◌, ◌++◌, ◌==◌, if◌then◌else◌,
}
use linstor_gateway.Base.Int.{ℤ, pos, eqb_ℤ}
use linstor_gateway.Base.Lists.{length, any, drop}
use linstor_gateway.Base.Outcome.{Result, ok, panic, fail, wrapping, ◌>>=◌}
use linstor_gateway.Base.Text.{Text, Dict, codes, eq, lookup, attribute, has_prefix, scan}
use linstor_gateway.Base.FilePath.{join_path}
use linstor_gateway.Base.Decimal.{atoi, scan_number}
use linstor_gateway.External.{External, Ip}
use linstor_gateway.Linstor.{ResourceDefinition, VolumeDefinition}
use linstor_gateway.Reactor.Agent.{ResourceAgent, StartEntry, resource_agent, systemd_service}
use linstor_gateway.Reactor.Config.{PromoterConfig, PromoterResourceConfig}
use linstor_gateway.Common.Ip.{IpCidr, service_ip_from_parts, cidr_string}
use linstor_gateway.Common.Volume.{cluster_private_volume_agent_name, root}
use linstor_gateway.Common.Volumes.{number_of}
use linstor_gateway.Nfs.Cidr.{cidr_from_nfs}
use linstor_gateway.Nfs.ResourceConfig.{
  ResourceConfig, VolumeConfig, zero_config, export_base_path, rooted_path,
}
use linstor_gateway.Nfs.Promoter.{id_prefix, fs_prefix}

-- The variables of the loop of `FromPromoter`.
pub record Parsing : Type 0 where
  pub config : ResourceConfig
  pub num_portblocks : ℕ
  pub num_portunblocks : ℕ

-- The loop of `findFilesystemAgentVolume`: the first volume with the number.
unfoldable pub find_volume : ℤ → List VolumeDefinition → Option VolumeDefinition
find_volume number [] = none
find_volume number (vd ∷ vds) =
    let rest = find_volume number vds in
    if eqb_ℤ (number_of vd.volume_number) number then some vd else rest

find_scanned : Option ℤ → List VolumeDefinition → Result (Option VolumeDefinition)
unfolding find_volume
find_scanned none vds = fail "agent %s doesn't have expected name: %w"
find_scanned (some number) vds = ok (find_volume number vds)

unfoldable pub find_filesystem_agent_volume :
    List VolumeDefinition → ResourceAgent → Result (Option VolumeDefinition)
unfolding find_scanned
find_filesystem_agent_volume vds agent =
    if not (eq agent.type (codes "ocf:heartbeat:Filesystem"))
    then fail "invalid agent: %v"
    else if eq agent.name cluster_private_volume_agent_name
    then ok (find_volume (pos 0) vds)
    else find_scanned (scan_number fs_prefix agent.name) vds

-- The export path in the directory of an agent.
unfoldable pub export_path_in : Text → Text → Text → Result Text
export_path_in agent_name dir prefix =
    if eq agent_name cluster_private_volume_agent_name
    then ok []
    else if not (has_prefix dir prefix)
    then fail "export path %s not rooted in expected export path %s"
    else ok (rooted_path (drop (length prefix) dir))

-- The later assignment is that of the MkfsParams, where the volume has them.
file_system_of : Option Text → Option Text → Text
file_system_of type (some mkfs_params) = mkfs_params
file_system_of (some type) none = type
file_system_of none none = []

-- `namespace` is the constant `apiconsts.NamespcFilesystem`.
unfoldable pub volume_of : Text → VolumeDefinition → Text → VolumeConfig
unfolding file_system_of
volume_of namespace vd export_path = record {
  config = record {
    number = number_of vd.volume_number;
    size_kib = vd.size_kib;
    file_system =
        file_system_of (lookup (namespace ++ codes "/Type") vd.props)
          (lookup (namespace ++ codes "/MkfsParams") vd.props);
    file_system_root_owner = root;
  };
  export_path = export_path;
}

parse_defined : Text → ResourceAgent → Text → Option VolumeDefinition → Result VolumeConfig
unfolding export_path_in volume_of
parse_defined namespace agent res_name none =
    fail "no volume definition found for resource agent %s"
parse_defined namespace agent res_name (some vd) = do
  export_path ←
      export_path_in agent.name (attribute (codes "directory") agent.attributes)
        (join_path (export_base_path ∷ res_name ∷ []))
  ok (volume_of namespace vd export_path)

unfoldable pub parse_volume :
    Text → ResourceAgent → List VolumeDefinition → Text → Result VolumeConfig
unfolding parse_defined
parse_volume namespace agent vds res_name = do
  vd ← find_filesystem_agent_volume vds agent
  parse_defined namespace agent res_name vd

unfoldable pub parse_portblock : ResourceAgent → Parsing → Parsing
parse_portblock agent p =
    if eq (attribute (codes "action") agent.attributes) (codes "block")
    then record p { num_portblocks = p.num_portblocks + 1 }
    else if eq (attribute (codes "action") agent.attributes) (codes "unblock")
    then record p { num_portunblocks = p.num_portunblocks + 1 }
    else p

-- What `net.ParseIP` and `strconv.Atoi` return, put together.
set_service_ip : Option Ip → Option ℤ → Parsing → Result Parsing
set_service_ip none length p = fail "malformed ip %s"
set_service_ip (some ip) none p = fail "failed to parse service ip prefix"
set_service_ip (some ip) (some length) p =
    ok (record p { config = record (p.config) { service_ip = service_ip_from_parts ip length } })

-- The checks of the numbers of port block agents.
unfoldable pub check_parsed : Parsing → Result ResourceConfig
check_parsed p =
    if not (p.num_portblocks == p.num_portunblocks)
    then fail "malformed configuration: got a different number of portblock and portunblock agents"
    else if not (p.num_portblocks == 1)
    then fail
        "malformed configuration: got a different number of portblock agents than IPaddr2 agents"
    else ok p.config

-- The variables where the loop begins.
abbrev pub start_parsing : Text → ResourceDefinition → Parsing
start_parsing name definition = record {
  config = record zero_config { name = name; resource_group = definition.resource_group_name };
  num_portblocks = 0;
  num_portunblocks = 0;
}

module _ (ext : External) where
  -- The address is appended unless one with the same text is there.
  unfoldable pub add_allowed : IpCidr → List IpCidr → List IpCidr
  add_allowed cidr allowed =
      if any (λ c. eq (cidr_string ext c) (cidr_string ext cidr)) allowed
      then allowed
      else allowed ++ cidr ∷ []

module _ (ext : External) (namespace : Text) where
  unfoldable pub parse_agent : List VolumeDefinition → ResourceAgent → Parsing → Result Parsing
  unfolding add_allowed parse_portblock set_service_ip parse_volume
  parse_agent vds agent p =
      if eq agent.type (codes "ocf:heartbeat:portblock")
      then ok (parse_portblock agent p)
      else if eq agent.type (codes "ocf:heartbeat:Filesystem")
      then (do
        vol ←
            wrapping "invalid ocf:heartbeat:Filesystem entry: %w"
              (parse_volume namespace agent vds p.config.name)
        ok (record p { config = record (p.config) { volumes = p.config.volumes ++ vol ∷ [] } }))
      else if eq agent.type (codes "ocf:heartbeat:exportfs")
      then (do
        cidr ← cidr_from_nfs ext (attribute (codes "clientspec") agent.attributes)
        ok (record p {
          config = record (p.config) { allowed_ips = add_allowed ext cidr p.config.allowed_ips };
        }))
      else if eq agent.type (codes "ocf:heartbeat:nfsserver")
      then ok p
      else if eq agent.type (codes "ocf:heartbeat:IPaddr2")
      then set_service_ip (ext.parse_ip (attribute (codes "ip") agent.attributes))
          (atoi (attribute (codes "cidr_netmask") agent.attributes)) p
      else fail "unexpected resource agent: %s"

  unfoldable pub parse_entries : List VolumeDefinition → List StartEntry → Parsing → Result Parsing
  unfolding parse_agent
  parse_entries vds [] p = ok p
  parse_entries vds (systemd_service name ∷ entries) p = parse_entries vds entries p
  parse_entries vds (resource_agent agent ∷ entries) p = do
    p' ← parse_agent vds agent p
    parse_entries vds entries p'

  parse_resources :
      Parsing → List VolumeDefinition → Dict PromoterResourceConfig → Result ResourceConfig
  unfolding parse_entries check_parsed
  parse_resources p vds ((name, rsc_cfg) ∷ []) =
      if length rsc_cfg.start == 0
      then fail "expected at least one resource agent to be configured"
      else do p' ← parse_entries vds rsc_cfg.start p; check_parsed p'
  parse_resources p vds _ = fail "promoter config without exactly 1 resource (has %d)"

  -- What `Sscanf` reads in the identifier, and the definition (nil where `List` could not fetch the
  -- deployment), whose field is read next.
  parse_scanned :
      Option Text
      → Option ResourceDefinition
      → List VolumeDefinition
      → Dict PromoterResourceConfig
      → Result ResourceConfig
  unfolding parse_resources
  parse_scanned none definition vds resources = fail "failed to parse id into resource name: %w"
  parse_scanned (some name) none vds resources = panic
  parse_scanned (some name) (some d) vds resources =
      parse_resources (start_parsing name d) vds resources

  unfoldable pub from_promoter :
      PromoterConfig → Option ResourceDefinition → List VolumeDefinition → Result ResourceConfig
  unfolding parse_scanned
  from_promoter cfg definition vds =
      parse_scanned (scan id_prefix cfg.id) definition vds cfg.resources
