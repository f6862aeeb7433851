-- ===== src/Tests/Nfs.antt =====
-- pkg/nfs at concrete inputs.
use linstor_gateway.Base.{false, ◌≡◌, refl, arith, List, [], ◌∷◌, ◌++◌}
use linstor_gateway.Base.Int.{pos}
use linstor_gateway.Base.Outcome.{ok}
use linstor_gateway.Base.Text.{Text, codes, split, join}
use linstor_gateway.Base.Decimal.{itoa, atoi}
use linstor_gateway.External.{ip4}
use linstor_gateway.Common.Ip.{IpCidr, service_ip_from_parts, prefix}
use linstor_gateway.Nfs.Cidr.{is_bracket, cidr_from_nfs, nfs_format_cidr}
use linstor_gateway.Nfs.Cidr.Laws.{
  IsAddress, IsAllowedIp, as_read, cidr_from_nfs-nfs_format_cidr, nfs_format_cidr-dotted,
}
use linstor_gateway.Tests.Env.{toy, print_ip, read_ip}
use linstor_gateway.Tests.Targets.{address-IsReadable}
use linstor_gateway.Base.{ℕ, some, none}
use linstor_gateway.Base.Outcome.{Result}
use linstor_gateway.Base.Text.{eq, insert, scan}
use linstor_gateway.Reactor.Config.{encode_config, decode_config}
use linstor_gateway.Base.FilePath.{clean, join_path, push_component, components_onto, reverse_onto}
use linstor_gateway.Base.FilePath.Laws.{IsPlain, AllPlain, rooted}
use linstor_gateway.Linstor.{Client, ResourceDefinition, VolumeDefinition}
use linstor_gateway.Reactor.Config.{PromoterConfig}
use linstor_gateway.Reactor.Files.{Listing, filter_configs, find_from, config_path}
use linstor_gateway.Reactor.Store.{list_configs, find_config, ensure_config}
use linstor_gateway.Common.Volume.{root, cluster_private_volume, cluster_private_volume_agent}
use linstor_gateway.Target.Service.{prepared, create_found, start}
use linstor_gateway.Linstorcontrol.Ensure.{Resource, Ensured, ensure_resource}
use linstor_gateway.Nfs.ResourceConfig.{
  ResourceConfig, VolumeConfig, zero_config, export_path_of, fill_path, valid, sort_volumes,
  check_volumes, check_paths, add_paths, check_ip, has_ip, and_then, fill_defaults, rooted_path,
}
use linstor_gateway.Nfs.ResourceConfig.Laws.{IsValid, valid-IsValid}
use linstor_gateway.Nfs.ResourceConfig.Paths.{below, export_path_of-fill_path}
use linstor_gateway.Nfs.Promoter.{
  id_of, to_promoter, agents_of, fs_agents, export_agents, export_agent, exports_of,
}
use linstor_gateway.Nfs.Parsing.{from_promoter, find_volume}
use linstor_gateway.Nfs.Parsing.Agents.{IsExported}
use linstor_gateway.Nfs.Parsing.Laws.{read_config, from_promoter-to_promoter_nfs}
use linstor_gateway.Nfs.Service.{create, exports, other_server}
use linstor_gateway.Nfs.Service.Safety.{IsOnlyServer, create-IsOnlyServer}
use linstor_gateway.Tests.Cluster.{Cluster, linstor, no_target}
use linstor_gateway.Tests.Targets.{deployed, disk}

abbrev address : Text
address = 10 ∷ 0 ∷ 0 ∷ 1 ∷ []

abbrev network : IpCidr
network = service_ip_from_parts (ip4 address) (pos 24)

address-IsAddress : IsAddress toy (ip4 address)
unfolding print_ip join itoa is_bracket
address-IsAddress = record { readable = address-IsReadable; no_bracket = refl }

network-IsAllowedIp : IsAllowedIp toy network
network-IsAllowedIp = record {
  address = ip4 address;
  length = 24;
  made = refl;
  is_address = address-IsAddress;
  in_range = omega arith;
}

cidr_from_nfs-nfs_format_cidr_example :
    (text : Text) × (nfs_format_cidr toy network ≡ ok text)
    × (cidr_from_nfs toy text ≡ ok (as_read network))
unfolding read_ip split atoi
cidr_from_nfs-nfs_format_cidr_example =
    cidr_from_nfs-nfs_format_cidr toy network refl network-IsAllowedIp

nfs_format_cidr-dotted_example :
    (c : IpCidr) × (cidr_from_nfs toy
        (toy.ip_string (ip4 address) ++ (b'/' ∷ codes "255.255.255.0"))
      ≡ ok c)
    × (nfs_format_cidr toy c ≡ ok (toy.ip_string (ip4 address) ++ (b'/' ∷ codes "0.0.0.0")))
unfolding read_ip split atoi
nfs_format_cidr-dotted_example =
    nfs_format_cidr-dotted toy address (255 ∷ 255 ∷ 255 ∷ 0 ∷ []) (codes "255.255.255.0")
      address-IsAddress refl refl

-- An export of one volume.
abbrev volume : VolumeConfig
volume = record {
  config = record {
    number = pos 1;
    size_kib = 1024;
    file_system = codes "ext4";
    file_system_root_owner = root;
  };
  export_path = codes "/data";
}

abbrev private : VolumeConfig
private = record { config = cluster_private_volume; export_path = [] }

abbrev requested : ResourceConfig
requested = record zero_config {
  name = codes "exp1";
  service_ip = service_ip_from_parts (ip4 address) (pos 16);
  allowed_ips = network ∷ [];
  resource_group = codes "rg1";
  volumes = volume ∷ [];
}

abbrev export : ResourceConfig
export = record requested { volumes = private ∷ volume ∷ [] }

data_lem : IsPlain (codes "data")
unfolding eq
data_lem = record { no_slash = refl; full = refl; not_dot = refl; not_dotdot = refl }

name_lem : IsPlain (codes "exp1")
unfolding eq
name_lem = record { no_slash = refl; full = refl; not_dot = refl; not_dotdot = refl }

abbrev volume_definition : ℕ → VolumeDefinition
volume_definition n = record {
  volume_number = some (pos n);
  size_kib = 1024;
  props = [];
  flags = [];
}

abbrev private_definition : VolumeDefinition
private_definition = record { volume_number = none; size_kib = 65536; props = []; flags = [] }

abbrev defined : List VolumeDefinition
defined = private_definition ∷ volume_definition 1 ∷ []

abbrev definition : ResourceDefinition
definition = record { name = codes "exp1"; resource_group_name = codes "rg1"; props = [] }

volume-IsExported : IsExported defined volume (volume_definition 1)
unfolding find_volume join
volume-IsExported = record {
  number = 1;
  made = refl;
  in_range = omega arith;
  defined = refl;
  components = codes "data" ∷ [];
  plain = (data_lem, tt);
  path = refl;
}

from_promoter-to_promoter_nfs_example :
    (cfg : PromoterConfig) × (to_promoter toy export (deployed ∷ []) ≡ ok cfg)
    × (from_promoter toy (codes "FileSystem") cfg (some definition) defined
        ≡ ok (
            read_config toy
              (codes "FileSystem")
              defined
              export
              definition
              private_definition
              (volume ∷ [])
              (volume_definition 1 ∷ [])))
unfolding read_ip split atoi find_volume
from_promoter-to_promoter_nfs_example =
    from_promoter-to_promoter_nfs toy (codes "FileSystem") defined export deployed [] private
      (volume ∷ []) (disk 0) (disk 1) [] definition private_definition (volume_definition 1 ∷ [])
      refl (record { plain = name_lem; no_space = refl })
      (record {
        address = ip4 address;
        length = 16;
        made = refl;
        readable = address-IsReadable;
        in_range = omega arith;
      })
      (network-IsAllowedIp, tt) (refl, tt) refl refl refl (refl, volume-IsExported, tt)

-- The export with another list of allowed addresses does not match.
abbrev open_export : ResourceConfig
open_export = record export { allowed_ips = [] }

abbrev escaping : VolumeConfig
escaping = record volume { export_path = codes "/../../etc" }

export_path_of-fill_path_example :
    (ws : List Text) × AllPlain ws
    × (export_path_of (codes "exp1") (fill_path escaping) ≡ rooted (below (codes "exp1") ws))
export_path_of-fill_path_example = export_path_of-fill_path (codes "exp1") escaping name_lem refl

valid-IsValid_example : IsValid (private ∷ volume ∷ []) (valid export).1
unfolding valid sort_volumes check_volumes check_paths add_paths insert check_ip has_ip and_then
    service_ip_from_parts eq
valid-IsValid_example = valid-IsValid export refl

abbrev created_or_zero : Result ResourceConfig → ResourceConfig
created_or_zero (ok r) = r
created_or_zero _ = zero_config

-- A cluster that deploys a resource with two volumes.
abbrev deploying : Client Cluster
deploying = record linstor {
  get_resource_definition = λ name w. (ok definition, w);
  get_resource_view = λ name w. (ok (deployed ∷ []), w);
}

unfoldable created : ResourceConfig
created = created_or_zero (create toy deploying requested no_target).0

create-IsOnlyServer_example :
    (r : ResourceConfig) × (listed : Listing) × (w1 : Cluster) × (r
      ≡ (valid (prepared (exports toy deploying) toy deploying requested)).1)
    × IsValid (prepared (exports toy deploying) toy deploying requested).volumes r
    × (list_configs deploying toy no_target ≡ (ok listed, w1))
    × IsOnlyServer (id_of r.name) listed.0
unfolding create created valid fill_defaults service_ip_from_parts check_volumes sort_volumes
    check_paths insert eq rooted_path clean join_path join list_configs filter_configs find_config
    find_from create_found ensure_resource has_ip check_ip and_then add_paths fill_path
    push_component components_onto reverse_onto split start to_promoter agents_of fs_agents
    export_agents export_agent exports_of nfs_format_cidr ensure_config prefix other_server
    encode_config cluster_private_volume_agent scan config_path decode_config
create-IsOnlyServer_example =
    create-IsOnlyServer toy deploying requested created no_target
      (create toy deploying requested no_target).1 refl

abbrev resource : Resource
resource = record {
  name = codes "exp1";
  volumes = cluster_private_volume ∷ volume.config ∷ [];
  resource_group = codes "rg1";
  file_system = [];
  gross_size = false;
}

abbrev ensured : Ensured
ensured = record {
  definition = definition;
  group = record { name = codes "rg1"; place_count = pos 2 };
  resources = deployed ∷ [];
}
