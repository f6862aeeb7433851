-- ===== src/Tests/Targets.antt =====
-- iSCSI targets: pkg/iscsi/resource_config_test.go.
use linstor_gateway.Base.{ℕ, ◌≡◌, refl, true, none, some, List, [], ◌∷◌, arith}
use linstor_gateway.Base.Int.{pos}
use linstor_gateway.Base.Outcome.{ok}
use linstor_gateway.Base.Text.{codes, split, join}
use linstor_gateway.Base.Decimal.{itoa, atoi}
use linstor_gateway.External.{ip4}
use linstor_gateway.Linstor
use linstor_gateway.Linstor.{ResourceWithVolumes, ResourceDefinition, VolumeDefinition}
use linstor_gateway.Reactor.Config.{PromoterConfig}
use linstor_gateway.Common.Ip.{service_ip_from_parts}
use linstor_gateway.Common.Ip.Laws.{IsReadable}
use linstor_gateway.Common.Volume.{VolumeConfig, root, cluster_private_volume}
use linstor_gateway.Iscsi.Iqn.{Iqn, is_authority, is_resource_name}
use linstor_gateway.Iscsi.Iqn.Laws.{IsIqn}
use linstor_gateway.Iscsi.ResourceConfig.{ResourceConfig, zero_config}
use linstor_gateway.Iscsi.Promoter.{to_promoter, from_promoter}
use linstor_gateway.Iscsi.Promoter.Laws.{from_promoter-to_promoter, read_config}
use linstor_gateway.Tests.Env.{toy, read_ip, print_ip}

abbrev iqn : Iqn
iqn = record { authority = codes "iqn.2021-08.com.linbit"; wwn = codes "target1" }

abbrev initiator : Iqn
initiator = record { authority = codes "iqn.2021-08.com.example"; wwn = codes "host" }

iqn-IsIqn : IsIqn iqn
unfolding is_authority is_resource_name
iqn-IsIqn = record { authority = refl; name = refl }

initiator-IsIqn : IsIqn initiator
unfolding is_authority is_resource_name
initiator-IsIqn = record { authority = refl; name = refl }

pub address-IsReadable : IsReadable toy (ip4 (10 ∷ 0 ∷ 0 ∷ 1 ∷ []))
unfolding read_ip print_ip split join itoa atoi
address-IsReadable = record { read_back = refl; no_slash = refl }

abbrev pub volume : VolumeConfig
volume = record { number = pos 1; size_kib = 1024; file_system = []; file_system_root_owner = root }

abbrev pub target : ResourceConfig
target = record zero_config {
  iqn = iqn;
  allowed_initiators = initiator ∷ [];
  username = codes "user";
  password = codes "secret";
  resource_group = codes "rg1";
  service_ips = service_ip_from_parts (ip4 (10 ∷ 0 ∷ 0 ∷ 1 ∷ [])) (pos 16) ∷ [];
  volumes = cluster_private_volume ∷ volume ∷ [];
}

abbrev pub disk : ℕ → Linstor.Volume
disk n = record {
  volume_number = pos n;
  uuid = [];
  device_path = codes "/dev/drbd1000";
  props = [];
  disk_state = codes "UpToDate";
}

abbrev pub deployed : ResourceWithVolumes
deployed = record {
  name = codes "target1";
  node_name = codes "alpha";
  uuid = [];
  in_use = some true;
  volumes = disk 0 ∷ disk 1 ∷ [];
}

abbrev pub definition : ResourceDefinition
definition = record { name = codes "target1"; resource_group_name = codes "rg1"; props = [] }

abbrev pub defined : List VolumeDefinition
defined =
    record { volume_number = none; size_kib = 65536; props = []; flags = [] }
    ∷ record {
      volume_number = some (pos 1);
      size_kib = 1024;
      props = [];
      flags = codes "GROSS_SIZE" ∷ [];
    }
    ∷ []

from_promoter-to_promoter_example :
    (cfg : PromoterConfig) × (to_promoter toy target (deployed ∷ []) ≡ ok cfg)
    × (from_promoter toy cfg (some definition) defined
        ≡ ok (read_config toy target definition defined))
from_promoter-to_promoter_example =
    from_promoter-to_promoter toy target deployed [] cluster_private_volume (volume ∷ []) (disk 0)
      (disk 1 ∷ []) definition defined iqn-IsIqn (initiator-IsIqn, tt)
      (
        record {
          address = ip4 (10 ∷ 0 ∷ 0 ∷ 1 ∷ []);
          length = 16;
          made = refl;
          readable = address-IsReadable;
          in_range = omega arith;
        },
        tt,
      )
      (omega arith) refl refl (refl, tt)
