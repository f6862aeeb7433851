-- ===== src/Tests/Nvme.antt =====
-- NVMe-oF targets: a target with one namespace.
use linstor_gateway.Base.{◌≡◌, refl, true, some, [], ◌∷◌, arith}
use linstor_gateway.Base.Int.{pos}
use linstor_gateway.Base.Outcome.{ok}
use linstor_gateway.Base.Text.{codes}
use linstor_gateway.External.{ip4}
use linstor_gateway.Reactor.Config.{PromoterConfig}
use linstor_gateway.Common.Ip.{service_ip_from_parts}
use linstor_gateway.Common.Volume.{cluster_private_volume}
use linstor_gateway.Nvmeof.Nqn.{Nqn}
use linstor_gateway.Nvmeof.ResourceConfig.{ResourceConfig, zero_config}
use linstor_gateway.Nvmeof.Promoter.{to_promoter, from_promoter}
use linstor_gateway.Nvmeof.Promoter.Laws.{IsNqn, from_promoter-to_promoter_nvmeof, read_config}
use linstor_gateway.Tests.Env.{toy}
use linstor_gateway.Tests.Targets.{address-IsReadable, volume, disk, deployed, definition, defined}

abbrev nqn : Nqn
nqn = record { vendor = codes "linbit"; subsystem = codes "target1" }

nqn-IsNqn : IsNqn nqn
nqn-IsNqn = record { vendor = refl; subsystem = refl; starts = refl }

abbrev target : ResourceConfig
target = record zero_config {
  nqn = nqn;
  service_ip = service_ip_from_parts (ip4 (10 ∷ 0 ∷ 0 ∷ 1 ∷ [])) (pos 16);
  volumes = cluster_private_volume ∷ volume ∷ [];
  gross_size = true;
}

from_promoter-to_promoter_nvmeof_example :
    (cfg : PromoterConfig) × (to_promoter toy target (deployed ∷ []) ≡ ok cfg)
    × (from_promoter toy cfg (some definition) defined
        ≡ ok (read_config toy target definition defined))
from_promoter-to_promoter_nvmeof_example =
    from_promoter-to_promoter_nvmeof toy target deployed [] cluster_private_volume (volume ∷ [])
      (disk 0) (disk 1 ∷ []) definition defined nqn-IsNqn
      (record {
        address = ip4 (10 ∷ 0 ∷ 0 ∷ 1 ∷ []);
        length = 16;
        made = refl;
        readable = address-IsReadable;
        in_range = omega arith;
      })
      refl refl (refl, tt)
