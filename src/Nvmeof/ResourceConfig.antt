-- ===== src/Nvmeof/ResourceConfig.antt =====
-- pkg/nvmeof/resource_config.go: the configuration of a target, its defaults, its validation and its
-- comparison with a deployed one.
use linstor_gateway.Base.{Bool, true, false, ◌&&◌, Option, none, some, List, [], ltb, if◌then◌else◌}
use linstor_gateway.Base.Int.{ℤ}
use linstor_gateway.Base.Lists.{length}
use linstor_gateway.Base.Outcome.{Result, err, validation}
use linstor_gateway.Base.Text.{Text, codes, eq, is_empty}
use linstor_gateway.External.{External, Ip}
use linstor_gateway.Common.Ip.{IpCidr, cidr_string}
use linstor_gateway.Common.Status.{ResourceStatus, zero_status}
use linstor_gateway.Common.Volume.{VolumeConfig, Volume}
use linstor_gateway.Common.Volumes.{sort_volumes, check_volumes, same_volumes}
use linstor_gateway.Common.Volumes
use linstor_gateway.Nvmeof.Nqn.{Nqn}

pub record ResourceConfig : Type 0 where
  pub nqn : Nqn
  pub service_ip : IpCidr
  pub resource_group : Text
  pub volumes : List VolumeConfig
  pub status : ResourceStatus
  pub gross_size : Bool

-- `&ResourceConfig{}`
abbrev pub zero_config : ResourceConfig
zero_config = record {
  nqn = record { vendor = []; subsystem = [] };
  service_ip = record { ip = none; mask = none };
  resource_group = [];
  volumes = [];
  status = zero_status;
  gross_size = false;
}

unfoldable pub volume_config : ResourceConfig → ℤ → Option Volume
volume_config r number = Volumes.volume_config r.volumes r.status.volumes number

unfoldable pub fill_defaults : ResourceConfig → ResourceConfig
fill_defaults r =
    if is_empty r.resource_group then record r { resource_group = codes "DfltRscGrp" } else r

-- The tests of `Valid` on the service IP, and what follows them.
check_ip : Option Ip → Option Text → Result (Unit {0}) → Result (Unit {0})
check_ip none mask rest = err (validation "missing service ip")
check_ip (some ip) none rest = err (validation "missing service ip prefix length")
check_ip (some ip) (some mask) rest = rest

-- Whether `Valid` comes as far as the sorting.
has_ip : Option Ip → Option Text → Bool
has_ip (some ip) (some mask) = true
has_ip _ _ = false

-- `Valid` sorts the volumes of its receiver before it looks at them.
unfoldable pub valid : ResourceConfig → Result (Unit {0}) × ResourceConfig
unfolding check_ip has_ip
valid r =
    if ltb (length r.nqn.subsystem) 2
    then (err (validation "nvme subsystem string to short (min. 2)"), r)
    else (
      check_ip r.service_ip.ip r.service_ip.mask (check_volumes (sort_volumes r.volumes)),
      (if has_ip r.service_ip.ip r.service_ip.mask
          then record r { volumes = sort_volumes r.volumes }
          else r),
    )

-- `r.NQN == o.NQN`
same_nqn : Nqn → Nqn → Bool
same_nqn m n = eq m.vendor n.vendor && eq m.subsystem n.subsystem

unfoldable pub matches : External → ResourceConfig → ResourceConfig → Bool
unfolding same_nqn
matches ext r o =
    same_nqn r.nqn o.nqn
    && (eq (cidr_string ext r.service_ip) (cidr_string ext o.service_ip)
        && (eq r.resource_group o.resource_group && same_volumes r.volumes o.volumes))
