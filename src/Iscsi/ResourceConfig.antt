-- ===== src/Iscsi/ResourceConfig.antt =====
-- pkg/iscsi/resource_config.go: the configuration of a target, its defaults, its validation and its
-- comparison with a deployed one.
pub mod Laws
pub mod Matching
use linstor_gateway.Base.{Bool, true, false, ◌&&◌, Option, List, [], ◌∷◌, ltb, ◌==◌, if◌then◌else◌}
use linstor_gateway.Base.Int.{ℤ}
use linstor_gateway.Base.Lists.{length}
use linstor_gateway.Base.Outcome.{Result, ok, err, panic, validation, ◌>>=◌}
use linstor_gateway.Base.Text.{Text, codes, eq, is_empty}
use linstor_gateway.External.{External}
use linstor_gateway.Common.Ip.{IpCidr, cidr_string}
use linstor_gateway.Common.Status.{ResourceStatus, zero_status}
use linstor_gateway.Common.Volume.{VolumeConfig, Volume}
use linstor_gateway.Common.Volumes.{sort_volumes, check_volumes, same_volumes}
use linstor_gateway.Common.Volumes
use linstor_gateway.Iscsi.Iqn.{Iqn}

pub record ResourceConfig : Type 0 where
  pub iqn : Iqn
  pub allowed_initiators : List Iqn
  pub resource_group : Text
  pub volumes : List VolumeConfig
  pub username : Text
  pub password : Text
  pub service_ips : List IpCidr
  pub status : ResourceStatus
  pub gross_size : Bool

-- `&ResourceConfig{}`
abbrev pub zero_config : ResourceConfig
zero_config = record {
  iqn = record { authority = []; wwn = [] };
  allowed_initiators = [];
  resource_group = [];
  volumes = [];
  username = [];
  password = [];
  service_ips = [];
  status = zero_status;
  gross_size = false;
}

unfoldable pub volume_config : ResourceConfig → ℤ → Option Volume
volume_config r number = Volumes.volume_config r.volumes r.status.volumes number

unfoldable pub fill_defaults : ResourceConfig → ResourceConfig
fill_defaults r =
    if is_empty r.resource_group then record r { resource_group = codes "DfltRscGrp" } else r

-- `Valid` sorts the volumes of its receiver before it looks at them.
unfoldable pub valid : ResourceConfig → Result (Unit {0}) × ResourceConfig
valid r =
    if ltb (length r.iqn.wwn) 2
    then (err (validation "iscsi wwn string to short (min. 2)"), r)
    else if length r.service_ips == 0
    then (err (validation "missing service ips"), r)
    else (check_volumes (sort_volumes r.volumes), record r { volumes = sort_volumes r.volumes })

-- `r.IQN == o.IQN`
unfoldable pub same_iqn : Iqn → Iqn → Bool
same_iqn i j = eq i.authority j.authority && eq i.wwn j.wwn

module _ (ext : External) where
  -- The loop over `r.ServiceIPs` reads `o.ServiceIPs` at the same index, and panics past its end.
  unfoldable pub same_ips : List IpCidr → List IpCidr → Result Bool
  same_ips [] qs = ok true
  same_ips (p ∷ ps) [] = panic
  same_ips (p ∷ ps) (q ∷ qs) =
      let rest = same_ips ps qs in
      if eq (cidr_string ext p) (cidr_string ext q) then rest else ok false

  unfoldable pub matches : ResourceConfig → ResourceConfig → Result Bool
  unfolding same_ips same_iqn
  matches r o =
      if same_iqn r.iqn o.iqn
      then (do
        ips ← same_ips r.service_ips o.service_ips
        ok (
            ips
            && (eq r.resource_group o.resource_group
                && (same_volumes r.volumes o.volumes
                    && (eq r.username o.username && eq r.password o.password)))))
      else ok false
