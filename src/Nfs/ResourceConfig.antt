-- ===== src/Nfs/ResourceConfig.antt =====
-- pkg/nfs/resource_config.go: the configuration of an export, its defaults, its validation and its
-- comparison with a deployed one.
pub mod Paths
pub mod Laws
use linstor_gateway.Base.{
  ℕ, Bool, true, false, ◌&&◌, Option, none, some, List, [], ◌∷◌, ◌++◌, map, ltb, ◌==◌,
  if◌then◌else◌,
}
use linstor_gateway.Base.Int.{ℤ, pos, ltb_ℤ, eqb_ℤ}
use linstor_gateway.Base.Lists.{length}
use linstor_gateway.Base.Outcome.{Result, ok, err, validation}
use linstor_gateway.Base.Text.{Text, Dict, codes, eq, insert, is_empty}
use linstor_gateway.Base.FilePath.{clean, join_path}
use linstor_gateway.External.{External, Ip, ip4, ip6}
use linstor_gateway.Common.Ip.{IpCidr, cidr_string}
use linstor_gateway.Common.Status.{ResourceStatus, zero_status}
use linstor_gateway.Common.Volume.{Volume}
use linstor_gateway.Common.Volume
use linstor_gateway.Common.Volumes

pub record VolumeConfig : Type 0 where
  pub config : Volume.VolumeConfig
  pub export_path : Text

pub record ResourceConfig : Type 0 where
  pub name : Text
  pub service_ip : IpCidr
  pub allowed_ips : List IpCidr
  pub resource_group : Text
  pub volumes : List VolumeConfig
  pub status : ResourceStatus
  pub gross_size : Bool

-- `&ResourceConfig{}`
abbrev pub zero_config : ResourceConfig
zero_config = record {
  name = [];
  service_ip = record { ip = none; mask = none };
  allowed_ips = [];
  resource_group = [];
  volumes = [];
  status = zero_status;
  gross_size = false;
}

abbrev pub export_base_path : Text
export_base_path = codes "/srv/gateway-exports"

unfoldable pub rooted_path : Text → Text
rooted_path path = clean (join_path (codes "/" ∷ path ∷ []))

-- `ExportPath`
unfoldable pub export_path_of : Text → VolumeConfig → Text
export_path_of name vol = join_path (export_base_path ∷ name ∷ vol.export_path ∷ [])

abbrev pub config_of : VolumeConfig → Volume.VolumeConfig
config_of v = v.config

unfoldable pub volume_config : ResourceConfig → ℤ → Option Volume
volume_config r number = Volumes.volume_config (map config_of r.volumes) r.status.volumes number

abbrev zeros : Text
zeros = 0 ∷ 0 ∷ 0 ∷ 0 ∷ []

-- `AllowAllCidr`
abbrev pub allow_all_cidr : List IpCidr
allow_all_cidr =
    record {
      ip = some (ip6 (zeros ++ (zeros ++ (zeros ++ zeros))));
      mask = some (zeros ++ (zeros ++ (zeros ++ zeros)));
    }
    ∷ record { ip = some (ip4 zeros); mask = some zeros }
    ∷ []

-- The loop of `FillDefaults` over the volumes.
unfoldable pub fill_path : VolumeConfig → VolumeConfig
fill_path v =
    if eqb_ℤ v.config.number (pos 0)
    then v
    else record v { export_path = rooted_path v.export_path }

abbrev or_allow_all : List IpCidr → List IpCidr
or_allow_all [] = allow_all_cidr
or_allow_all (c ∷ cs) = c ∷ cs

unfoldable pub fill_defaults : ResourceConfig → ResourceConfig
unfolding fill_path
fill_defaults r = record r {
  resource_group = if is_empty r.resource_group then codes "DfltRscGrp" else r.resource_group;
  volumes = map fill_path r.volumes;
  allowed_ips = or_allow_all r.allowed_ips;
}

-- `sort.Slice(r.Volumes, ... Number < ... Number)`, as an insertion sort
unfoldable pub insert_volume : VolumeConfig → List VolumeConfig → List VolumeConfig
insert_volume v [] = v ∷ []
insert_volume v (w ∷ ws) =
    if ltb_ℤ w.config.number v.config.number then w ∷ insert_volume v ws else v ∷ w ∷ ws

unfoldable pub sort_volumes : List VolumeConfig → List VolumeConfig
unfolding insert_volume
sort_volumes [] = []
sort_volumes (v ∷ vs) = insert_volume v (sort_volumes vs)

-- `i > 0 && r.Volumes[i-1].Number == r.Volumes[i].Number`; there is no previous number where `i` is 0.
abbrev pub is_same : Option ℤ → ℤ → Bool
is_same none number = false
is_same (some previous) number = eqb_ℤ previous number

-- The loop of `Valid` over the volumes, from the one on that comes after the previous number.
unfoldable pub check_volumes : Option ℤ → List VolumeConfig → Result (Unit {0})
check_volumes previous [] = ok tt
check_volumes previous (v ∷ vs) =
    let rest = check_volumes (some v.config.number) vs in
    if ltb_ℤ v.config.number (pos 0)
    then err (validation "volume numbers must start at 1")
    else if v.config.size_kib == 0
    then err (validation "volume size must be positive")
    else if is_same previous v.config.number
    then err (validation "volume numbers must be unique")
    else rest

-- The set of the export paths, which the same loop fills.
unfoldable pub add_paths : Dict (Unit {0}) → List VolumeConfig → Dict (Unit {0})
add_paths paths [] = paths
add_paths paths (v ∷ vs) = add_paths (insert v.export_path tt paths) vs

unfoldable pub check_paths : List VolumeConfig → Result (Unit {0})
unfolding add_paths
check_paths vs =
    if length (add_paths [] vs) == length vs
    then ok tt
    else err (validation "nfs export paths must be unique")

unfoldable pub and_then : Result (Unit {0}) → Result (Unit {0}) → Result (Unit {0})
and_then (ok u) rest = rest
and_then r rest = r

-- The tests of `Valid` on the service IP, and what follows them.
unfoldable pub check_ip : Option Ip → Option Text → Result (Unit {0}) → Result (Unit {0})
check_ip none mask rest = err (validation "missing service ip")
check_ip (some ip) none rest = err (validation "missing service ip prefix length")
check_ip (some ip) (some mask) rest = rest

-- Whether `Valid` comes as far as the sorting.
unfoldable pub has_ip : Option Ip → Option Text → Bool
has_ip (some ip) (some mask) = true
has_ip _ _ = false

-- `Valid` sorts the volumes of its receiver before it looks at them.
unfoldable pub valid : ResourceConfig → Result (Unit {0}) × ResourceConfig
unfolding check_ip has_ip and_then
valid r =
    if ltb (length r.name) 2 then (err (validation "nfs resource name to short (min. 2)"), r) else (
      check_ip r.service_ip.ip r.service_ip.mask (
          and_then (check_volumes none (sort_volumes r.volumes))
            (check_paths (sort_volumes r.volumes))),
      (if has_ip r.service_ip.ip r.service_ip.mask
          then record r { volumes = sort_volumes r.volumes }
          else r),
    )

-- The loops of `Matches`; both lists are as long as each other there.
unfoldable pub same_volumes : List VolumeConfig → List VolumeConfig → Bool
same_volumes [] [] = true
same_volumes (v ∷ vs) (w ∷ ws) =
    eqb_ℤ v.config.number w.config.number
    && ((v.config.size_kib == w.config.size_kib)
        && (eq v.export_path w.export_path && same_volumes vs ws))
same_volumes _ _ = false

module _ (ext : External) where
  unfoldable pub same_ips : List IpCidr → List IpCidr → Bool
  same_ips [] [] = true
  same_ips (c ∷ cs) (d ∷ ds) = eq (cidr_string ext c) (cidr_string ext d) && same_ips cs ds
  same_ips _ _ = false

  unfoldable pub matches : ResourceConfig → ResourceConfig → Bool
  unfolding same_ips same_volumes
  matches r o =
      eq r.name o.name
      && (eq (cidr_string ext r.service_ip) (cidr_string ext o.service_ip)
          && (eq r.resource_group o.resource_group
              && (same_ips r.allowed_ips o.allowed_ips && same_volumes r.volumes o.volumes)))
