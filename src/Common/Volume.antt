-- ===== src/Common/Volume.antt =====
-- pkg/common/resource.go and resource_config.go: volume configurations, the device path of a
-- deployed volume, and the cluster private volume with its agent.
pub mod Laws
use linstor_gateway.Base.{
  ℕ, ◌+◌, ◌*◌, Bool, true, false, Option, none, some, List, [], ◌∷◌, ◌++◌, if◌then◌else◌, ◌≡◌,
}
use linstor_gateway.Base.Int.{ℤ, pos}
use linstor_gateway.Base.Text.{Text, Dict, codes, has_prefix, contains}
use linstor_gateway.Base.FilePath.{join_path}
use linstor_gateway.Base.Decimal.{itoa}
use linstor_gateway.Linstor
use linstor_gateway.Common.Status.{VolumeState}
use linstor_gateway.Reactor.Agent.{ResourceAgent}

pub record UidGid : Type 0 where
  pub uid : ℤ
  pub gid : ℤ

unfoldable pub uid_gid_string : UidGid → Text
unfolding itoa
uid_gid_string u = itoa u.uid ++ (b':' ∷ itoa u.gid)

pub record VolumeConfig : Type 0 where
  pub number : ℤ
  pub size_kib : ℕ
  pub file_system : Text
  pub file_system_root_owner : UidGid

-- `common.Volume`: a configured volume with its state
pub record Volume : Type 0 where
  pub volume : VolumeConfig
  pub status : VolumeState

abbrev pub is_symlink_key : Text → Bool
is_symlink_key k = has_prefix k (codes "Satellite/Device/Symlinks/")

abbrev pub is_by_res : Text → Bool
is_by_res v = contains v (codes "/by-res/")

-- The loop of `DevicePath` over the properties, in the order in which the map yields them.
unfoldable pub device_path_from : Text → Dict Text → Text
device_path_from dev_path [] = dev_path
device_path_from dev_path ((k, v) ∷ props) =
    let chosen = if is_symlink_key k then v else dev_path in
    let rest = device_path_from chosen props in if is_by_res v then chosen else rest

unfoldable pub device_path : Linstor.Volume → Text
unfolding device_path_from
device_path vol = device_path_from vol.device_path vol.props

abbrev pub root : UidGid
root = record { uid = pos 0; gid = pos 0 }

abbrev pub cluster_private_volume : VolumeConfig
cluster_private_volume = record {
  number = pos 0;
  size_kib = 64 * 1024;
  file_system = codes "ext4";
  file_system_root_owner = root;
}

abbrev pub cluster_private_volume_mount_path : Text
cluster_private_volume_mount_path = codes "/srv/ha/internal"

abbrev pub cluster_private_volume_agent_name : Text
cluster_private_volume_agent_name = codes "fs_cluster_private"

unfoldable pub cluster_private_volume_agent : VolumeConfig → Linstor.Volume → Text → ResourceAgent
cluster_private_volume_agent vol deployed_vol resource = record {
  type = codes "ocf:heartbeat:Filesystem";
  name = cluster_private_volume_agent_name;
  attributes =
      (codes "device", device_path deployed_vol)
      ∷ (codes "directory", join_path (cluster_private_volume_mount_path ∷ resource ∷ []))
      ∷ (codes "fstype", vol.file_system)
      ∷ (codes "run_fsck", codes "no")
      ∷ [];
}
