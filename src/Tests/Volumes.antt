-- ===== src/Tests/Volumes.antt =====
-- Volumes: device paths, and the check of the volumes of a target.
use linstor_gateway.Base.{ℕ, ◌≡◌, refl, true, List, [], ◌∷◌}
use linstor_gateway.Base.Int.{pos}
use linstor_gateway.Base.Outcome.{ok}
use linstor_gateway.Base.Text.{codes, has_prefix, contains}
use linstor_gateway.Linstor
use linstor_gateway.Common.Volume.{VolumeConfig, root, cluster_private_volume}
use linstor_gateway.Common.Volume.Laws.{OnlySymlinks, has_by_res}
use linstor_gateway.Common.Volumes.{sort_volumes, check_volumes}
use linstor_gateway.Common.Volumes.Laws.{RisesFrom, check_volumes-private}

abbrev deployed : Linstor.Volume
deployed = record {
  volume_number = pos 1;
  uuid = [];
  device_path = codes "/dev/drbd1000";
  props =
      (codes "Satellite/Device/Symlinks/0", codes "/dev/drbd/by-disk/x")
      ∷ (codes "Satellite/Device/Symlinks/1", codes "/dev/drbd/by-res/x/0")
      ∷ [];
  disk_state = codes "UpToDate";
}

only_symlinks : OnlySymlinks deployed.props
unfolding has_prefix contains
only_symlinks = (λ h. refl, (λ h. refl, tt))

some_by_res : has_by_res deployed.props ≡ true
unfolding contains
some_by_res = refl

abbrev volume : ℕ → VolumeConfig
volume n = record {
  number = pos n;
  size_kib = 1024;
  file_system = [];
  file_system_root_owner = root;
}

abbrev two : List VolumeConfig
two = volume 2 ∷ volume 1 ∷ []

two_accepted : check_volumes (sort_volumes (cluster_private_volume ∷ two)) ≡ ok tt
unfolding check_volumes sort_volumes
two_accepted = refl

check_volumes-private_example :
    (sort_volumes (cluster_private_volume ∷ two) ≡ cluster_private_volume ∷ sort_volumes two)
    × RisesFrom (pos 0) (sort_volumes two)
check_volumes-private_example = check_volumes-private two two_accepted
