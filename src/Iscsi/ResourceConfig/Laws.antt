-- ===== src/Iscsi/ResourceConfig/Laws.antt =====
-- What a configuration is like that `Valid` accepts.
use linstor_gateway.Base.{◌≡◌, ◌≤◌, ◌<◌, false, List, ◌∷◌, arith, ltb, ◌==◌}
use linstor_gateway.Base.Int.{pos}
use linstor_gateway.Base.Lists.{length}
use linstor_gateway.Base.Outcome.{ok}
use linstor_gateway.Common.Volume.{VolumeConfig, cluster_private_volume}
use linstor_gateway.Common.Volumes.{sort_volumes, check_volumes}
use linstor_gateway.Common.Volumes.Laws.{RisesFrom, check_volumes-private}
use linstor_gateway.Iscsi.ResourceConfig.{ResourceConfig, valid}

-- A configuration as `Create` hands it on: a name of two bytes or more, a service IP, and the volumes
-- in their order after the cluster private one, with numbers from 1 on and positive sizes.
pub record IsReady (volumes : List VolumeConfig) (r : ResourceConfig) : Type 0 where
  pub name : 2 ≤ length r.iqn.wwn
  pub ips : 0 < length r.service_ips
  pub first : r.volumes ≡ cluster_private_volume ∷ sort_volumes volumes
  pub rises : RisesFrom (pos 0) (sort_volumes volumes)

-- If `Valid` accepts a target with the cluster private volume put in front, then the name of its
-- resource has two bytes or more, it has a service IP, and its volumes are left as the cluster
-- private one and the others in order, with numbers from 1 on.
pub valid-IsReady :
    (r : ResourceConfig)
    → (valid (record r { volumes = cluster_private_volume ∷ r.volumes })).0 ≡ ok tt
    → IsReady r.volumes (valid (record r { volumes = cluster_private_volume ∷ r.volumes })).1
unfolding valid
valid-IsReady r h =
    let long : ltb (length r.iqn.wwn) 2 ≡ false = ground arith in
    let some_ip : (length r.service_ips == 0) ≡ false = ground arith in
    let checked : check_volumes (sort_volumes (cluster_private_volume ∷ r.volumes)) ≡ ok tt =
      ground arith in
    let in_order = check_volumes-private r.volumes checked in
    rw (long, some_ip)
      (record { name = ground arith; ips = ground arith; first = in_order.0; rises = in_order.1 })
