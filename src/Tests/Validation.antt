-- ===== src/Tests/Validation.antt =====
-- The validation of a target with one volume.
use linstor_gateway.Base.{refl, [], ◌∷◌}
use linstor_gateway.Common.Volume.{cluster_private_volume}
use linstor_gateway.Common.Volumes.{sort_volumes, check_volumes}
use linstor_gateway.Iscsi.ResourceConfig.{ResourceConfig, valid}
use linstor_gateway.Iscsi.ResourceConfig.Laws.{IsReady, valid-IsReady}
use linstor_gateway.Tests.Targets.{target, volume}

abbrev asked : ResourceConfig
asked = record target { volumes = volume ∷ [] }

valid-IsReady_example :
    IsReady
      (volume ∷ [])
      (valid (record asked { volumes = cluster_private_volume ∷ volume ∷ [] })).1
unfolding valid check_volumes sort_volumes
valid-IsReady_example = valid-IsReady asked refl
