-- ===== src/Tests/Status.antt =====
-- The status of a resource with two volumes on one node.
use linstor_gateway.Base.{◌≡◌, map, [], ◌∷◌}
use linstor_gateway.Base.Int.{pos}
use linstor_gateway.Base.Text.{Text, codes}
use linstor_gateway.Linstor.{Volume, ResourceGroup}
use linstor_gateway.Linstorcontrol.Status.{status_from_resources}
use linstor_gateway.Linstorcontrol.Status.Laws.{IsWorst, status_from_resources-IsWorst}
use linstor_gateway.Linstorcontrol.Status.LastVolume.{reassigned, status_from_resources-reassign}
use linstor_gateway.Tests.Targets.{deployed, definition}

abbrev group : ResourceGroup
group = record { name = codes "rg1"; place_count = pos 2 }

abbrev failed : Volume → Text
failed v = codes "Failed"

status_from_resources-IsWorst_example :
    IsWorst (status_from_resources (codes "/a") definition group (deployed ∷ []))
status_from_resources-IsWorst_example =
    status_from_resources-IsWorst (codes "/a") definition group (deployed ∷ [])

status_from_resources-reassign_example :
    status_from_resources (codes "/a") definition group (map (reassigned failed) (deployed ∷ []))
    ≡ status_from_resources (codes "/a") definition group (deployed ∷ [])
status_from_resources-reassign_example =
    status_from_resources-reassign failed (codes "/a") definition group (deployed ∷ [])
