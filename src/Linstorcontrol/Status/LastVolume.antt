-- ===== src/Linstorcontrol/Status/LastVolume.antt =====
-- What the pointers to the loop variable do to the status: of the disk states on a node, only that
-- of the last volume is looked at.
use linstor_gateway.Base.{◌≡◌, refl, ap, ◌∙◌, List, [], ◌∷◌, map}
use linstor_gateway.Base.Text.{Text}
use linstor_gateway.Linstor.{Volume, ResourceWithVolumes, ResourceDefinition, ResourceGroup}
use linstor_gateway.Linstorcontrol.Status.{
  ByNumber, add_volumes, add_node, loop_variable, volume_by_number, primary_node, node_name_of,
  status_from_resources,
}

module _ (state_of : Volume → Text) where
  -- Other disk states for all volumes of a node but the last.
  unfoldable pub reassign : List Volume → List Volume
  reassign [] = []
  reassign (v ∷ []) = v ∷ []
  reassign (v ∷ w ∷ vs) = record v { disk_state = state_of v } ∷ reassign (w ∷ vs)

  abbrev pub reassigned : ResourceWithVolumes → ResourceWithVolumes
  reassigned r = record r { volumes = reassign r.volumes }

  loop_variable-reassign :
      (u w : Volume) (vs : List Volume) → loop_variable u (reassign (w ∷ vs)) ≡ loop_variable w vs
  unfolding loop_variable reassign
  loop_variable-reassign u w [] = refl
  loop_variable-reassign u w (x ∷ vs) =
      loop_variable-reassign (record w { disk_state = state_of w }) x vs

  add_volumes-reassign :
      (last : Volume) (vs : List Volume) (m : ByNumber)
      → add_volumes last (reassign vs) m ≡ add_volumes last vs m
  unfolding add_volumes reassign
  add_volumes-reassign last [] m = refl
  add_volumes-reassign last (v ∷ []) m = refl
  add_volumes-reassign last (v ∷ w ∷ vs) m = add_volumes-reassign last (w ∷ vs) _

  add_node-reassign : (vs : List Volume) (m : ByNumber) → add_node (reassign vs) m ≡ add_node vs m
  unfolding add_node reassign loop_variable
  add_node-reassign [] m = refl
  add_node-reassign (v ∷ []) m = refl
  add_node-reassign (v ∷ w ∷ vs) m =
      ap (λ (last : Volume). add_volumes last (reassign (v ∷ w ∷ vs)) m)
        (loop_variable-reassign (record v { disk_state = state_of v }) w vs)
      ∙ add_volumes-reassign (loop_variable w vs) (v ∷ w ∷ vs) m

  volume_by_number-reassign :
      (rs : List ResourceWithVolumes) (m : ByNumber)
      → volume_by_number (map reassigned rs) m ≡ volume_by_number rs m
  unfolding volume_by_number
  volume_by_number-reassign [] m = refl
  volume_by_number-reassign (r ∷ rs) m =
      ap (volume_by_number (map reassigned rs)) (add_node-reassign r.volumes m)
      ∙ volume_by_number-reassign rs (add_node r.volumes m)

  primary_node-reassign :
      (primary : Text) (rs : List ResourceWithVolumes)
      → primary_node primary (map reassigned rs) ≡ primary_node primary rs
  unfolding primary_node
  primary_node-reassign primary [] = refl
  primary_node-reassign primary (r ∷ rs) = primary_node-reassign _ rs

  node_names-reassign :
      (rs : List ResourceWithVolumes) → map node_name_of (map reassigned rs) ≡ map node_name_of rs
  node_names-reassign [] = refl
  node_names-reassign (r ∷ rs) = ap (◌∷◌ r.node_name) (node_names-reassign rs)

  -- The status of a resource does not depend on the disk states of its volumes on a node, the last
  -- volume of each node apart.
  pub status_from_resources-reassign :
      (path : Text) (definition : ResourceDefinition) (group : ResourceGroup)
      (resources : List ResourceWithVolumes)
      → status_from_resources path definition group (map reassigned resources)
        ≡ status_from_resources path definition group resources
  unfolding status_from_resources
  status_from_resources-reassign path definition group resources =
      rw
        (
          volume_by_number-reassign resources [],
          primary_node-reassign [] resources,
          node_names-reassign resources,
        )
        refl
