-- ===== src/Linstorcontrol/Status.antt =====
-- pkg/linstorcontrol/linstorcontrol.go: `StatusFromResources`.
pub mod Laws
pub mod LastVolume
use linstor_gateway.Base.{
  ℕ, ◌+◌, Bool, not, ◌&&◌, ◌||◌, List, [], ◌∷◌, ◌++◌, map, ltb, ◌==◌, if◌then◌else◌,
}
use linstor_gateway.Base.Int.{ℤ, pos, ltb_ℤ, eqb_ℤ}
use linstor_gateway.Base.Lists.{length}
use linstor_gateway.Base.Text.{Text, codes, eq, attribute}
use linstor_gateway.Linstor.{Volume, ResourceWithVolumes, ResourceDefinition, ResourceGroup}
use linstor_gateway.Common.Status.{
  ResourceState, unknown, resource_state_ok, resource_state_degraded, resource_state_bad, rank,
  service_state_stopped, service_state_started, VolumeState, ResourceStatus, is_in_use,
}

-- `map[int][]*client.Volume`, as an association list
abbrev pub ByNumber : Type 0
ByNumber = List (ℤ × List Volume)

-- `volumeByNumber[nr] = append(volumeByNumber[nr], v)`
unfoldable pub add_volume : ℤ → Volume → ByNumber → ByNumber
add_volume nr v [] = (nr, v ∷ []) ∷ []
add_volume nr v ((n, vs) ∷ m) =
    if eqb_ℤ n nr then (n, vs ++ v ∷ []) ∷ m else (n, vs) ∷ add_volume nr v m

-- The value of the loop variable once the loop over the volumes of one node has ended. The program
-- stores `&vol`, and in Go 1.18 a loop has one variable, so every pointer that it stores is to this
-- value when the pointers are read.
unfoldable pub loop_variable : Volume → List Volume → Volume
loop_variable v [] = v
loop_variable v (w ∷ ws) = loop_variable w ws

unfoldable pub add_volumes : Volume → List Volume → ByNumber → ByNumber
unfolding add_volume
add_volumes last [] m = m
add_volumes last (v ∷ vs) m = add_volumes last vs (add_volume v.volume_number last m)

unfoldable pub add_node : List Volume → ByNumber → ByNumber
unfolding add_volumes loop_variable
add_node [] m = m
add_node (v ∷ vs) m = add_volumes (loop_variable v vs) (v ∷ vs) m

unfoldable pub volume_by_number : List ResourceWithVolumes → ByNumber → ByNumber
unfolding add_node
volume_by_number [] m = m
volume_by_number (r ∷ rs) m = volume_by_number rs (add_node r.volumes m)

unfoldable pub primary_node : Text → List ResourceWithVolumes → Text
primary_node primary [] = primary
primary_node primary (r ∷ rs) = primary_node (if is_in_use r then r.node_name else primary) rs

abbrev pub is_up_to_date : Volume → Bool
is_up_to_date v = eq v.disk_state (codes "UpToDate")

abbrev pub is_diskless : Volume → Bool
is_diskless v = eq v.disk_state (codes "Diskless")

unfoldable pub count : (Volume → Bool) → List Volume → ℕ
count p [] = 0
count p (v ∷ vs) = let rest = count p vs in if p v then 1 + rest else rest

unfoldable pub aggregate_state : ℤ → List Volume → ResourceState
unfolding count
aggregate_state place_count vs =
    let up_to_date = count (λ v. is_up_to_date v || is_diskless v) vs in
    let diskful = count is_up_to_date vs in
    if up_to_date == length vs && not (ltb_ℤ (pos diskful) place_count)
    then resource_state_ok
    else if ltb 0 up_to_date
    then resource_state_degraded
    else resource_state_bad

unfoldable pub volume_states : ℤ → ByNumber → List VolumeState
unfolding aggregate_state
volume_states place_count [] = []
volume_states place_count ((nr, vs) ∷ m) =
    record { number = nr; state = aggregate_state place_count vs } ∷ volume_states place_count m

-- `if resourceState < aggregateState { resourceState = aggregateState }` over the volumes
unfoldable pub worst_state : ResourceState → List VolumeState → ResourceState
worst_state s [] = s
worst_state s (v ∷ vs) = worst_state (if ltb (rank s) (rank v.state) then v.state else s) vs

unfoldable pub insert_state : VolumeState → List VolumeState → List VolumeState
insert_state v [] = v ∷ []
insert_state v (w ∷ ws) = if ltb_ℤ w.number v.number then w ∷ insert_state v ws else v ∷ w ∷ ws

unfoldable pub sort_states : List VolumeState → List VolumeState
unfolding insert_state
sort_states [] = []
sort_states (v ∷ vs) = insert_state v (sort_states vs)

abbrev pub node_name_of : ResourceWithVolumes → Text
node_name_of r = r.node_name

unfoldable pub status_from_resources :
    Text → ResourceDefinition → ResourceGroup → List ResourceWithVolumes → ResourceStatus
unfolding volume_by_number primary_node volume_states worst_state sort_states
status_from_resources service_cfg_path definition group resources =
    let states = volume_states group.place_count (volume_by_number resources []) in
    record {
      state = worst_state unknown states;
      service =
          if eq (attribute (codes "files" ++ service_cfg_path) definition.props) (codes "True")
          then service_state_started
          else service_state_stopped;
      primary = primary_node [] resources;
      nodes = map node_name_of resources;
      volumes = sort_states states;
    }
