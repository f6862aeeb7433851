-- ===== src/Common/Volumes.antt =====
-- The loop of `Valid` over the volumes of an iSCSI or NVMe-oF target, which
-- pkg/iscsi/resource_config.go and pkg/nvmeof/resource_config.go both have, the comparison of
-- volumes in `Matches`, and the volumes that `FromPromoter` reads.
pub mod Laws
use linstor_gateway.Base.{
  ℕ, zero, suc, Bool, true, false, ◌&&◌, ◌||◌, not, Option, none, some, List, [], ◌∷◌, ◌++◌, map,
  ltb, ◌==◌, if◌then◌else◌,
}
use linstor_gateway.Base.Int.{ℤ, pos, ltb_ℤ, eqb_ℤ}
use linstor_gateway.Base.Lists.{any}
use linstor_gateway.Base.Outcome.{Result, ok, err, validation}
use linstor_gateway.Base.Text.{Text, codes, eq}
use linstor_gateway.Linstor.{VolumeDefinition}
use linstor_gateway.Common.Status.{VolumeState, unknown}
use linstor_gateway.Common.Volume.{VolumeConfig, Volume, UidGid, root}

-- `sort.Slice(volumes, ... Number < ... Number)`, as an insertion sort
unfoldable pub insert_volume : VolumeConfig → List VolumeConfig → List VolumeConfig
insert_volume v [] = v ∷ []
insert_volume v (w ∷ ws) = if ltb_ℤ w.number v.number then w ∷ insert_volume v ws else v ∷ w ∷ ws

unfoldable pub sort_volumes : List VolumeConfig → List VolumeConfig
unfolding insert_volume
sort_volumes [] = []
sort_volumes (v ∷ vs) = insert_volume v (sort_volumes vs)

-- The rounds of the loop with `i > 0`; the number is that of `Volumes[i-1]`.
unfoldable pub check_rest : ℤ → List VolumeConfig → Result (Unit {0})
check_rest previous [] = ok tt
check_rest previous (v ∷ vs) =
    let rest = check_rest v.number vs in
    if ltb_ℤ v.number (pos 1)
    then err (validation "volume numbers must start at 1")
    else if v.size_kib == 0
    then err (validation "volume size must be positive")
    else if eqb_ℤ previous v.number
    then err (validation "volume numbers must be unique")
    else rest

unfoldable pub check_volumes : List VolumeConfig → Result (Unit {0})
unfolding check_rest
check_volumes [] = ok tt
check_volumes (v ∷ vs) =
    if v.size_kib == 0
    then err (validation "volume size must be positive")
    else check_rest v.number vs

-- The volumes that `FromPromoter` takes from the volume definitions.
abbrev pub number_of : Option ℤ → ℤ
number_of none = pos 0
number_of (some n) = n

abbrev config_of : VolumeDefinition → VolumeConfig
config_of vd = record {
  number = number_of vd.volume_number;
  size_kib = vd.size_kib;
  file_system = [];
  file_system_root_owner = root;
}

unfoldable pub configs_of : List VolumeDefinition → List VolumeConfig
configs_of [] = []
configs_of (vd ∷ vds) = config_of vd ∷ configs_of vds

-- The end of `Matches`: as many volumes, with the same numbers and sizes.
unfoldable pub same_volumes : List VolumeConfig → List VolumeConfig → Bool
same_volumes [] [] = true
same_volumes (v ∷ vs) (w ∷ ws) =
    eqb_ℤ v.number w.number && ((v.size_kib == w.size_kib) && same_volumes vs ws)
same_volumes _ _ = false

-- The method `VolumeConfig(number)`: the volume and its state, or nil.
find_config : ℤ → List VolumeConfig → Option VolumeConfig
find_config number [] = none
find_config number (v ∷ vs) = if eqb_ℤ v.number number then some v else find_config number vs

find_state : ℤ → List VolumeState → Option VolumeState
find_state number [] = none
find_state number (v ∷ vs) = if eqb_ℤ v.number number then some v else find_state number vs

abbrev zero_config : VolumeConfig
zero_config = record {
  number = pos 0;
  size_kib = 0;
  file_system = [];
  file_system_root_owner = root;
}

abbrev zero_state : VolumeState
zero_state = record { number = pos 0; state = unknown }

with_state : Option VolumeConfig → Option VolumeState → Option Volume
with_state none none = none
with_state (some v) none = some (record { volume = v; status = zero_state })
with_state none (some s) = some (record { volume = zero_config; status = s })
with_state (some v) (some s) = some (record { volume = v; status = s })

unfoldable pub volume_config : List VolumeConfig → List VolumeState → ℤ → Option Volume
unfolding find_config find_state with_state
volume_config volumes states number =
    with_state (find_config number volumes) (find_state number states)
