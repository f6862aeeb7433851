-- ===== src/Target.antt =====
-- What pkg/iscsi, pkg/nvmeof and pkg/nfs each define for their own type of configuration, as an
-- interface: the operations on targets, which the packages have in the same form, are written against
-- it.
pub mod Lookup
pub mod Service
pub mod Volumes
pub mod Listing
use linstor_gateway.Base.{ℕ, String, Bool, Option, List}
use linstor_gateway.Base.Outcome.{Result}
use linstor_gateway.Base.Text.{Text}
use linstor_gateway.Linstor.{ResourceWithVolumes, ResourceDefinition, VolumeDefinition}
use linstor_gateway.Reactor.Config.{PromoterConfig}
use linstor_gateway.Common.Status.{ResourceStatus}
use linstor_gateway.Common.Volume.{VolumeConfig}
use linstor_gateway.Linstorcontrol.Ensure.{Resource}

pub record Protocol (C : Type 0) : Type 0 where
  -- `IDFormat` up to its verb
  pub id_prefix : Text
  -- `WWN()` of the IQN, `Subsystem()` of the NQN: the name of the LINSTOR resource
  pub name : C → Text
  pub volumes : C → List VolumeConfig
  -- the configuration with the cluster private volume put in front, and without its volume at an
  -- index
  pub with_private_volume : C → C
  pub without_volume : ℕ → C → C
  pub with_status : ResourceStatus → C → C
  pub fill_defaults : C → C
  -- `Valid`, with the receiver as it leaves it
  pub valid : C → Result (Unit {0}) × C
  pub matches : C → C → Result Bool
  pub to_promoter : C → List ResourceWithVolumes → Result PromoterConfig
  pub from_promoter : PromoterConfig → Option ResourceDefinition → List VolumeDefinition → Result C
  -- the resource that `Create` hands to `EnsureResource`
  pub created : C → Resource
  -- what `Start` says if it cannot attach the configuration file
  pub attach_failed : String

-- What `AddVolume` takes, which the NFS exports do not have.
pub record AddsVolumes (C : Type 0) : Type 0 where
  pub with_volumes : List VolumeConfig → C → C
  -- the resource that it hands to `EnsureResource`
  pub reconciled : C → Resource
