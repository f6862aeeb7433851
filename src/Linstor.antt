-- ===== src/Linstor.antt =====
-- The LINSTOR client (package golinstor) as the program sees it: the fields of its types that the
-- program reads or writes, and its calls as a parameter. `W` is the state of the cluster and of
-- everything else outside the program; a call may change it, whether it fails or not.
pub mod Exec
use linstor_gateway.Base.{ℕ, Bool, Option, List}
use linstor_gateway.Base.Int.{ℤ}
use linstor_gateway.Base.Outcome.{Result}
use linstor_gateway.Base.Text.{Text, Dict}

-- `client.Volume`: a deployed volume on one node
pub record Volume : Type 0 where
  pub volume_number : ℤ
  pub uuid : Text
  pub device_path : Text
  pub props : Dict Text
  pub disk_state : Text

-- `client.ResourceWithVolumes`: a deployed resource on one node
pub record ResourceWithVolumes : Type 0 where
  pub name : Text
  pub node_name : Text
  pub uuid : Text
  pub in_use : Option Bool
  pub volumes : List Volume

-- `client.VolumeDefinition`
pub record VolumeDefinition : Type 0 where
  pub volume_number : Option ℤ
  pub size_kib : ℕ
  pub props : Dict Text
  pub flags : List Text

-- `client.ResourceDefinition`
pub record ResourceDefinition : Type 0 where
  pub name : Text
  pub resource_group_name : Text
  pub props : Dict Text

-- `client.ResourceGroup`
pub record ResourceGroup : Type 0 where
  pub name : Text
  pub place_count : ℤ

-- `client.ExternalFile`
pub record ExternalFile : Type 0 where
  pub path : Text
  pub content : Text

abbrev pub Call : Type 0 → Type 0 → Type 0
Call W A = W → Result A × W

pub record Client (W : Type 0) : Type 0 where
  -- the constants `apiconsts.NamespcDrbdResourceOptions` and `apiconsts.NamespcFilesystem`
  pub namespc_drbd_resource_options : Text
  pub namespc_filesystem : Text
  pub get_external_files : Call W (List ExternalFile)
  pub modify_external_file : Text → ExternalFile → Call W Unit
  pub delete_external_file : Text → Call W Unit
  pub attach_external_file : Text → Text → Call W Unit
  pub detach_external_file : Text → Text → Call W Unit
  pub get_resource_definition : Text → Call W ResourceDefinition
  pub create_resource_definition : ResourceDefinition → Call W Unit
  pub modify_resource_definition : Text → Dict Text → Call W Unit
  pub delete_resource_definition : Text → Call W Unit
  pub get_volume_definitions : Text → Call W (List VolumeDefinition)
  pub create_volume_definition : Text → VolumeDefinition → Call W Unit
  pub delete_volume_definition : Text → ℤ → Call W Unit
  pub get_resource_group : Text → Call W ResourceGroup
  pub create_resource_group : Text → Call W Unit
  pub autoplace : Text → Call W Unit
  pub get_resource_view : Text → Call W (List ResourceWithVolumes)
  -- what happens outside the program during a `time.Sleep`
  pub sleep : W → W
