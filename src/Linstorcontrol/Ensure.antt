-- ===== src/Linstorcontrol/Ensure.antt =====
-- pkg/linstorcontrol/linstorcontrol.go: `EnsureResource`.
pub mod Laws
use linstor_gateway.Base.{Bool, true, false, ◌&&◌, some, List, [], ◌∷◌, ◌++◌, if◌then◌else◌}
use linstor_gateway.Base.Int.{eqb_ℤ, to_int32}
use linstor_gateway.Base.Lists.{any}
use linstor_gateway.Base.Outcome.{
  Result, ok, err, panic, Error, api, api_call, wrap, message, FailCode,
}
use linstor_gateway.Base.Outcome
use linstor_gateway.Base.Text.{Text, Dict, codes, is_empty}
use linstor_gateway.Linstor.{
  Client, Call, Volume, VolumeDefinition, ResourceDefinition, ResourceGroup, ResourceWithVolumes,
}
use linstor_gateway.Linstor.Exec.{pure, context, fail_with, for_each, ◌>>=◌, ◌>>◌}
use linstor_gateway.Common.Volume.{VolumeConfig, uid_gid_string}

pub record Resource : Type 0 where
  pub name : Text
  pub volumes : List VolumeConfig
  pub resource_group : Text
  pub file_system : Text
  pub gross_size : Bool

abbrev possible_errs : List FailCode
possible_errs =
    Outcome.exists_node ∷ Outcome.exists_rsc_dfn ∷ Outcome.exists_rsc ∷ Outcome.exists_vlm_dfn
    ∷ Outcome.exists_vlm ∷ Outcome.exists_net_if ∷ Outcome.exists_node_conn
    ∷ Outcome.exists_rsc_conn ∷ Outcome.exists_vlm_conn ∷ Outcome.exists_stor_pool_dfn
    ∷ Outcome.exists_stor_pool ∷ Outcome.exists_stlt_conn ∷ Outcome.exists_crypt_passphrase
    ∷ Outcome.exists_watch ∷ Outcome.exists_snapshot_dfn ∷ Outcome.exists_snapshot
    ∷ Outcome.exists_ext_name ∷ Outcome.exists_nvme_target_per_rsc_dfn
    ∷ Outcome.exists_nvme_initiator_per_rsc_dfn ∷ Outcome.lost_stor_pool ∷ Outcome.exists_rsc_grp
    ∷ Outcome.exists_vlm_grp ∷ Outcome.exists_openflex_target_per_rsc_dfn
    ∷ Outcome.exists_snapshot_shipping ∷ Outcome.exists_exos_enclosure ∷ []

-- `isErrAlreadyExists`; the error of a call is not wrapped yet where it is asked.
unfoldable pub is_err_already_exists : Error → Bool
is_err_already_exists (api (api_call is)) = any is possible_errs
is_err_already_exists _ = false

-- `if err != nil && !isErrAlreadyExists(err) { return ... }`
unfoldable pub allow_existing : Bool → Result (Unit {0}) → Result (Unit {0})
unfolding is_err_already_exists
allow_existing may_exist (err e) = if may_exist && is_err_already_exists e then ok tt else err e
allow_existing may_exist r = r

tolerating : {W : Type 0} → Bool → Call W Unit → Call W Unit
unfolding allow_existing
tolerating may_exist m w = let (r, w') = m w in (allow_existing may_exist r, w')

-- What `EnsureResource` returns.
pub record Ensured : Type 0 where
  pub definition : ResourceDefinition
  pub group : ResourceGroup
  pub resources : List ResourceWithVolumes

-- The properties of the resource definition; `options` is golinstor's name space for them.
abbrev auto_promote : Text → Text
auto_promote options = options ++ codes "/auto-promote"

abbrev resource_props : Text → Text → Dict Text
resource_props options file_system =
    (auto_promote options, (if is_empty file_system then codes "no" else codes "yes"))
    ∷ (options ++ codes "/quorum", codes "majority")
    ∷ (options ++ codes "/on-no-quorum", codes "io-error")
    ∷ []

abbrev volume_props : Text → VolumeConfig → Dict Text
volume_props namespace vol =
    if is_empty vol.file_system
    then []
    else (namespace ++ codes "/Type", vol.file_system)
      ∷ (
        namespace ++ codes "/MkfsParams",
        codes "-E root_owner=" ++ uid_gid_string vol.file_system_root_owner,
      )
      ∷ []

-- The definition that is asked for one volume.
unfoldable pub wanted_definition : Text → Bool → VolumeConfig → VolumeDefinition
wanted_definition namespace gross_size vol = record {
  volume_number = some (to_int32 vol.number);
  size_kib = vol.size_kib;
  props = volume_props namespace vol;
  flags = if gross_size then codes "GROSS_SIZE" ∷ [] else [];
}

abbrev expected : List VolumeConfig → Volume → Bool
expected volumes existing = any (λ vol. eqb_ℤ existing.volume_number vol.number) volumes

module _ {W : Type 0} (cli : Client W) where
  ensure_volume : Resource → VolumeConfig → Call W Unit
  ensure_volume res vol = context "failed to ensure volume definition: %w" (
      tolerating true (
        cli.create_volume_definition res.name
          (wanted_definition cli.namespc_filesystem res.gross_size vol)))

  restore_auto_promote : Resource → Call W Unit
  restore_auto_promote res =
      if is_empty res.file_system
      then pure tt
      else context "failed to update properties of resource definition '%s': %w" (
          cli.modify_resource_definition res.name
            ((auto_promote cli.namespc_drbd_resource_options, codes "no") ∷ []))

  remove_unexpected : Resource → Volume → Call W Unit
  remove_unexpected res existing =
      if expected res.volumes existing
      then pure tt
      else context "failed to delete unexpected volume definition: %w"
          (cli.delete_volume_definition res.name existing.volume_number)

  check_view :
      ResourceDefinition → ResourceGroup → Resource → List ResourceWithVolumes → Call W Ensured
  unfolding remove_unexpected
  check_view rdef rgroup res [] = fail_with "failed to fetch resource '%s'"
  check_view rdef rgroup res (first ∷ others) = do
    for_each (remove_unexpected res) first.volumes
    pure (record { definition = rdef; group = rgroup; resources = first ∷ others })

  unfoldable pub ensure_resource : Resource → Bool → Call W Ensured
  unfolding ensure_volume restore_auto_promote check_view tolerating
  ensure_resource res may_exist = do
    context "failed to create resource group: %w"
        (tolerating true (cli.create_resource_group res.resource_group))
    rgroup ← context "failed to get resource group: %w" (cli.get_resource_group res.resource_group)
    context "failed to create resource definition: %w" (
        tolerating may_exist (
          cli.create_resource_definition (record {
            name = res.name;
            resource_group_name = res.resource_group;
            props = resource_props cli.namespc_drbd_resource_options res.file_system;
          })))
    for_each (ensure_volume res) res.volumes
    context "failed to autoplace resources: %w" (cli.autoplace res.name)
    restore_auto_promote res
    rdef ←
        context "failed to fetch existing resource definition: %w"
          (cli.get_resource_definition res.name)
    view ← context "failed to fetch resource view: %w" (cli.get_resource_view res.name)
    check_view rdef rgroup res view
