-- ===== src/Target/Volumes.antt =====
-- `AddVolume` of pkg/iscsi/iscsi.go and pkg/nvmeof/nvmeof.go, and `DeleteVolume` of these and of
-- pkg/nfs/nfs.go.
use linstor_gateway.Base.{
  ℕ, suc, ltb, true, Option, none, some, List, [], ◌∷◌, ◌++◌, ◌==◌, if◌then◌else◌,
}
use linstor_gateway.Base.Int.{ℤ, eqb_ℤ}
use linstor_gateway.Base.Lists.{remove_at, length}
use linstor_gateway.Base.Outcome
use linstor_gateway.Base.Outcome.{Result, ok, err, panic, Error}
use linstor_gateway.Base.Text.{Text}
use linstor_gateway.External.{External}
use linstor_gateway.Linstor.{Client, Call, ResourceWithVolumes}
use linstor_gateway.Linstor.Exec.{pure, lift, context, replacing, fail_with, ◌>>=◌, ◌>>◌}
use linstor_gateway.Reactor.Files.{Deployment, Found, tolerating}
use linstor_gateway.Reactor.Store.{ensure_config, find_config}
use linstor_gateway.Common.Status.{ResourceStatus}
use linstor_gateway.Common.Volume.{VolumeConfig}
use linstor_gateway.Common.Volumes.{sort_volumes}
use linstor_gateway.Linstorcontrol.Status.{status_from_resources}
use linstor_gateway.Linstorcontrol.Ensure.{ensure_resource}
use linstor_gateway.Target.{Protocol, AddsVolumes}
use linstor_gateway.Target.Lookup.{
  Deployed, status_of, is_started, deployed_with, deployed_config, get,
}

-- `append(Volumes[:j], Volumes[j+1:]...)` for every resource, which panics past the last volume
unfoldable pub remove_volumes : ℕ → List ResourceWithVolumes → Result (List ResourceWithVolumes)
remove_volumes j [] = ok []
remove_volumes j (r ∷ rs) =
    let rest = remove_volumes j rs in
    if ltb j (length r.volumes)
    then Outcome.◌>>=◌ rest (λ others. ok (record r { volumes = remove_at j r.volumes } ∷ others))
    else panic

-- The index of the first volume with the number.
unfoldable pub index_of : ℤ → List VolumeConfig → Option ℕ
index_of number [] = none
index_of number (v ∷ vs) =
    let rest = index_of number vs in
    if eqb_ℤ v.number number then some 0 else elim rest [ none ↦ none | some j ↦ some (suc j) ]

unfoldable pub existing_volume : ℤ → List VolumeConfig → Option VolumeConfig
existing_volume number [] = none
existing_volume number (v ∷ vs) =
    if eqb_ℤ v.number number then some v else existing_volume number vs

module _ {C W : Type 0} (protocol : Protocol C) (ext : External) (cli : Client W) where
  -- The body of the loop of `DeleteVolume` for the volume at the index `j`.
  delete_at : Text → ℤ → Deployed C → Option ℕ → Call W Unit
  unfolding tolerating
  delete_at name lun r none = pure tt
  delete_at name lun r (some j) = do
    replacing "failed to delete volume definition"
        (tolerating (cli.delete_volume_definition name lun))
    resources ← lift (remove_volumes j r.deployment.resources)
    cfg ←
        context "failed to convert resource to promoter configuration: %w"
          (lift (protocol.to_promoter (protocol.without_volume j r.config) resources))
    replacing "failed to update config" (ensure_config cli ext cfg)

  unfoldable pub delete_found : Text → ℤ → Found → Call W (Option C)
  unfolding delete_at
  delete_found name lun (none, path) = pure none
  delete_found name lun (some cfg, path) = do
    r ←
        deployed_with protocol ext cli "failed to fetch deployed resources: %w"
          "failed to convert volume definition to resource: %w" cfg
    if is_started (status_of path r.deployment)
        then fail_with "cannot delete volume while service is running"
        else (do
          delete_at name lun r (index_of lun (protocol.volumes r.config))
          get protocol ext cli name)

  unfoldable pub delete_volume : Text → ℤ → Call W (Option C)
  unfolding delete_found
  delete_volume name lun = do
    found ←
        context "failed to delete reactor config: %w"
          (find_config cli ext (protocol.id_prefix ++ name))
    delete_found name lun found

  module _ (adds : AddsVolumes C) where
    -- The end of `AddVolume`, once the volume is there.
    update_config : C → ResourceStatus → List ResourceWithVolumes → Call W (Option C)
    update_config config status resources = do
      cfg ←
          context "failed to convert resource to promoter configuration: %w"
            (lift (protocol.to_promoter config resources))
      context "failed to update config: %w" (ensure_config cli ext cfg)
      pure (some (protocol.with_status status config))

    unfoldable pub add_new : C → Text → Deployment → VolumeConfig → Call W (Option C)
    unfolding update_config
    add_new config path d vol =
        if is_started (status_of path d)
        then fail_with "cannot add volume while service is running"
        else do
          let (checked, grown) =
              protocol.valid
                (adds.with_volumes (sort_volumes (protocol.volumes config ++ vol ∷ [])) config)
          context "validation failed: %w" (lift checked)
          e ←
              context "failed to reconcile linstor resource: %w"
                (ensure_resource cli (adds.reconciled grown) true)
          update_config grown (status_from_resources path e.definition e.group e.resources)
              e.resources

    unfoldable pub add_to :
        Deployed C → Text → VolumeConfig → Option VolumeConfig → Call W (Option C)
    unfolding add_new update_config
    add_to r path vol none = add_new r.config path r.deployment vol
    add_to r path vol (some existing) =
        if existing.size_kib == vol.size_kib
        then update_config r.config (status_of path r.deployment) r.deployment.resources
        else fail_with "existing volume has differing size %d != %d"

    unfoldable pub add_found : VolumeConfig → Found → Call W (Option C)
    unfolding add_to
    add_found vol (none, path) = pure none
    add_found vol (some cfg, path) = do
      r ← deployed_config protocol ext cli cfg
      add_to r path vol (existing_volume vol.number (protocol.volumes r.config))

    unfoldable pub add_volume : Text → VolumeConfig → Call W (Option C)
    unfolding add_found
    add_volume name vol = do
      found ←
          context "failed to check for existing config: %w"
            (find_config cli ext (protocol.id_prefix ++ name))
      add_found vol found
