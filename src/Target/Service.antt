-- ===== src/Target/Service.antt =====
-- The operations on targets, which pkg/iscsi/iscsi.go, pkg/nvmeof/nvmeof.go and pkg/nfs/nfs.go each
-- write out for their own types, over the interface of one kind of target: how a target is created,
-- started, stopped and deleted.
pub mod Safety
pub mod Reading
pub mod Running
use linstor_gateway.Base.{
  ℕ, suc, ltb, String, Bool, true, false, Option, none, some, List, [], ◌∷◌, ◌++◌, ◌==◌,
  if◌then◌else◌,
}
use linstor_gateway.Base.Int.{ℤ, eqb_ℤ}
use linstor_gateway.Base.Lists.{remove_at, length}
use linstor_gateway.Base.Outcome
use linstor_gateway.Base.Outcome.{Result, ok, err, panic, Error}
use linstor_gateway.Base.Text.{Text, scan}
use linstor_gateway.External.{External}
use linstor_gateway.Linstor.{Client, Call, ResourceWithVolumes}
use linstor_gateway.Linstor.Exec.{pure, lift, context, replacing, fail_with, ◌>>=◌, ◌>>◌}
use linstor_gateway.Reactor.Config.{PromoterConfig}
use linstor_gateway.Reactor.Files.{Deployment, Found, tolerating}
use linstor_gateway.Reactor.Store.{
  deployed_resources, attach_config, detach_config, delete_config, ensure_config, list_configs,
  find_config,
}
use linstor_gateway.Common.Status.{
  ResourceStatus, service_state_started, service_state_stopped, any_resources_in_use,
  no_resources_in_use,
}
use linstor_gateway.Common.Volume.{VolumeConfig, cluster_private_volume}
use linstor_gateway.Common.Volumes.{sort_volumes}
use linstor_gateway.Common.Wait.{wait_until, looks}
use linstor_gateway.Linstorcontrol.Status.{status_from_resources}
use linstor_gateway.Linstorcontrol.Ensure.{Resource, ensure_resource}
use linstor_gateway.Target.{Protocol}
use linstor_gateway.Target.Lookup.{status_of, deployed_config}
use linstor_gateway.Target.Lookup

module _ {C W : Type 0} (protocol : Protocol C) (ext : External) (cli : Client W) where
  start_found : Text → Found → Call W (Option C)
  start_found name (none, path) = pure none
  start_found name (some cfg, path) = do
    context protocol.attach_failed (attach_config cli cfg)
    context "error waiting for resource to become used: %w"
        (wait_until cli name any_resources_in_use looks)
    Lookup.get protocol ext cli name

  unfoldable pub start : Text → Call W (Option C)
  unfolding start_found
  start name = do
    found ←
        context "failed to find the resource configuration: %w"
          (find_config cli ext (protocol.id_prefix ++ name))
    start_found name found

  stop_found : Text → Found → Call W (Option C)
  stop_found name (none, path) = pure none
  stop_found name (some cfg, path) = do
    context "failed to detach reactor configuration: %w" (detach_config cli cfg)
    context "error waiting for resource to become unused: %w"
        (wait_until cli name no_resources_in_use looks)
    Lookup.get protocol ext cli name

  unfoldable pub stop : Text → Call W (Option C)
  unfolding stop_found
  stop name = do
    found ←
        context "failed to find the resource configuration: %w"
          (find_config cli ext (protocol.id_prefix ++ name))
    stop_found name found

  unfoldable pub delete : Text → Call W Unit
  delete name = do
    context "failed to delete reactor config: %w" (delete_config cli (protocol.id_prefix ++ name))
    context "error waiting for resource to become unused: %w"
        (wait_until cli name no_resources_in_use looks)
    context "failed to delete resources: %w" (tolerating (cli.delete_resource_definition name))

  -- The branch of `Create` where the target exists already.
  create_existing : C → PromoterConfig → Text → Call W C
  create_existing rsc cfg path = do
    r ← deployed_config protocol ext cli cfg
    same ← lift (protocol.matches rsc r.config)
    if same
        then pure (protocol.with_status (status_of path r.deployment) r.config)
        else fail_with "resource already exists with incompatible config"

  create_fresh : C → Text → Call W C
  create_fresh rsc path = do
    e ←
        context "failed to create linstor resource: %w"
          (ensure_resource cli (protocol.created rsc) false)
    cfg ←
        context "failed to convert resource to promoter configuration: %w"
          (lift (protocol.to_promoter rsc e.resources))
    context "failed to register reactor config file: %w" (ensure_config cli ext cfg)
    started ← context "failed to start resources: %w" (start (protocol.name rsc))
    pure (protocol.with_status (status_from_resources path e.definition e.group e.resources) rsc)

  unfoldable pub create_found : C → Found → Call W C
  unfolding create_existing create_fresh
  create_found rsc (none, path) = create_fresh rsc path
  create_found rsc (some cfg, path) = create_existing rsc cfg path

  -- With the defaults filled in and the cluster private volume put in front.
  abbrev pub prepared : C → C
  prepared rsc = protocol.with_private_volume (protocol.fill_defaults rsc)

  unfoldable pub create : C → Call W C
  unfolding create_found
  create rsc = do
    let (checked, sorted) = protocol.valid (prepared rsc)
    context "validation failed: %w" (lift checked)
    found ←
        context "failed to check for existing config: %w"
          (find_config cli ext (protocol.id_prefix ++ protocol.name sorted))
    create_found sorted found
