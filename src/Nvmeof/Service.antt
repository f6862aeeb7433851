-- ===== src/Nvmeof/Service.antt =====
-- pkg/nvmeof/nvmeof.go: the operations on NVMe-oF targets.
use linstor_gateway.Base.{false, Option, List, [], ◌∷◌}
use linstor_gateway.Base.Int.{ℤ}
use linstor_gateway.Base.Outcome.{ok}
use linstor_gateway.Base.Lists.{remove_at}
use linstor_gateway.External.{External}
use linstor_gateway.Linstor.{Client, Call}
use linstor_gateway.Common.Volume.{VolumeConfig, cluster_private_volume}
use linstor_gateway.Linstorcontrol.Ensure.{Resource}
use linstor_gateway.Target.{Protocol, AddsVolumes}
use linstor_gateway.Target.Lookup
use linstor_gateway.Target.Service
use linstor_gateway.Target.Volumes
use linstor_gateway.Target.Listing
use linstor_gateway.Nvmeof.Nqn.{Nqn}
use linstor_gateway.Nvmeof.ResourceConfig.{ResourceConfig, fill_defaults, valid, matches}
use linstor_gateway.Nvmeof.Promoter.{id_prefix, from_promoter, to_promoter}

abbrev resource_of : ResourceConfig → Resource
resource_of r = record {
  name = r.nqn.subsystem;
  volumes = r.volumes;
  resource_group = r.resource_group;
  file_system = [];
  gross_size = r.gross_size;
}

abbrev pub nvmeof : External → Protocol ResourceConfig
nvmeof ext = record {
  id_prefix = id_prefix;
  name = λ r. r.nqn.subsystem;
  volumes = λ r. r.volumes;
  with_private_volume = λ r. record r { volumes = cluster_private_volume ∷ r.volumes };
  without_volume = λ j r. record r { volumes = remove_at j r.volumes };
  with_status = λ s r. record r { status = s };
  fill_defaults = fill_defaults;
  valid = valid;
  matches = λ r o. ok (matches ext r o);
  to_promoter = to_promoter ext;
  from_promoter = from_promoter ext;
  created = resource_of;
  attach_failed = "failed to detach reactor configuration: %w";
}

-- `AddVolume` does not hand on `GrossSize`.
abbrev pub nvmeof_adds : AddsVolumes ResourceConfig
nvmeof_adds = record {
  with_volumes = λ vs r. record r { volumes = vs };
  reconciled = λ r. resource_of (record r { gross_size = false });
}

module _ (ext : External) {W : Type 0} (cli : Client W) where
  unfoldable pub get : Nqn → Call W (Option ResourceConfig)
  get nqn = Lookup.get (nvmeof ext) ext cli nqn.subsystem

  unfoldable pub create : ResourceConfig → Call W ResourceConfig
  create rsc = Service.create (nvmeof ext) ext cli rsc

  unfoldable pub start : Nqn → Call W (Option ResourceConfig)
  start nqn = Service.start (nvmeof ext) ext cli nqn.subsystem

  unfoldable pub stop : Nqn → Call W (Option ResourceConfig)
  stop nqn = Service.stop (nvmeof ext) ext cli nqn.subsystem

  unfoldable pub list : Call W (List ResourceConfig)
  list = Listing.list (nvmeof ext) ext cli

  unfoldable pub delete : Nqn → Call W Unit
  delete nqn = Service.delete (nvmeof ext) ext cli nqn.subsystem

  unfoldable pub add_volume : Nqn → VolumeConfig → Call W (Option ResourceConfig)
  add_volume nqn vol = Volumes.add_volume (nvmeof ext) ext cli nvmeof_adds nqn.subsystem vol

  unfoldable pub delete_volume : Nqn → ℤ → Call W (Option ResourceConfig)
  delete_volume nqn nsid = Volumes.delete_volume (nvmeof ext) ext cli nqn.subsystem nsid
