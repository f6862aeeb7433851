-- ===== src/Iscsi/Service.antt =====
-- pkg/iscsi/iscsi.go: the operations on iSCSI targets.
use linstor_gateway.Base.{Option, List, [], ◌∷◌}
use linstor_gateway.Base.Int.{ℤ}
use linstor_gateway.Base.Lists.{remove_at}
use linstor_gateway.External.{External}
use linstor_gateway.Linstor.{Client, Call}
use linstor_gateway.Common.Volume.{VolumeConfig, cluster_private_volume}
use linstor_gateway.Linstorcontrol.Ensure.{Resource}
use linstor_gateway.Target.{Protocol, AddsVolumes}
use linstor_gateway.Target.Lookup
use linstor_gateway.Target.Service
use linstor_gateway.Target.Volumes
use linstor_gateway.Target.Listing
use linstor_gateway.Iscsi.Iqn.{Iqn}
use linstor_gateway.Iscsi.ResourceConfig.{ResourceConfig, fill_defaults, valid, matches}
use linstor_gateway.Iscsi.Promoter.{id_prefix, from_promoter, to_promoter}

abbrev resource_of : ResourceConfig → Resource
resource_of r = record {
  name = r.iqn.wwn;
  volumes = r.volumes;
  resource_group = r.resource_group;
  file_system = [];
  gross_size = r.gross_size;
}

abbrev pub iscsi : External → Protocol ResourceConfig
iscsi ext = record {
  id_prefix = id_prefix;
  name = λ r. r.iqn.wwn;
  volumes = λ r. r.volumes;
  with_private_volume = λ r. record r { volumes = cluster_private_volume ∷ r.volumes };
  without_volume = λ j r. record r { volumes = remove_at j r.volumes };
  with_status = λ s r. record r { status = s };
  fill_defaults = fill_defaults;
  valid = valid;
  matches = matches ext;
  to_promoter = to_promoter ext;
  from_promoter = from_promoter ext;
  created = resource_of;
  attach_failed = "failed to detach reactor configuration: %w";
}

abbrev pub iscsi_adds : AddsVolumes ResourceConfig
iscsi_adds = record { with_volumes = λ vs r. record r { volumes = vs }; reconciled = resource_of }

module _ (ext : External) {W : Type 0} (cli : Client W) where
  unfoldable pub get : Iqn → Call W (Option ResourceConfig)
  get iqn = Lookup.get (iscsi ext) ext cli iqn.wwn

  unfoldable pub create : ResourceConfig → Call W ResourceConfig
  create rsc = Service.create (iscsi ext) ext cli rsc

  unfoldable pub start : Iqn → Call W (Option ResourceConfig)
  start iqn = Service.start (iscsi ext) ext cli iqn.wwn

  unfoldable pub stop : Iqn → Call W (Option ResourceConfig)
  stop iqn = Service.stop (iscsi ext) ext cli iqn.wwn

  unfoldable pub list : Call W (List ResourceConfig)
  list = Listing.list (iscsi ext) ext cli

  unfoldable pub delete : Iqn → Call W Unit
  delete iqn = Service.delete (iscsi ext) ext cli iqn.wwn

  unfoldable pub add_volume : Iqn → VolumeConfig → Call W (Option ResourceConfig)
  add_volume iqn vol = Volumes.add_volume (iscsi ext) ext cli iscsi_adds iqn.wwn vol

  unfoldable pub delete_volume : Iqn → ℤ → Call W (Option ResourceConfig)
  delete_volume iqn lun = Volumes.delete_volume (iscsi ext) ext cli iqn.wwn lun
