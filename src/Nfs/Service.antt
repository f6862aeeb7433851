-- ===== src/Nfs/Service.antt =====
-- pkg/nfs/nfs.go: the operations on NFS exports.
pub mod Safety
use linstor_gateway.Base.{
  Bool, true, false, ◌||◌, Option, none, some, List, [], ◌∷◌, map, if◌then◌else◌,
}
use linstor_gateway.Base.Int.{ℤ}
use linstor_gateway.Base.Lists.{any, remove_at}
use linstor_gateway.Base.Outcome.{ok}
use linstor_gateway.Base.Text.{Text, Dict, codes, eq}
use linstor_gateway.External.{External}
use linstor_gateway.Linstor.{Client, Call}
use linstor_gateway.Linstor.Exec.{pure, lift, context, fail_with, ◌>>=◌, ◌>>◌}
use linstor_gateway.Reactor.Agent.{StartEntry, resource_agent, systemd_service}
use linstor_gateway.Reactor.Config.{PromoterConfig, PromoterResourceConfig}
use linstor_gateway.Reactor.Store.{list_configs, find_config}
use linstor_gateway.Common.Volume.{cluster_private_volume}
use linstor_gateway.Linstorcontrol.Ensure.{Resource}
use linstor_gateway.Target.{Protocol}
use linstor_gateway.Target.Lookup
use linstor_gateway.Target.Service
use linstor_gateway.Target.Volumes
use linstor_gateway.Target.Listing
use linstor_gateway.Nfs.ResourceConfig.{ResourceConfig, config_of, fill_defaults, valid, matches}
use linstor_gateway.Nfs.Promoter.{id_prefix, id_of, to_promoter}
use linstor_gateway.Nfs.Parsing.{from_promoter}

-- The resource that `Create` hands to `EnsureResource`.
abbrev resource_of : ResourceConfig → Resource
resource_of r = record {
  name = r.name;
  volumes = map config_of r.volumes;
  resource_group = r.resource_group;
  file_system = [];
  gross_size = r.gross_size;
}

abbrev pub nfs : External → Text → Protocol ResourceConfig
nfs ext namespace = record {
  id_prefix = id_prefix;
  name = λ r. r.name;
  volumes = λ r. map config_of r.volumes;
  with_private_volume = λ r. record r {
    volumes = record { config = cluster_private_volume; export_path = [] } ∷ r.volumes;
  };
  without_volume = λ j r. record r { volumes = remove_at j r.volumes };
  with_status = λ s r. record r { status = s };
  fill_defaults = fill_defaults;
  valid = valid;
  matches = λ r o. ok (matches ext r o);
  to_promoter = to_promoter ext;
  from_promoter = from_promoter ext namespace;
  created = resource_of;
  attach_failed = "failed to attach reactor configuration: %w";
}

-- Whether the entry is an agent that runs the NFS server.
unfoldable pub is_server : StartEntry → Bool
is_server (resource_agent agent) = eq agent.type (codes "ocf:heartbeat:nfsserver")
is_server (systemd_service name) = false

unfoldable pub has_server : PromoterConfig → Bool
unfolding is_server
has_server c = any (λ (r : Text × PromoterResourceConfig). any is_server (r.1).start) c.resources

-- The loop of `Create` over the configurations, with `none` for its error.
unfoldable pub other_server : Text → List PromoterConfig → Bool
unfolding has_server
other_server id [] = false
other_server id (c ∷ cs) =
    let rest = other_server id cs in
    if eq c.id id then rest else if has_server c then true else rest

module _ (ext : External) {W : Type 0} (cli : Client W) where
  abbrev pub exports : Protocol ResourceConfig
  exports = nfs ext cli.namespc_filesystem

  unfoldable pub get : Text → Call W (Option ResourceConfig)
  get name = Lookup.get exports ext cli name

  unfoldable pub create : ResourceConfig → Call W ResourceConfig
  unfolding other_server
  create rsc = do
    let (checked, sorted) = valid (Service.prepared exports ext cli rsc)
    context "validation failed: %w" (lift checked)
    listed ← context "failed to check for existing NFS configs: %w" (list_configs cli ext)
    if other_server (id_of sorted.name) listed.0
        then fail_with "an NFS config with a different ID already exists: %s"
        else (do
          found ←
              context "failed to check for existing config: %w"
                (find_config cli ext (id_of sorted.name))
          Service.create_found exports ext cli sorted found)

  unfoldable pub start : Text → Call W (Option ResourceConfig)
  start name = Service.start exports ext cli name

  unfoldable pub stop : Text → Call W (Option ResourceConfig)
  stop name = Service.stop exports ext cli name

  unfoldable pub list : Call W (List ResourceConfig)
  list = Listing.list exports ext cli

  unfoldable pub delete : Text → Call W Unit
  delete name = Service.delete exports ext cli name

  unfoldable pub delete_volume : Text → ℤ → Call W (Option ResourceConfig)
  delete_volume name lun = Volumes.delete_volume exports ext cli name lun
