-- ===== src/Target/Lookup.antt =====
-- How an operation on a target finds its configuration and what LINSTOR has deployed for it: `Get`
-- of pkg/iscsi/iscsi.go, pkg/nvmeof/nvmeof.go and pkg/nfs/nfs.go, and what the others share with it.
-- A result `none` stands for the nil configuration, which says that there is no such target.
use linstor_gateway.Base.{String, Bool, true, false, Option, none, some, ◌++◌}
use linstor_gateway.Base.Text.{Text}
use linstor_gateway.External.{External}
use linstor_gateway.Linstor.{Client, Call}
use linstor_gateway.Linstor.Exec.{pure, lift, context, ◌>>=◌}
use linstor_gateway.Reactor.Config.{PromoterConfig}
use linstor_gateway.Reactor.Files.{Deployment, Found}
use linstor_gateway.Reactor.Store.{deployed_resources, find_config}
use linstor_gateway.Common.Status.{ResourceStatus, service_state_started, service_state_stopped}
use linstor_gateway.Linstorcontrol.Status.{status_from_resources}
use linstor_gateway.Target.{Protocol}

-- A configuration read from LINSTOR, and the deployment that it was read with.
pub record Deployed (C : Type 0) : Type 0 where
  pub config : C
  pub deployment : Deployment

abbrev pub status_of : Text → Deployment → ResourceStatus
status_of path d = status_from_resources path d.definition d.group d.resources

abbrev pub is_started : ResourceStatus → Bool
is_started s = elim s.service [ service_state_started ↦ true | service_state_stopped ↦ false ]

module _ {C W : Type 0} (protocol : Protocol C) (ext : External) (cli : Client W) where
  -- `DeployedResources` and `FromPromoter`, with the caller's messages.
  unfoldable pub deployed_with : String → String → PromoterConfig → Call W (Deployed C)
  deployed_with fetching converting cfg = do
    d ← context fetching (deployed_resources cli cfg)
    config ←
        context converting
          (lift (protocol.from_promoter cfg (some d.definition) d.volume_definitions))
    pure (record { config = config; deployment = d })

  abbrev pub deployed_config : PromoterConfig → Call W (Deployed C)
  deployed_config =
      deployed_with "failed to fetch existing deployment: %w" "unknown existing reactor config: %w"

  unfoldable pub with_status : PromoterConfig → Text → Call W (Option C)
  with_status cfg path = do
    r ← deployed_config cfg
    pure (some (protocol.with_status (status_of path r.deployment) r.config))

  unfoldable pub get_found : Found → Call W (Option C)
  unfolding with_status
  get_found (none, path) = pure none
  get_found (some cfg, path) = with_status cfg path

  unfoldable pub get : Text → Call W (Option C)
  unfolding get_found
  get name = do
    found ←
        context "failed to check for existing config: %w"
          (find_config cli ext (protocol.id_prefix ++ name))
    get_found found
