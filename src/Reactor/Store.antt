-- ===== src/Reactor/Store.antt =====
-- pkg/reactor/reactor.go: the calls that keep the promoter configurations in LINSTOR.
pub mod Laws
pub mod Holding
pub mod Refinement
use linstor_gateway.Base.{List, [], ◌∷◌, map}
use linstor_gateway.Base.Text.{Text}
use linstor_gateway.External.{External}
use linstor_gateway.Linstor.{Client, Call}
use linstor_gateway.Linstor.Exec.{pure, lift, context, fail_with, for_each, ◌>>=◌}
use linstor_gateway.Reactor.Config.{PromoterConfig, PromoterResourceConfig, encode_config}
use linstor_gateway.Reactor.Files.{
  Deployment, Found, Listing, config_path, tolerating, find_from, filter_configs,
}

abbrev key_of : Text × PromoterResourceConfig → Text
key_of (name, config) = name

module _ {W : Type 0} (cli : Client W) where
  unfoldable pub fetch_deployment : List Text → Call W Deployment
  fetch_deployment (name ∷ []) = do
    rd ← context "failed to fetch resource definition: %w" (cli.get_resource_definition name)
    rg ←
        context "failed to fetch resource group: %w" (cli.get_resource_group rd.resource_group_name)
    vds ← context "failed to fetch volume definition: %w" (cli.get_volume_definitions name)
    resources ← context "failed to fetch deployed resources: %w" (cli.get_resource_view name)
    pure (record { definition = rd; group = rg; volume_definitions = vds; resources = resources })
  fetch_deployment _ = fail_with "expected exactly 1 resource, got %d"

  -- `DeployedResources`
  unfoldable pub deployed_resources : PromoterConfig → Call W Deployment
  unfolding fetch_deployment
  deployed_resources p = fetch_deployment (map key_of p.resources)

  unfoldable pub attach_config : PromoterConfig → Call W Unit
  attach_config cfg =
      for_each
        (λ rd.
          context "error attaching file to resource: %w"
            (cli.attach_external_file rd (config_path cfg.id)))
        (map key_of cfg.resources)

  unfoldable pub detach_config : PromoterConfig → Call W Unit
  detach_config cfg =
      for_each
        (λ rd.
          context "error attaching file to resource: %w"
            (cli.detach_external_file rd (config_path cfg.id)))
        (map key_of cfg.resources)

  unfoldable pub delete_config : Text → Call W Unit
  unfolding tolerating
  delete_config id =
      context "error removing config file: %w"
        (tolerating (cli.delete_external_file (config_path id)))

  module _ (ext : External) where
    unfoldable pub ensure_config : PromoterConfig → Call W Unit
    ensure_config cfg = do
      content ← context "error encoding promoter config: %w" (lift (encode_config ext cfg))
      let path = config_path cfg.id
      context "error setting promoter config in linstor: %w"
          (cli.modify_external_file path (record { path = path; content = content }))

    unfoldable pub list_configs : Call W Listing
    list_configs = do
      files ← context "failed to fetch file list: %w" cli.get_external_files
      lift (filter_configs ext files)

    unfoldable pub find_config : Text → Call W Found
    unfolding list_configs
    find_config id = do listed ← list_configs; lift (find_from id listed.0 listed.1)
