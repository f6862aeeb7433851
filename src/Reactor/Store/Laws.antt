-- ===== src/Reactor/Store/Laws.antt =====
-- The calls that read the promoter configurations change nothing.
use linstor_gateway.Base.{refl, List, [], ◌∷◌}
use linstor_gateway.Base.Outcome.{wrapping}
use linstor_gateway.Base.Text.{Text}
use linstor_gateway.External.{External}
use linstor_gateway.Linstor.{Client}
use linstor_gateway.Linstor.Exec.Laws.{Keeps, ReadsOnly, continue-Keeps}
use linstor_gateway.Reactor.Config.{PromoterConfig}
use linstor_gateway.Reactor.Store.{fetch_deployment, deployed_resources, list_configs, find_config}

module _ {W : Type 0} (cli : Client W) (reads : ReadsOnly cli) where
  fetch-Keeps : (names : List Text) → Keeps (fetch_deployment cli names)
  unfolding fetch_deployment
  fetch-Keeps [] w = refl
  fetch-Keeps (name ∷ other ∷ names) w = refl
  fetch-Keeps (name ∷ []) w =
      let rd = cli.get_resource_definition name in
      continue-Keeps (wrapping "failed to fetch resource definition: %w" (rd w).0) _ _ w
        (reads.definition name w)
        λ d u.
          let rg = cli.get_resource_group d.resource_group_name in
          continue-Keeps (wrapping "failed to fetch resource group: %w" (rg u).0) _ _ u
            (reads.group d.resource_group_name u)
            λ g v.
              continue-Keeps
                (wrapping "failed to fetch volume definition: %w"
                  (cli.get_volume_definitions name v).0)
                _ _ v (reads.volumes name v)
                λ vds t.
                  continue-Keeps
                    (wrapping "failed to fetch deployed resources: %w"
                      (cli.get_resource_view name t).0)
                    _ _ t (reads.view name t) λ resources x. refl

  pub deployed_resources-Keeps : (cfg : PromoterConfig) → Keeps (deployed_resources cli cfg)
  unfolding deployed_resources
  deployed_resources-Keeps cfg w = fetch-Keeps _ w

  module _ (ext : External) where
    pub list_configs-Keeps : Keeps (list_configs cli ext)
    unfolding list_configs
    list_configs-Keeps w = continue-Keeps _ _ _ w (reads.files w) λ files v. refl

    pub find_config-Keeps : (id : Text) → Keeps (find_config cli ext id)
    unfolding find_config
    find_config-Keeps id w = continue-Keeps _ _ _ w (list_configs-Keeps w) λ listed v. refl
