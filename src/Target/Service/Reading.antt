-- ===== src/Target/Service/Reading.antt =====
-- The operations that only look: they change nothing.
use linstor_gateway.Base.{refl, String, Option, none, some, List, [], ◌∷◌, ◌++◌}
use linstor_gateway.Base.Outcome.{wrapping}
use linstor_gateway.Base.Text.{Text, scan}
use linstor_gateway.External.{External}
use linstor_gateway.Linstor.{Client, Call}
use linstor_gateway.Linstor.Exec.Laws.{Keeps, ReadsOnly, continue-Keeps}
use linstor_gateway.Reactor.Config.{PromoterConfig}
use linstor_gateway.Reactor.Files.{Found, Listing}
use linstor_gateway.Reactor.Store.{deployed_resources, find_config, list_configs}
use linstor_gateway.Reactor.Store.Laws.{
  deployed_resources-Keeps, list_configs-Keeps, find_config-Keeps,
}
use linstor_gateway.Target.{Protocol}
use linstor_gateway.Target.Lookup.{get, get_found, with_status, deployed_with, deployed_config}
use linstor_gateway.Target.Listing.{
  list, list_from, list_parsed, fetched, unless_skipped, list_round,
}

module _ {C W : Type 0} (protocol : Protocol C) (ext : External) (cli : Client W)
    (reads : ReadsOnly cli) where
  pub deployed_with-Keeps :
      (fetching converting : String) (cfg : PromoterConfig)
      → Keeps (deployed_with protocol ext cli fetching converting cfg)
  unfolding deployed_with
  deployed_with-Keeps fetching converting cfg w =
      continue-Keeps (wrapping fetching (deployed_resources cli cfg w).0) _ _ w
        (deployed_resources-Keeps cli reads cfg w)
        λ d v.
          continue-Keeps
            (wrapping converting
              (protocol.from_promoter cfg (some d.definition) d.volume_definitions))
            _ v v refl λ config u. refl

  get_found-Keeps : (found : Found) → Keeps (get_found protocol ext cli found)
  unfolding get_found with_status
  get_found-Keeps (none, path) w = refl
  get_found-Keeps (some cfg, path) w =
      continue-Keeps (deployed_config protocol ext cli cfg w).0 _ _ w
        (deployed_with-Keeps _ _ cfg w) λ r v. refl

  -- `Get` leaves the cluster as it is, whatever it returns, if the calls of the client that read do.
  pub get-Keeps : (name : Text) → Keeps (get protocol ext cli name)
  unfolding get
  get-Keeps name w =
      let found = find_config cli ext (protocol.id_prefix ++ name) in
      continue-Keeps (wrapping "failed to check for existing config: %w" (found w).0) _ _ w
        (find_config-Keeps cli reads ext _ w) get_found-Keeps

  unless_skipped-Keeps :
      (o : Option Text) (rest body : Call W (List C))
      → Keeps rest
      → Keeps body
      → Keeps (unless_skipped protocol ext cli o rest body)
  unfolding unless_skipped
  unless_skipped-Keeps none rest body h k = h
  unless_skipped-Keeps (some rsc) rest body h k = k

  list_round-Keeps :
      (cfg : PromoterConfig) (path : Text) (rest : Call W (List C))
      → Keeps rest
      → Keeps (list_round protocol ext cli cfg path rest)
  unfolding list_round
  list_round-Keeps cfg path rest h w =
      let d = (deployed_resources cli cfg w).0 in
      continue-Keeps (list_parsed protocol ext cli path d (fetched protocol ext cli d cfg) []) _ _ w
        (deployed_resources-Keeps cli reads cfg w)
        λ first u. continue-Keeps (rest u).0 _ _ u (h u) λ others t. refl

  list_from-Keeps :
      (cfgs : List PromoterConfig) (paths : List Text)
      → Keeps (list_from protocol ext cli cfgs paths)
  unfolding list_from
  list_from-Keeps [] paths w = refl
  list_from-Keeps (cfg ∷ cfgs) [] w = refl
  list_from-Keeps (cfg ∷ cfgs) (path ∷ paths) w =
      let rest = list_from-Keeps cfgs paths in
      unless_skipped-Keeps (scan protocol.id_prefix cfg.id) (list_from protocol ext cli cfgs paths)
        (list_round protocol ext cli cfg path (list_from protocol ext cli cfgs paths)) rest
        (list_round-Keeps cfg path (list_from protocol ext cli cfgs paths) rest) w

  -- `List` leaves the cluster as it is, whatever it returns, if the calls of the client that read do.
  pub list-Keeps : Keeps (list protocol ext cli)
  unfolding list
  list-Keeps w =
      continue-Keeps (list_configs cli ext w).0 _ _ w (list_configs-Keeps cli reads ext w)
        λ (listed : Listing). list_from-Keeps listed.0 listed.1
