-- ===== src/Rest/Nvmeof.antt =====
-- pkg/rest/nvmeof_*.go: the handlers for NVMe-oF targets.
use linstor_gateway.Base.{Bool, not, ◌&&◌, Option, none, some, ◌++◌, if◌then◌else◌}
use linstor_gateway.Base.Int.{pos, eqb_ℤ, ltb_ℤ}
use linstor_gateway.Base.Outcome.{Result, ok, panic}
use linstor_gateway.Base.Text.{Text, codes}
use linstor_gateway.Base.Decimal.{atoi}
use linstor_gateway.External.{External}
use linstor_gateway.Linstor.{Client}
use linstor_gateway.Common.Volume.{VolumeConfig}
use linstor_gateway.Nvmeof.Nqn.{Nqn, new_nqn, nqn_string}
use linstor_gateway.Nvmeof.ResourceConfig.{ResourceConfig, volume_config}
use linstor_gateway.Nvmeof.Service
use linstor_gateway.Rest.{
  Handler, Written, crashed, must_error, config_body, list_body, volume_body, empty_body,
  start_writing, respond, with_location, finish, refuse, on_result, calling, given, bad_request,
  not_found, internal_error,
}

module _ (ext : External) {W : Type 0} (cli : Client W) where
  -- What each handler does that has the NQN in its route.
  unfoldable pub with_nqn : Text → (Nqn → Handler W ResourceConfig) → Handler W ResourceConfig
  with_nqn text next = on_result (new_nqn text) (refuse bad_request "malformed nqn: %v") next

  unfoldable pub nvmeof_get : Bool → Text → Text → Handler W ResourceConfig
  unfolding with_nqn
  nvmeof_get whole nqn_text nsid_text = with_nqn nqn_text (λ nqn.
      calling (Service.get ext cli nqn)
        (refuse internal_error "failed to fetch resource status: %v")
        (λ found. given found (refuse not_found "no resource found for nqn %s") (λ cfg.
          if whole
          then finish (respond 200 (config_body cfg) start_writing)
          else given (atoi nsid_text) (refuse internal_error "wrong namespace id format: %v")
              (λ nsid.
                given (volume_config cfg nsid)
                  (refuse not_found "no volume found for nqn %s, nsid %d")
                  (λ vol. finish (respond 200 (volume_body (some vol)) start_writing))))))

  unfoldable pub nvmeof_create : Option ResourceConfig → Handler W ResourceConfig
  nvmeof_create body = given body (refuse bad_request "failed to parse request body: %v") (λ rsc.
      calling (Service.create ext cli rsc)
        (refuse bad_request "failed to create nvmeof resource: %v")
        (λ result. finish (
          respond 201 (config_body result)
            (with_location (codes "./nvme-of/" ++ nqn_string result.nqn) start_writing))))

  unfoldable pub nvmeof_list : Handler W ResourceConfig
  nvmeof_list =
      calling (Service.list ext cli) (refuse internal_error "nvmeof list failed: %v")
        (λ targets. finish (respond 200 (list_body targets) start_writing))

  unfoldable pub nvmeof_start : Text → Handler W ResourceConfig
  unfolding with_nqn
  nvmeof_start nqn_text = with_nqn nqn_text (λ nqn.
      calling (Service.start ext cli nqn) (refuse internal_error "failed to start resource: %v")
        (λ found. given found (refuse not_found "no resource found for nqn %s") (λ cfg.
          finish (respond 200 (config_body cfg) (with_location (codes "./") start_writing)))))

  unfoldable pub nvmeof_stop : Text → Handler W ResourceConfig
  unfolding with_nqn
  nvmeof_stop nqn_text = with_nqn nqn_text (λ nqn.
      calling (Service.stop ext cli nqn) (refuse internal_error "failed to stop resource: %v")
        (λ found. given found (refuse not_found "no resource found for nqn %s") (λ cfg.
          finish (respond 200 (config_body cfg) (with_location (codes "./") start_writing)))))

  -- What is written when the target has been queried; the handler goes on in each case.
  unfoldable pub queried : Result (Option ResourceConfig) → Written ResourceConfig
  unfolding must_error
  queried (ok (some cfg)) = start_writing
  queried (ok none) = must_error not_found "no resource found for nqn %s" start_writing
  queried _ =
      must_error not_found "no resource found for nqn %s"
        (must_error internal_error "failed to query target: %v" start_writing)

  unfoldable pub delete_queried : Nqn → Written ResourceConfig → Handler W ResourceConfig
  delete_queried nqn out =
      calling (Service.delete ext cli nqn)
        (finish (must_error internal_error "nvmeof delete failed: %v" out))
        (λ u. finish (respond 200 empty_body out))

  unfoldable pub delete_whole : Nqn → Result (Option ResourceConfig) → Handler W ResourceConfig
  unfolding queried delete_queried
  delete_whole nqn panic w = (crashed, w)
  delete_whole nqn r w = delete_queried nqn (queried r) w

  unfoldable pub query_and_delete : Nqn → Handler W ResourceConfig
  unfolding delete_whole
  query_and_delete nqn w = let (r, w') = Service.get ext cli nqn w in delete_whole nqn r w'

  unfoldable pub nvmeof_delete : Bool → Text → Text → Handler W ResourceConfig
  unfolding with_nqn query_and_delete
  nvmeof_delete whole nqn_text nsid_text = with_nqn nqn_text (λ nqn.
      if whole
      then query_and_delete nqn
      else given (atoi nsid_text) (refuse internal_error "wrong namespace id format: %v") (λ nsid.
        calling (Service.delete_volume ext cli nqn nsid)
          (refuse internal_error "error deleting volume: %v")
          (λ found.
            given found (refuse not_found "no resource found for nqn %s")
              (λ cfg. finish (respond 200 empty_body start_writing)))))

  unfoldable pub nvmeof_add_volume : Text → Text → Option VolumeConfig → Handler W ResourceConfig
  unfolding with_nqn
  nvmeof_add_volume nqn_text nsid_text body = with_nqn nqn_text (λ nqn.
      given (atoi nsid_text) (refuse internal_error "wrong namespace id format: %v") (λ nsid.
        given body (refuse bad_request "failed to parse request body: %v") (λ vol.
          if not (eqb_ℤ vol.number (pos 0)) && not (eqb_ℤ vol.number nsid)
          then refuse bad_request "expected volume number to be %d, but request body has %d"
          else if ltb_ℤ nsid (pos 1)
          then refuse bad_request "volume number must be positive, is %d"
          else calling (Service.add_volume ext cli nqn (record vol { number = nsid }))
              (refuse internal_error "failed to add volume to resource: %v")
              (λ found. given found (refuse not_found "no resource found for nqn %s") (λ cfg.
                finish (respond 200 (volume_body (volume_config cfg nsid)) start_writing))))))
