-- ===== src/Rest/Iscsi.antt =====
-- pkg/rest/iscsi_*.go: the handlers for iSCSI targets.
use linstor_gateway.Base.{Bool, not, ◌&&◌, Option, some, [], ◌++◌, map, if◌then◌else◌}
use linstor_gateway.Base.Int.{pos, eqb_ℤ, ltb_ℤ}
use linstor_gateway.Base.Text.{Text, codes}
use linstor_gateway.Base.Decimal.{atoi}
use linstor_gateway.External.{External}
use linstor_gateway.Linstor.{Client}
use linstor_gateway.Common.Volume.{VolumeConfig}
use linstor_gateway.Iscsi.Iqn.{Iqn, new_iqn, iqn_string}
use linstor_gateway.Iscsi.ResourceConfig.{ResourceConfig, volume_config}
use linstor_gateway.Iscsi.Service
use linstor_gateway.Rest.{
  Handler, config_body, list_body, volume_body, empty_body, start_writing, respond, with_location,
  finish, refuse, on_result, calling, given, bad_request, not_found, internal_error,
}

-- The loop of `ISCSIList`.
unfoldable pub without_secrets : ResourceConfig → ResourceConfig
without_secrets r = record r { username = []; password = [] }

module _ (ext : External) {W : Type 0} (cli : Client W) where
  -- What each handler does that has the IQN in its route.
  unfoldable pub with_iqn : Text → (Iqn → Handler W ResourceConfig) → Handler W ResourceConfig
  with_iqn text next = on_result (new_iqn text) (refuse bad_request "malformed iqn: %v") next

  unfoldable pub iscsi_get : Bool → Text → Text → Handler W ResourceConfig
  unfolding with_iqn
  iscsi_get whole iqn_text lun_text = with_iqn iqn_text (λ iqn.
      calling (Service.get ext cli iqn)
        (refuse internal_error "failed to fetch resource status: %v")
        (λ found. given found (refuse not_found "no resource found for iqn %s") (λ cfg.
          if whole
          then finish (respond 200 (config_body cfg) start_writing)
          else given (atoi lun_text) (refuse bad_request "invalid LUN: %v") (λ lun.
            given (volume_config cfg lun) (refuse not_found "no volume found for iqn %s, lun %d")
              (λ vol. finish (respond 200 (volume_body (some vol)) start_writing))))))

  unfoldable pub iscsi_create : Option ResourceConfig → Handler W ResourceConfig
  iscsi_create body = given body (refuse bad_request "failed to parse request body: %v") (λ rsc.
      calling (Service.create ext cli rsc)
        (refuse bad_request "failed to create iscsi resource: %v")
        (λ result. finish (
          respond 201 (config_body result)
            (with_location (codes "./iscsi/" ++ iqn_string result.iqn) start_writing))))

  unfoldable pub iscsi_list : Handler W ResourceConfig
  unfolding without_secrets
  iscsi_list =
      calling (Service.list ext cli) (refuse internal_error "Could not list targets: %v")
        (λ targets. finish (respond 200 (list_body (map without_secrets targets)) start_writing))

  unfoldable pub iscsi_start : Text → Handler W ResourceConfig
  iscsi_start iqn_text = on_result (new_iqn iqn_text) (refuse bad_request "invalid iqn: %v") (λ iqn.
      calling (Service.start ext cli iqn) (refuse internal_error "failed to start target: %v")
        (λ found. given found (refuse not_found "no resource with iqn %s found") (λ cfg.
          finish (respond 200 (config_body cfg) (with_location (codes "./") start_writing)))))

  unfoldable pub iscsi_stop : Text → Handler W ResourceConfig
  unfolding with_iqn
  iscsi_stop iqn_text = with_iqn iqn_text (λ iqn.
      calling (Service.stop ext cli iqn) (refuse internal_error "failed to stop resource: %v")
        (λ found. given found (refuse not_found "no resource found for iqn %s") (λ cfg.
          finish (respond 200 (config_body cfg) (with_location (codes "./") start_writing)))))

  unfoldable pub iscsi_delete : Bool → Text → Text → Handler W ResourceConfig
  unfolding with_iqn
  iscsi_delete whole iqn_text lun_text = with_iqn iqn_text (λ iqn.
      if whole
      then calling (Service.delete ext cli iqn) (refuse internal_error "delete failed: %v")
          (λ u. finish (respond 200 empty_body start_writing))
      else given (atoi lun_text) (refuse internal_error "invalid LUN: %v") (λ lun.
        calling (Service.delete_volume ext cli iqn lun)
          (refuse internal_error "error deleting volume: %v")
          (λ found.
            given found (refuse not_found "no resource found for iqn %s")
              (λ cfg. finish (respond 200 empty_body start_writing)))))

  unfoldable pub iscsi_add_volume : Text → Text → Option VolumeConfig → Handler W ResourceConfig
  unfolding with_iqn
  iscsi_add_volume iqn_text lun_text body = with_iqn iqn_text (λ iqn.
      given (atoi lun_text) (refuse internal_error "malformed LUN: %v") (λ lun.
        given body (refuse bad_request "failed to parse request body: %v") (λ vol.
          if not (eqb_ℤ vol.number (pos 0)) && not (eqb_ℤ vol.number lun)
          then refuse bad_request "expected volume number to be %d, but request body has %d"
          else if ltb_ℤ lun (pos 1)
          then refuse bad_request "volume number must be positive, is %d"
          else calling (Service.add_volume ext cli iqn (record vol { number = lun }))
              (refuse internal_error "failed to add volume to resource: %v")
              (λ found. given found (refuse not_found "no resource found for iqn %s") (λ cfg.
                finish (respond 200 (volume_body (volume_config cfg lun)) start_writing))))))
