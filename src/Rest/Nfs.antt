-- ===== src/Rest/Nfs.antt =====
-- pkg/rest/nfs_*.go: the handlers for NFS exports.
use linstor_gateway.Base.{Bool, Option, some, ◌++◌, if◌then◌else◌}
use linstor_gateway.Base.Text.{Text, codes}
use linstor_gateway.Base.Decimal.{atoi}
use linstor_gateway.External.{External}
use linstor_gateway.Linstor.{Client}
use linstor_gateway.Nfs.ResourceConfig.{ResourceConfig, volume_config}
use linstor_gateway.Nfs.Service
use linstor_gateway.Rest.{
  Handler, config_body, list_body, volume_body, empty_body, start_writing, respond, with_location,
  finish, refuse, calling, given, bad_request, not_found, internal_error,
}

module _ (ext : External) {W : Type 0} (cli : Client W) where
  unfoldable pub nfs_get : Bool → Text → Text → Handler W ResourceConfig
  nfs_get whole resource id_text =
      calling (Service.get ext cli resource)
        (refuse internal_error "failed to fetch resource status: %v")
        (λ found. given found (refuse not_found "no resource found") (λ cfg.
          if whole
          then finish (respond 200 (config_body cfg) start_writing)
          else given (atoi id_text) (refuse bad_request "invalid volume number %q: %v") (λ id.
            given (volume_config cfg id)
              (refuse not_found "no volume found for resource %s, export %d")
              (λ vol. finish (respond 200 (volume_body (some vol)) start_writing)))))

  unfoldable pub nfs_create : Option ResourceConfig → Handler W ResourceConfig
  nfs_create body = given body (refuse bad_request "failed to parse request body: %v") (λ rsc.
      calling (Service.create ext cli rsc) (refuse bad_request "failed to create nfs resource: %v")
        (λ result. finish (
          respond 201 (config_body result)
            (with_location (codes "./nfs/" ++ result.name) start_writing))))

  unfoldable pub nfs_list : Handler W ResourceConfig
  nfs_list =
      calling (Service.list ext cli) (refuse internal_error "Could not list exports: %v")
        (λ targets. finish (respond 200 (list_body targets) start_writing))

  unfoldable pub nfs_start : Text → Handler W ResourceConfig
  nfs_start resource =
      calling (Service.start ext cli resource) (refuse internal_error "failed to start export: %v")
        (λ found. given found (refuse not_found "no resource found") (λ cfg.
          finish (respond 200 (config_body cfg) (with_location (codes "./") start_writing))))

  unfoldable pub nfs_stop : Text → Handler W ResourceConfig
  nfs_stop resource =
      calling (Service.stop ext cli resource) (refuse internal_error "failed to stop export: %v")
        (λ found. given found (refuse not_found "no resource found") (λ cfg.
          finish (respond 200 (config_body cfg) (with_location (codes "./") start_writing))))

  unfoldable pub nfs_delete : Bool → Text → Text → Handler W ResourceConfig
  nfs_delete whole resource id_text =
      if whole
      then calling (Service.delete ext cli resource) (refuse internal_error "delete failed: %v")
          (λ u. finish (respond 200 empty_body start_writing))
      else given (atoi id_text) (refuse internal_error "invalid volume: %v") (λ id.
        calling (Service.delete_volume ext cli resource id)
          (refuse internal_error "error deleting volume: %v")
          (λ found.
            given found (refuse not_found "no resource found")
              (λ cfg. finish (respond 200 empty_body start_writing))))
