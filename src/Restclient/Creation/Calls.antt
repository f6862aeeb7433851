-- ===== src/Restclient/Creation/Calls.antt =====
-- The requests that create a target, up to the operation on the server.
use linstor_gateway.Base.{◌≡◌, refl, ◌∙◌, Option, some, List, ◌++◌, ◌⊎◌, inr}
use linstor_gateway.Base.Outcome.{Error}
use linstor_gateway.Base.Text.{Text, Dict, codes}
use linstor_gateway.External.{External}
use linstor_gateway.Linstor.{Client}
use linstor_gateway.Iscsi.Iqn.{iqn_string}
use linstor_gateway.Nvmeof.Nqn.{nqn_string}
use linstor_gateway.Iscsi.ResourceConfig as IscsiConfig
use linstor_gateway.Nvmeof.ResourceConfig as NvmeofConfig
use linstor_gateway.Nfs.ResourceConfig as NfsConfig
use linstor_gateway.Iscsi.Service as IscsiService
use linstor_gateway.Nvmeof.Service as NvmeofService
use linstor_gateway.Nfs.Service as NfsService
use linstor_gateway.Rest.{calling, given}
use linstor_gateway.Rest.Iscsi.{iscsi_create}
use linstor_gateway.Rest.Nvmeof.{nvmeof_create}
use linstor_gateway.Rest.Nfs.{nfs_create}
use linstor_gateway.Rest.Routes.{Route, Handle, ServerCodec, routes}
use linstor_gateway.Rest.Routes.Router.{IsRouter}
use linstor_gateway.Rest.Routes.Paths.{split_kind}
use linstor_gateway.Rest.Routes.Reached.Iscsi.{iscsi_routes-Runs}
use linstor_gateway.Rest.Routes.Reached.Nvmeof.{nvmeof_routes-Runs}
use linstor_gateway.Rest.Routes.Reached.Nfs.{nfs_routes-Runs}
use linstor_gateway.Restclient.{RestClient, HttpResponse, Wire}
use linstor_gateway.Restclient.Iscsi
use linstor_gateway.Restclient.Nvmeof
use linstor_gateway.Restclient.Nfs
use linstor_gateway.Restclient.Served.{IsConnection}
use linstor_gateway.Restclient.EndToEnd.{KeepsPaths, IsLinked}
use linstor_gateway.Restclient.Creation.{ReportsCreated, do_post-ReportsCreated}

module _ (ext : External) (codec : ServerCodec (Error ⊎ HttpResponse)) {W : Type 0} (cli : Client W)
    (mux : List (Route (Handle W (Error ⊎ HttpResponse)))
      → Text
      → Text
      → Option (Handle W (Error ⊎ HttpResponse) × Dict Text))
    (unrouted : Text → Text → Error ⊎ HttpResponse) (c : RestClient W)
    (url_path : Text → Text) where
  -- Creating through the client for iSCSI.
  pub create_iscsi-ReportsCreated :
      (wire : Wire IscsiConfig.ResourceConfig) (cfg : IscsiConfig.ResourceConfig) (content : Text)
      → IsConnection wire codec.write_iscsi
      → KeepsPaths wire c url_path
      → IsLinked ext codec cli mux unrouted c url_path
      → IsRouter (routes ext codec cli) mux
      → wire.encode cfg ≡ inr content
      → codec.read_iscsi content ≡ some cfg
      → ReportsCreated (Iscsi.create wire c cfg) (IscsiService.create ext cli cfg)
  unfolding Iscsi.create iscsi_create calling given
  create_iscsi-ReportsCreated wire cfg content good keeps linked router encoded decoded =
      let runs =
        (iscsi_routes-Runs ext codec cli mux unrouted (codes "x") (codes "1") (refl, refl)
          (refl, refl) router).1 in
      rw encoded (
        do_post-ReportsCreated wire codec.write_iscsi c "failed to create iscsi resource: %v"
          (λ result. codes "./iscsi/" ++ iqn_string result.iqn) (codes "api/v2/iscsi") content
          (IscsiService.create ext cli cfg) url_path good keeps refl
          (_, split_kind (codes "iscsi") refl, refl)
          (λ req w m u b.
            linked req w (rw u (_, split_kind (codes "iscsi") refl, refl))
            ∙ rw (m, u, b) (runs content w ∙ rw decoded refl)))

  -- Creating through the client for NVMe-oF.
  pub create_nvmeof-ReportsCreated :
      (wire : Wire NvmeofConfig.ResourceConfig) (cfg : NvmeofConfig.ResourceConfig) (content : Text)
      → IsConnection wire codec.write_nvmeof
      → KeepsPaths wire c url_path
      → IsLinked ext codec cli mux unrouted c url_path
      → IsRouter (routes ext codec cli) mux
      → wire.encode cfg ≡ inr content
      → codec.read_nvmeof content ≡ some cfg
      → ReportsCreated (Nvmeof.create wire c cfg) (NvmeofService.create ext cli cfg)
  unfolding Nvmeof.create nvmeof_create calling given
  create_nvmeof-ReportsCreated wire cfg content good keeps linked router encoded decoded =
      let runs =
        (nvmeof_routes-Runs ext codec cli mux unrouted (codes "x") (codes "1") (refl, refl)
          (refl, refl) router).1 in
      rw encoded (
        do_post-ReportsCreated wire codec.write_nvmeof c "failed to create nvmeof resource: %v"
          (λ result. codes "./nvme-of/" ++ nqn_string result.nqn) (codes "api/v2/nvme-of") content
          (NvmeofService.create ext cli cfg) url_path good keeps refl
          (_, split_kind (codes "nvme-of") refl, refl)
          (λ req w m u b.
            linked req w (rw u (_, split_kind (codes "nvme-of") refl, refl))
            ∙ rw (m, u, b) (runs content w ∙ rw decoded refl)))

  -- Creating through the client for NFS.
  pub create_nfs-ReportsCreated :
      (wire : Wire NfsConfig.ResourceConfig) (cfg : NfsConfig.ResourceConfig) (content : Text)
      → IsConnection wire codec.write_nfs
      → KeepsPaths wire c url_path
      → IsLinked ext codec cli mux unrouted c url_path
      → IsRouter (routes ext codec cli) mux
      → wire.encode cfg ≡ inr content
      → codec.read_nfs content ≡ some cfg
      → ReportsCreated (Nfs.create wire c cfg) (NfsService.create ext cli cfg)
  unfolding Nfs.create nfs_create calling given
  create_nfs-ReportsCreated wire cfg content good keeps linked router encoded decoded =
      let runs =
        (nfs_routes-Runs ext codec cli mux unrouted (codes "x") (codes "1") (refl, refl)
          (refl, refl) router).1 in
      rw encoded (
        do_post-ReportsCreated wire codec.write_nfs c "failed to create nfs resource: %v"
          (λ result. codes "./nfs/" ++ result.name) (codes "api/v2/nfs") content
          (NfsService.create ext cli cfg) url_path good keeps refl
          (_, split_kind (codes "nfs") refl, refl)
          (λ req w m u b.
            linked req w (rw u (_, split_kind (codes "nfs") refl, refl))
            ∙ rw (m, u, b) (runs content w ∙ rw decoded refl)))
