-- ===== src/Restclient/EndToEnd/Calls.antt =====
-- The calls for all three kinds of target.
use linstor_gateway.Base.{ℕ, ◌<◌, ◌^◌, ◌≡◌, Option, List, ◌⊎◌}
use linstor_gateway.Base.Int.{pos}
use linstor_gateway.Base.Outcome.{Error, ok}
use linstor_gateway.Base.Text.{Text, Dict}
use linstor_gateway.External.{External}
use linstor_gateway.Linstor.{Client}
use linstor_gateway.Iscsi.Iqn.{Iqn, new_iqn, iqn_string}
use linstor_gateway.Nvmeof.Nqn.{Nqn, new_nqn, nqn_string}
use linstor_gateway.Iscsi.ResourceConfig as IscsiConfig
use linstor_gateway.Nvmeof.ResourceConfig as NvmeofConfig
use linstor_gateway.Nfs.ResourceConfig as NfsConfig
use linstor_gateway.Iscsi.Service as IscsiService
use linstor_gateway.Nvmeof.Service as NvmeofService
use linstor_gateway.Nfs.Service as NfsService
use linstor_gateway.Rest.Routes.{Route, Handle, ServerCodec, routes}
use linstor_gateway.Rest.Routes.Router.{IsRouter}
use linstor_gateway.Restclient.Iscsi
use linstor_gateway.Restclient.Nvmeof
use linstor_gateway.Restclient.Nfs
use linstor_gateway.Restclient.{RestClient, HttpResponse, Wire}
use linstor_gateway.Restclient.Served.{IsConnection, Reports}
use linstor_gateway.Restclient.EndToEnd.{IsPlain, KeepsPaths, IsLinked}
use linstor_gateway.Restclient.EndToEnd.Iscsi.{iscsi-Reports}
use linstor_gateway.Restclient.EndToEnd.Nvmeof.{nvmeof-Reports}
use linstor_gateway.Restclient.EndToEnd.Nfs.{nfs-Reports}

module _ (ext : External) (codec : ServerCodec (Error ⊎ HttpResponse)) {W : Type 0} (cli : Client W)
    (mux : List (Route (Handle W (Error ⊎ HttpResponse)))
      → Text
      → Text
      → Option (Handle W (Error ⊎ HttpResponse) × Dict Text))
    (unrouted : Text → Text → Error ⊎ HttpResponse) (c : RestClient W)
    (url_path : Text → Text) where
  -- Where the requests of the client go to the server over a connection that carries the statuses of
  -- its replies and JSON, the router behaves as documented on the table of routes, and net/url on clean
  -- paths of plain bytes, these calls of the client for targets whose names are of plain bytes, neither
  -- `.` nor `..`, and are parsed tell what the operation on the server returns: no error for a target,
  -- NotFoundError for none and the error of the server for an error. The cluster is left as the
  -- operation leaves it. The calls are Start and Stop, Get but for iSCSI, and those that delete one
  -- volume of an iSCSI or NVMe-oF target.
  pub calls-Report :
      (iscsi : Wire IscsiConfig.ResourceConfig) (nvmeof : Wire NvmeofConfig.ResourceConfig)
      (nfs : Wire NfsConfig.ResourceConfig) (iqn : Iqn) (nqn : Nqn) (name : Text) (number : ℕ)
      → IsConnection iscsi codec.write_iscsi
      → IsConnection nvmeof codec.write_nvmeof
      → IsConnection nfs codec.write_nfs
      → KeepsPaths iscsi c url_path
      → KeepsPaths nvmeof c url_path
      → KeepsPaths nfs c url_path
      → IsLinked ext codec cli mux unrouted c url_path
      → IsRouter (routes ext codec cli) mux
      → IsPlain (iqn_string iqn)
      → IsPlain (nqn_string nqn)
      → IsPlain name
      → new_iqn (iqn_string iqn) ≡ ok iqn
      → new_nqn (nqn_string nqn) ≡ ok nqn
      → number < 2 ^ 63
      → Reports (Iscsi.start iscsi c iqn) (IscsiService.start ext cli iqn)
        × Reports (Iscsi.stop iscsi c iqn) (IscsiService.stop ext cli iqn)
        × Reports
            (Iscsi.delete_logical_unit iscsi c iqn (pos number))
            (IscsiService.delete_volume ext cli iqn (pos number))
        × Reports (Nvmeof.get nvmeof c nqn) (NvmeofService.get ext cli nqn)
        × Reports (Nvmeof.start nvmeof c nqn) (NvmeofService.start ext cli nqn)
        × Reports (Nvmeof.stop nvmeof c nqn) (NvmeofService.stop ext cli nqn)
        × Reports
            (Nvmeof.delete_volume nvmeof c nqn (pos number))
            (NvmeofService.delete_volume ext cli nqn (pos number))
        × Reports (Nfs.get nfs c name) (NfsService.get ext cli name)
        × Reports (Nfs.start nfs c name) (NfsService.start ext cli name)
        × Reports (Nfs.stop nfs c name) (NfsService.stop ext cli name)
  calls-Report iscsi nvmeof nfs iqn nqn name number gi gn gf ki kn kf linked router pi pn pf i n
        small =
      let a =
        iscsi-Reports ext codec cli mux unrouted c url_path iscsi iqn number gi ki linked router pi
          i small in
      let b =
        nvmeof-Reports ext codec cli mux unrouted c url_path nvmeof nqn number gn kn linked router
          pn n small in
      let d = nfs-Reports ext codec cli mux unrouted c url_path nfs name gf kf linked router pf in
      (a.0, a.1, a.2, b.0, b.1, b.2, b.3, d.0, d.1, d.2)
