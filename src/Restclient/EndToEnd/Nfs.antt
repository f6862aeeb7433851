-- ===== src/Restclient/EndToEnd/Nfs.antt =====
-- The calls for NFS exports.
use linstor_gateway.Base.{inl, inr, refl, Option, none, some, List, ◌++◌, ◌⊎◌}
use linstor_gateway.Base.Outcome.{Error}
use linstor_gateway.Base.Text.{Text, Dict, codes}
use linstor_gateway.External.{External}
use linstor_gateway.Linstor.{Client}
use linstor_gateway.Rest.{config_body, on_result, calling, given}
use linstor_gateway.Rest.Routes.{Route, Handle, ServerCodec, routes}
use linstor_gateway.Rest.Routes.Router.{IsRouter}
use linstor_gateway.Rest.Routes.Paths.{target_path, below_path}
use linstor_gateway.Rest.Routes.Reached.Nfs.{nfs_routes-Runs}
use linstor_gateway.Nfs.ResourceConfig as NfsConfig
use linstor_gateway.Nfs.Service as NfsService
use linstor_gateway.Rest.Nfs.{nfs_get, nfs_start, nfs_stop}
use linstor_gateway.Restclient.Nfs
use linstor_gateway.Restclient.{RestClient, HttpResponse, Wire}
use linstor_gateway.Restclient.Requests.{into_nil, do_get, do_post, do_delete}
use linstor_gateway.Restclient.Served.{IsConnection, Reports, sent-Reports}
use linstor_gateway.Restclient.EndToEnd.{
  IsPlain, IsPlain-IsPart, below_plain, plain_path, KeepsPaths, IsLinked, Runs-Reaches,
}

module _ (ext : External) (codec : ServerCodec (Error ⊎ HttpResponse)) {W : Type 0} (cli : Client W)
    (mux : List (Route (Handle W (Error ⊎ HttpResponse)))
      → Text
      → Text
      → Option (Handle W (Error ⊎ HttpResponse) × Dict Text))
    (unrouted : Text → Text → Error ⊎ HttpResponse) (c : RestClient W)
    (url_path : Text → Text) where
  -- Where the requests of the client go to the server over a connection that carries statuses and
  -- JSON, and the router and net/url behave as documented, Get, Start and Stop of the client for
  -- an NFS export, whose name is of plain bytes, tell what the operation on the server returns:
  -- no error for a target, NotFoundError for none and the error of the server for an error. The
  -- cluster is left as the operation leaves it.
  pub nfs-Reports :
      (wire : Wire NfsConfig.ResourceConfig) (name : Text)
      → IsConnection wire codec.write_nfs
      → KeepsPaths wire c url_path
      → IsLinked ext codec cli mux unrouted c url_path
      → IsRouter (routes ext codec cli) mux
      → IsPlain (name)
      → Reports (Nfs.get wire c name) (NfsService.get ext cli name)
        × Reports (Nfs.start wire c name) (NfsService.start ext cli name)
        × Reports (Nfs.stop wire c name) (NfsService.stop ext cli name)
  unfolding Nfs.get Nfs.start Nfs.stop do_get do_post do_delete nfs_get nfs_start nfs_stop calling
      on_result given
  nfs-Reports wire name good keeps linked router n =
      let part = IsPlain-IsPart name n in
      let runs =
        nfs_routes-Runs ext codec cli mux unrouted (name) (codes "1") part ((refl, refl)) router in
      (
        sent-Reports wire codec.write_nfs c (into_nil wire) none
            "failed to fetch resource status: %v" "no resource found" config_body none (codes "GET")
            (codes "/api/v2/nfs/" ++ name) (NfsService.get ext cli name) _ good
            (λ text json. rw json refl)
            (Runs-Reaches ext codec cli mux unrouted c url_path wire codec.write_nfs "GET"
              (codes "api/v2/nfs/" ++ name) _ linked keeps (inl refl) (plain_path (name) n.1)
              (target_path (codes "nfs") (name) (refl, refl) part) runs.2)
            (λ w. refl),
        sent-Reports wire codec.write_nfs c (into_nil wire) none "failed to start export: %v"
            "no resource found" config_body (some (codes "./")) (codes "POST")
            (codes "/api/v2/nfs/" ++ (name ++ codes "/start")) (NfsService.start ext cli name) _
            good (λ text json. rw json refl)
            (Runs-Reaches ext codec cli mux unrouted c url_path wire codec.write_nfs "POST"
              (codes "api/v2/nfs/" ++ (name ++ codes "/start")) _ linked keeps (inr (inl refl))
              (below_plain (name) (codes "/start") n.1 refl)
              (below_path (codes "nfs") (name) (codes "start") (refl, refl) part (refl, refl))
              runs.4)
            (λ w. refl),
        sent-Reports wire codec.write_nfs c (into_nil wire) none "failed to stop export: %v"
            "no resource found" config_body (some (codes "./")) (codes "POST")
            (codes "/api/v2/nfs/" ++ (name ++ codes "/stop")) (NfsService.stop ext cli name) _ good
            (λ text json. rw json refl)
            (Runs-Reaches ext codec cli mux unrouted c url_path wire codec.write_nfs "POST"
              (codes "api/v2/nfs/" ++ (name ++ codes "/stop")) _ linked keeps (inr (inl refl))
              (below_plain (name) (codes "/stop") n.1 refl)
              (below_path (codes "nfs") (name) (codes "stop") (refl, refl) part (refl, refl))
              runs.5)
            (λ w. refl),
      )
