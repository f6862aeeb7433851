-- ===== src/Tests/Restclient.antt =====
-- The REST client and the routes at concrete requests, over a connection that carries the status of
-- a response and the same body for each.
use linstor_gateway.Base.{
  refl, true, false, Option, none, some, List, [], ◌∷◌, ◌++◌, ◌⊎◌, inl, inr, ℕ, arith,
}
use linstor_gateway.Base.Int.{pos}
use linstor_gateway.Base.Outcome.{Error, message}
use linstor_gateway.Base.Text.{Text, Dict, codes, split}
use linstor_gateway.Rest.{Reply, done, crashed}
use linstor_gateway.Rest.Routes.{Route, Handle, ServerCodec, serve, routes}
use linstor_gateway.Rest.Routes.Router.{first_fit, IsRouter}
use linstor_gateway.Rest.Routes.Reached.{Runs, Unanswered}
use linstor_gateway.Rest.Routes.Reached.Iscsi.{iscsi_routes-Runs}
use linstor_gateway.Rest.Iscsi.{
  iscsi_get, iscsi_create, iscsi_list, iscsi_start, iscsi_stop, iscsi_delete, iscsi_add_volume,
}
use linstor_gateway.Restclient.{HttpResponse, RestClient, Wire}
use linstor_gateway.Restclient.Served.{IsConnection, Reports}
use linstor_gateway.Restclient.EndToEnd.{KeepsPaths, IsLinked, content_of}
use linstor_gateway.Restclient.EndToEnd.Calls.{calls-Report}
use linstor_gateway.Tests.Env.{toy}
use linstor_gateway.Tests.Cluster.{Cluster, linstor}
use linstor_gateway.Iscsi.Iqn.{Iqn, new_iqn, iqn_string, cut_last, is_authority, is_resource_name}
use linstor_gateway.Nvmeof.Nqn.{Nqn, new_nqn, nqn_string}
use linstor_gateway.Iscsi.ResourceConfig as IscsiConfig
use linstor_gateway.Nvmeof.ResourceConfig as NvmeofConfig
use linstor_gateway.Nfs.ResourceConfig as NfsConfig
use linstor_gateway.Iscsi.Service as IscsiService
use linstor_gateway.Nvmeof.Service as NvmeofService
use linstor_gateway.Nfs.Service as NfsService
use linstor_gateway.Restclient.Iscsi
use linstor_gateway.Restclient.Nvmeof
use linstor_gateway.Restclient.Nfs

abbrev pub status_or_ok : Option ℕ → ℕ
status_or_ok none = 200
status_or_ok (some code) = code

abbrev pub receive : {C : Type 0} → Reply C → Error ⊎ HttpResponse
receive (done out) = inr (record { status_code = status_or_ok out.status; body = codes "{}" })
receive crashed = inl (message "EOF")

abbrev pub codec : ServerCodec (Error ⊎ HttpResponse)
codec = record {
  read_iscsi = λ body. none;
  read_nvmeof = λ body. none;
  read_nfs = λ body. none;
  read_volume = λ body. none;
  write_status = receive;
  write_iscsi = receive;
  write_nvmeof = receive;
  write_nfs = receive;
}

abbrev pub R : Type 0
R = Error ⊎ HttpResponse

abbrev pub mux :
    List (Route (Handle Cluster R)) → Text → Text → Option (Handle Cluster R × Dict Text)
mux table method path = first_fit table method (split b'/' path)

pub mux-IsRouter : (table : List (Route (Handle Cluster R))) → IsRouter table mux
mux-IsRouter table method path clean = refl

abbrev pub unrouted : Text → Text → R
unrouted method path = inr (record { status_code = 404; body = codes "404 page not found" })

abbrev pub wire : {C : Type 0} → Wire C
wire = record {
  parse_url = λ path. inr path;
  resolve_reference = λ base path. path;
  check_request = λ method url. none;
  encode = λ cfg. inr (codes "{}");
  encode_volume = λ vol. inr (codes "{}");
  is_json = λ body. true;
  decode_list = λ body. ([], true);
  decode_error = λ body. some (record { code = []; message = [] });
}

abbrev pub same_path : Text → Text
same_path url = url

abbrev pub rest_client : RestClient Cluster
rest_client = record {
  http_client =
      λ req. serve toy codec linstor mux unrouted req.method req.url (content_of req.body);
  base_url = codes "http://localhost:8080";
  log = none;
}

pub receive-IsConnection : {C : Type 0} → IsConnection (wire {C = C}) receive
receive-IsConnection = record {
  aborted = (message "EOF", refl);
  delivered = λ code location body content. (codes "{}", refl, refl);
  explained = λ code format text content same. (record { code = []; message = [] }, refl);
}

pub wire-KeepsPaths : (C : Type 0) → KeepsPaths (wire {C = C}) rest_client same_path
wire-KeepsPaths C method path m plain clean = (b'/' ∷ path, refl, refl, refl)

pub rest_client-IsLinked : IsLinked toy codec linstor mux unrouted rest_client same_path
rest_client-IsLinked req w clean = refl

abbrev pub iqn : Iqn
iqn = record { authority = codes "iqn.2021-08.com.linbit"; wwn = codes "target1" }

abbrev pub nqn : Nqn
nqn = record { vendor = codes "linbit"; subsystem = codes "vol1" }

abbrev target1 : Text
target1 = codes "iqn.2021-08.com.linbit:target1"

abbrev number1 : Text
number1 = codes "1"

iscsi_routes-Runs_example :
    Runs toy codec linstor mux unrouted "GET"
      (codes "/api/v2/iscsi")
      codec.write_iscsi
      (λ body. iscsi_list toy linstor)
    × Runs toy codec linstor mux unrouted "POST"
        (codes "/api/v2/iscsi")
        codec.write_iscsi
        (λ body. iscsi_create toy linstor (codec.read_iscsi body))
    × Runs toy codec linstor mux unrouted "DELETE"
        (codes "/api/v2/iscsi/" ++ target1)
        codec.write_iscsi
        (λ body. iscsi_delete toy linstor true target1 [])
    × Runs toy codec linstor mux unrouted "POST"
        (codes "/api/v2/iscsi/" ++ (target1 ++ codes "/start"))
        codec.write_iscsi
        (λ body. iscsi_start toy linstor target1)
    × Runs toy codec linstor mux unrouted "POST"
        (codes "/api/v2/iscsi/" ++ (target1 ++ codes "/stop"))
        codec.write_iscsi
        (λ body. iscsi_stop toy linstor target1)
    × Runs toy codec linstor mux unrouted "GET"
        (codes "/api/v2/iscsi/" ++ (target1 ++ (b'/' ∷ number1)))
        codec.write_iscsi
        (λ body. iscsi_get toy linstor false target1 number1)
    × Runs toy codec linstor mux unrouted "PUT"
        (codes "/api/v2/iscsi/" ++ (target1 ++ (b'/' ∷ number1)))
        codec.write_iscsi
        (λ body. iscsi_add_volume toy linstor target1 number1 (codec.read_volume body))
    × Runs toy codec linstor mux unrouted "DELETE"
        (codes "/api/v2/iscsi/" ++ (target1 ++ (b'/' ∷ number1)))
        codec.write_iscsi
        (λ body. iscsi_delete toy linstor false target1 number1)
    × Unanswered toy codec linstor mux unrouted "GET" (codes "/api/v2/iscsi/" ++ target1)
iscsi_routes-Runs_example =
    iscsi_routes-Runs toy codec linstor mux unrouted target1 number1 (refl, refl) (refl, refl)
      (mux-IsRouter (routes toy codec linstor))

calls-Report_example :
    Reports (Iscsi.start wire rest_client iqn) (IscsiService.start toy linstor iqn)
    × Reports (Iscsi.stop wire rest_client iqn) (IscsiService.stop toy linstor iqn)
    × Reports
        (Iscsi.delete_logical_unit wire rest_client iqn (pos 1))
        (IscsiService.delete_volume toy linstor iqn (pos 1))
    × Reports (Nvmeof.get wire rest_client nqn) (NvmeofService.get toy linstor nqn)
    × Reports (Nvmeof.start wire rest_client nqn) (NvmeofService.start toy linstor nqn)
    × Reports (Nvmeof.stop wire rest_client nqn) (NvmeofService.stop toy linstor nqn)
    × Reports
        (Nvmeof.delete_volume wire rest_client nqn (pos 1))
        (NvmeofService.delete_volume toy linstor nqn (pos 1))
    × Reports (Nfs.get wire rest_client (codes "exp1")) (NfsService.get toy linstor (codes "exp1"))
    × Reports
        (Nfs.start wire rest_client (codes "exp1"))
        (NfsService.start toy linstor (codes "exp1"))
    × Reports
        (Nfs.stop wire rest_client (codes "exp1"))
        (NfsService.stop toy linstor (codes "exp1"))
unfolding new_iqn iqn_string cut_last is_authority is_resource_name new_nqn nqn_string split
calls-Report_example =
    calls-Report toy codec linstor mux unrouted rest_client same_path wire wire wire iqn nqn
      (codes "exp1") 1 receive-IsConnection receive-IsConnection receive-IsConnection
      (wire-KeepsPaths IscsiConfig.ResourceConfig) (wire-KeepsPaths NvmeofConfig.ResourceConfig)
      (wire-KeepsPaths NfsConfig.ResourceConfig) rest_client-IsLinked
      (mux-IsRouter (routes toy codec linstor)) (refl, refl) (refl, refl) (refl, refl) refl refl
      (omega arith)
