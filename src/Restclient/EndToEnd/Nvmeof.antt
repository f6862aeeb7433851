-- ===== src/Restclient/EndToEnd/Nvmeof.antt =====
-- The calls for NVMe-oF targets.
use linstor_gateway.Base.{
  inl, inr, ℕ, ◌<◌, ◌^◌, ◌≡◌, refl, Option, none, some, List, ◌∷◌, ◌++◌, ◌⊎◌,
}
use linstor_gateway.Base.Int.{pos}
use linstor_gateway.Base.Outcome.{Error, ok}
use linstor_gateway.Base.Text.{Text, Dict, codes}
use linstor_gateway.Base.Decimal.{itoa}
use linstor_gateway.Base.Decimal.Laws.{atoi-itoa}
use linstor_gateway.External.{External}
use linstor_gateway.Linstor.{Client}
use linstor_gateway.Rest.{config_body, empty_body, on_result, calling, given}
use linstor_gateway.Rest.Routes.{Route, Handle, ServerCodec, routes}
use linstor_gateway.Rest.Routes.Router.{IsRouter}
use linstor_gateway.Rest.Routes.Paths.{target_path, below_path}
use linstor_gateway.Rest.Routes.Reached.Nvmeof.{nvmeof_routes-Runs}
use linstor_gateway.Nvmeof.Nqn.{Nqn, new_nqn, nqn_string}
use linstor_gateway.Nvmeof.ResourceConfig as NvmeofConfig
use linstor_gateway.Nvmeof.Service as NvmeofService
use linstor_gateway.Rest.Nvmeof.{with_nqn, nvmeof_get, nvmeof_start, nvmeof_stop, nvmeof_delete}
use linstor_gateway.Restclient.Nvmeof
use linstor_gateway.Restclient.{RestClient, HttpResponse, Wire}
use linstor_gateway.Restclient.Requests.{into_nil, discard, do_get, do_post, do_delete}
use linstor_gateway.Restclient.Served.{IsConnection, Reports, sent-Reports}
use linstor_gateway.Restclient.EndToEnd.{
  IsPlain, IsPlain-IsPart, below_plain, plain_path, itoa-IsPlain, KeepsPaths, IsLinked,
  Runs-Reaches,
}

module _ (ext : External) (codec : ServerCodec (Error ⊎ HttpResponse)) {W : Type 0} (cli : Client W)
    (mux : List (Route (Handle W (Error ⊎ HttpResponse)))
      → Text
      → Text
      → Option (Handle W (Error ⊎ HttpResponse) × Dict Text))
    (unrouted : Text → Text → Error ⊎ HttpResponse) (c : RestClient W)
    (url_path : Text → Text) where
  -- Where the requests of the client go to the server over a connection that carries statuses and
  -- JSON, and the router and net/url behave as documented, Get, Start, Stop and DeleteVolume of
  -- the client for an NVMe-oF target, whose name is of plain bytes and is parsed, tell what the
  -- operation on the server returns: no error for a target, NotFoundError for none and the error
  -- of the server for an error. The cluster is left as the operation leaves it.
  pub nvmeof-Reports :
      (wire : Wire NvmeofConfig.ResourceConfig) (nqn : Nqn) (number : ℕ)
      → IsConnection wire codec.write_nvmeof
      → KeepsPaths wire c url_path
      → IsLinked ext codec cli mux unrouted c url_path
      → IsRouter (routes ext codec cli) mux
      → IsPlain (nqn_string nqn)
      → new_nqn (nqn_string nqn) ≡ ok nqn
      → number < 2 ^ 63
      → Reports (Nvmeof.get wire c nqn) (NvmeofService.get ext cli nqn)
        × Reports (Nvmeof.start wire c nqn) (NvmeofService.start ext cli nqn)
        × Reports (Nvmeof.stop wire c nqn) (NvmeofService.stop ext cli nqn)
        × Reports
            (Nvmeof.delete_volume wire c nqn (pos number))
            (NvmeofService.delete_volume ext cli nqn (pos number))
  unfolding Nvmeof.get Nvmeof.start Nvmeof.stop Nvmeof.delete_volume do_get do_post do_delete
      nvmeof_get nvmeof_start nvmeof_stop nvmeof_delete with_nqn calling on_result given
  nvmeof-Reports wire nqn number good keeps linked router n i small =
      let part = IsPlain-IsPart (nqn_string nqn) n in
      let runs =
        nvmeof_routes-Runs ext codec cli mux unrouted (nqn_string nqn) (itoa (pos number)) part
          (IsPlain-IsPart (itoa (pos number)) (itoa-IsPlain number)) router in
      (
        sent-Reports wire codec.write_nvmeof c (into_nil wire) none
            "failed to fetch resource status: %v" "no resource found for nqn %s" config_body none
            (codes "GET") (codes "/api/v2/nvme-of/" ++ nqn_string nqn)
            (NvmeofService.get ext cli nqn) _ good (λ text json. rw json refl)
            (Runs-Reaches ext codec cli mux unrouted c url_path wire codec.write_nvmeof "GET"
              (codes "api/v2/nvme-of/" ++ nqn_string nqn) _ linked keeps (inl refl)
              (plain_path (nqn_string nqn) n.1)
              (target_path (codes "nvme-of") (nqn_string nqn) (refl, refl) part) runs.2)
            (λ w. rw i refl),
        sent-Reports wire codec.write_nvmeof c (into_nil wire) none "failed to start resource: %v"
            "no resource found for nqn %s" config_body (some (codes "./")) (codes "POST")
            (codes "/api/v2/nvme-of/" ++ (nqn_string nqn ++ codes "/start"))
            (NvmeofService.start ext cli nqn) _ good (λ text json. rw json refl)
            (Runs-Reaches ext codec cli mux unrouted c url_path wire codec.write_nvmeof "POST"
              (codes "api/v2/nvme-of/" ++ (nqn_string nqn ++ codes "/start")) _ linked keeps
              (inr (inl refl)) (below_plain (nqn_string nqn) (codes "/start") n.1 refl)
              (below_path (codes "nvme-of") (nqn_string nqn) (codes "start") (refl, refl) part
                (refl, refl))
              runs.4)
            (λ w. rw i refl),
        sent-Reports wire codec.write_nvmeof c (into_nil wire) none "failed to stop resource: %v"
            "no resource found for nqn %s" config_body (some (codes "./")) (codes "POST")
            (codes "/api/v2/nvme-of/" ++ (nqn_string nqn ++ codes "/stop"))
            (NvmeofService.stop ext cli nqn) _ good (λ text json. rw json refl)
            (Runs-Reaches ext codec cli mux unrouted c url_path wire codec.write_nvmeof "POST"
              (codes "api/v2/nvme-of/" ++ (nqn_string nqn ++ codes "/stop")) _ linked keeps
              (inr (inl refl)) (below_plain (nqn_string nqn) (codes "/stop") n.1 refl)
              (below_path (codes "nvme-of") (nqn_string nqn) (codes "stop") (refl, refl) part
                (refl, refl))
              runs.5)
            (λ w. rw i refl),
        sent-Reports wire codec.write_nvmeof c (discard wire) tt "error deleting volume: %v"
            "no resource found for nqn %s" (λ cfg. empty_body) none (codes "DELETE")
            (codes "/api/v2/nvme-of/" ++ (nqn_string nqn ++ (b'/' ∷ itoa (pos number))))
            (NvmeofService.delete_volume ext cli nqn (pos number)) _ good (λ text json. refl)
            (Runs-Reaches ext codec cli mux unrouted c url_path wire codec.write_nvmeof "DELETE"
              (codes "api/v2/nvme-of/" ++ (nqn_string nqn ++ (b'/' ∷ itoa (pos number)))) _ linked
              keeps (inr (inr (inr refl)))
              (below_plain (nqn_string nqn) (b'/' ∷ itoa (pos number)) n.1
                (plain_path (itoa (pos number)) (itoa-IsPlain number).1))
              (below_path (codes "nvme-of") (nqn_string nqn) (itoa (pos number)) (refl, refl) part
                (IsPlain-IsPart (itoa (pos number)) (itoa-IsPlain number)))
              runs.8)
            (λ w. rw (i, atoi-itoa number small) refl),
      )
