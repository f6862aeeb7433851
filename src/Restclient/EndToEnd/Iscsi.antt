-- ===== src/Restclient/EndToEnd/Iscsi.antt =====
-- The calls for iSCSI targets.
use linstor_gateway.Base.{
  inl, inr, ℕ, ◌<◌, ◌^◌, ◌≡◌, refl, Option, none, some, List, ◌∷◌, ◌++◌, ◌⊎◌,
}
use linstor_gateway.Base.Int.{pos}
use linstor_gateway.Base.Outcome.{Error, ok}
use linstor_gateway.Base.Text.{Text, Dict, codes}
use linstor_gateway.Base.Decimal.{itoa}
use linstor_gateway.Base.Decimal.Laws.{atoi-itoa}
use linstor_gateway.External.{External}
use linstor_gateway.Linstor.{Client}
use linstor_gateway.Rest.{config_body, empty_body, on_result, calling, given}
use linstor_gateway.Rest.Iscsi.{with_iqn, iscsi_start, iscsi_stop, iscsi_delete}
use linstor_gateway.Rest.Routes.{Route, Handle, ServerCodec, routes}
use linstor_gateway.Rest.Routes.Router.{IsRouter}
use linstor_gateway.Rest.Routes.Paths.{below_path}
use linstor_gateway.Rest.Routes.Reached.Iscsi.{iscsi_routes-Runs}
use linstor_gateway.Iscsi.Iqn.{Iqn, new_iqn, iqn_string}
use linstor_gateway.Iscsi.ResourceConfig as IscsiConfig
use linstor_gateway.Iscsi.Service as IscsiService
use linstor_gateway.Restclient.Iscsi
use linstor_gateway.Restclient.{RestClient, HttpResponse, Wire}
use linstor_gateway.Restclient.Requests.{into_nil, discard, do_get, do_post, do_delete}
use linstor_gateway.Restclient.Served.{IsConnection, Reports, sent-Reports}
use linstor_gateway.Restclient.EndToEnd.{
  IsPlain, IsPlain-IsPart, below_plain, plain_path, itoa-IsPlain, KeepsPaths, IsLinked,
  Runs-Reaches,
}

module _ (ext : External) (codec : ServerCodec (Error ⊎ HttpResponse)) {W : Type 0} (cli : Client W)
    (mux : List (Route (Handle W (Error ⊎ HttpResponse)))
      → Text
      → Text
      → Option (Handle W (Error ⊎ HttpResponse) × Dict Text))
    (unrouted : Text → Text → Error ⊎ HttpResponse) (c : RestClient W)
    (url_path : Text → Text) where
  -- Where the requests of the client go to the server over a connection that carries statuses and
  -- JSON, and the router and net/url behave as documented, Start, Stop and DeleteLogicalUnit of
  -- the client for an iSCSI target, whose name is of plain bytes and is parsed, tell what the
  -- operation on the server returns: no error for a target, NotFoundError for none and the error
  -- of the server for an error. The cluster is left as the operation leaves it.
  pub iscsi-Reports :
      (wire : Wire IscsiConfig.ResourceConfig) (iqn : Iqn) (number : ℕ)
      → IsConnection wire codec.write_iscsi
      → KeepsPaths wire c url_path
      → IsLinked ext codec cli mux unrouted c url_path
      → IsRouter (routes ext codec cli) mux
      → IsPlain (iqn_string iqn)
      → new_iqn (iqn_string iqn) ≡ ok iqn
      → number < 2 ^ 63
      → Reports (Iscsi.start wire c iqn) (IscsiService.start ext cli iqn)
        × Reports (Iscsi.stop wire c iqn) (IscsiService.stop ext cli iqn)
        × Reports
            (Iscsi.delete_logical_unit wire c iqn (pos number))
            (IscsiService.delete_volume ext cli iqn (pos number))
  unfolding Iscsi.start Iscsi.stop Iscsi.delete_logical_unit do_get do_post do_delete iscsi_start
      iscsi_stop iscsi_delete with_iqn calling on_result given
  iscsi-Reports wire iqn number good keeps linked router n i small =
      let part = IsPlain-IsPart (iqn_string iqn) n in
      let runs =
        iscsi_routes-Runs ext codec cli mux unrouted (iqn_string iqn) (itoa (pos number)) part
          (IsPlain-IsPart (itoa (pos number)) (itoa-IsPlain number)) router in
      (
        sent-Reports wire codec.write_iscsi c (into_nil wire) none "failed to start target: %v"
            "no resource with iqn %s found" config_body (some (codes "./")) (codes "POST")
            (codes "/api/v2/iscsi/" ++ (iqn_string iqn ++ codes "/start"))
            (IscsiService.start ext cli iqn) _ good (λ text json. rw json refl)
            (Runs-Reaches ext codec cli mux unrouted c url_path wire codec.write_iscsi "POST"
              (codes "api/v2/iscsi/" ++ (iqn_string iqn ++ codes "/start")) _ linked keeps
              (inr (inl refl)) (below_plain (iqn_string iqn) (codes "/start") n.1 refl)
              (below_path (codes "iscsi") (iqn_string iqn) (codes "start") (refl, refl) part
                (refl, refl))
              runs.3)
            (λ w. rw i refl),
        sent-Reports wire codec.write_iscsi c (into_nil wire) none "failed to stop resource: %v"
            "no resource found for iqn %s" config_body (some (codes "./")) (codes "POST")
            (codes "/api/v2/iscsi/" ++ (iqn_string iqn ++ codes "/stop"))
            (IscsiService.stop ext cli iqn) _ good (λ text json. rw json refl)
            (Runs-Reaches ext codec cli mux unrouted c url_path wire codec.write_iscsi "POST"
              (codes "api/v2/iscsi/" ++ (iqn_string iqn ++ codes "/stop")) _ linked keeps
              (inr (inl refl)) (below_plain (iqn_string iqn) (codes "/stop") n.1 refl)
              (below_path (codes "iscsi") (iqn_string iqn) (codes "stop") (refl, refl) part
                (refl, refl))
              runs.4)
            (λ w. rw i refl),
        sent-Reports wire codec.write_iscsi c (discard wire) tt "error deleting volume: %v"
            "no resource found for iqn %s" (λ cfg. empty_body) none (codes "DELETE")
            (codes "/api/v2/iscsi/" ++ (iqn_string iqn ++ (b'/' ∷ itoa (pos number))))
            (IscsiService.delete_volume ext cli iqn (pos number)) _ good (λ text json. refl)
            (Runs-Reaches ext codec cli mux unrouted c url_path wire codec.write_iscsi "DELETE"
              (codes "api/v2/iscsi/" ++ (iqn_string iqn ++ (b'/' ∷ itoa (pos number)))) _ linked
              keeps (inr (inr (inr refl)))
              (below_plain (iqn_string iqn) (b'/' ∷ itoa (pos number)) n.1
                (plain_path (itoa (pos number)) (itoa-IsPlain number).1))
              (below_path (codes "iscsi") (iqn_string iqn) (itoa (pos number)) (refl, refl) part
                (IsPlain-IsPart (itoa (pos number)) (itoa-IsPlain number)))
              runs.7)
            (λ w. rw (i, atoi-itoa number small) refl),
      )
