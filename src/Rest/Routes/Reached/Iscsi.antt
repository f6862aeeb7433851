-- ===== src/Rest/Routes/Reached/Iscsi.antt =====
-- The requests for iSCSI targets.
use linstor_gateway.Base.{refl, true, false, Option, List, [], ◌∷◌, ◌++◌}
use linstor_gateway.Base.Text.{Text, Dict, codes, eq, split, has_prefix, lookup}
use linstor_gateway.External.{External}
use linstor_gateway.Linstor.{Client}
use linstor_gateway.Rest.Iscsi.{
  iscsi_get, iscsi_create, iscsi_list, iscsi_start, iscsi_stop, iscsi_delete, iscsi_add_volume,
}
use linstor_gateway.Rest.Routes.{
  Route, Handle, ServerCodec, iscsi_routes, nfs_routes, nvmeof_routes, routes,
}
use linstor_gateway.Rest.Routes.Router.{variable_name, fit, first_fit, IsRouter}
use linstor_gateway.Rest.Routes.Paths.{
  IsPart, split_kind, split_target, split_below, target_clean, below_clean,
}
use linstor_gateway.Rest.Routes.Reached.{Runs, Unanswered, serve_parts, serve_none}

module _ (ext : External) {R : Type 0} (codec : ServerCodec R) {W : Type 0} (cli : Client W)
    (mux : List (Route (Handle W R)) → Text → Text → Option (Handle W R × Dict Text))
    (unrouted : Text → Text → R) where
  -- If the router behaves as documented on the table of routes, each request for iSCSI targets, with
  -- names and numbers that hold no slash and are neither empty nor `.` or `..`, runs the handler of
  -- its operation with them, but GET of a whole target runs none: the router answers it itself.
  pub iscsi_routes-Runs :
      (s t : Text)
      → IsPart s
      → IsPart t
      → IsRouter (routes ext codec cli) mux
      → Runs ext codec cli mux unrouted "GET"
          (codes "/api/v2/iscsi")
          codec.write_iscsi
          (λ body. iscsi_list ext cli)
        × Runs ext codec cli mux unrouted "POST"
            (codes "/api/v2/iscsi")
            codec.write_iscsi
            (λ body. iscsi_create ext cli (codec.read_iscsi body))
        × Runs ext codec cli mux unrouted "DELETE"
            (codes "/api/v2/iscsi/" ++ s)
            codec.write_iscsi
            (λ body. iscsi_delete ext cli true s [])
        × Runs ext codec cli mux unrouted "POST"
            (codes "/api/v2/iscsi/" ++ (s ++ codes "/start"))
            codec.write_iscsi
            (λ body. iscsi_start ext cli s)
        × Runs ext codec cli mux unrouted "POST"
            (codes "/api/v2/iscsi/" ++ (s ++ codes "/stop"))
            codec.write_iscsi
            (λ body. iscsi_stop ext cli s)
        × Runs ext codec cli mux unrouted "GET"
            (codes "/api/v2/iscsi/" ++ (s ++ (b'/' ∷ t)))
            codec.write_iscsi
            (λ body. iscsi_get ext cli false s t)
        × Runs ext codec cli mux unrouted "PUT"
            (codes "/api/v2/iscsi/" ++ (s ++ (b'/' ∷ t)))
            codec.write_iscsi
            (λ body. iscsi_add_volume ext cli s t (codec.read_volume body))
        × Runs ext codec cli mux unrouted "DELETE"
            (codes "/api/v2/iscsi/" ++ (s ++ (b'/' ∷ t)))
            codec.write_iscsi
            (λ body. iscsi_delete ext cli false s t)
        × Unanswered ext codec cli mux unrouted "GET" (codes "/api/v2/iscsi/" ++ s)
  unfolding routes iscsi_routes nfs_routes nvmeof_routes first_fit fit variable_name eq has_prefix
      split lookup
  iscsi_routes-Runs [] t (e, h) p router = cc
  iscsi_routes-Runs (c ∷ s) [] p (e, l) router = cc
  iscsi_routes-Runs (c ∷ s) (d ∷ t) (e, h) (f, l) router = (
    λ body w.
        serve_parts ext codec cli mux unrouted "GET" (codes "/api/v2/iscsi") _ _ body w router
          (split_kind (codes "iscsi") refl) refl refl,
    λ body w.
        serve_parts ext codec cli mux unrouted "POST" (codes "/api/v2/iscsi") _ _ body w router
          (split_kind (codes "iscsi") refl) refl refl,
    λ body w.
        serve_parts ext codec cli mux unrouted "DELETE" (codes "/api/v2/iscsi/" ++ (c ∷ s)) _ _ body
          w router (split_target (codes "iscsi") (c ∷ s) refl h) (target_clean (c ∷ s) e) refl,
    λ body w.
        serve_parts ext codec cli mux unrouted "POST"
          (codes "/api/v2/iscsi/" ++ ((c ∷ s) ++ codes "/start")) _ _ body w router
          (split_below (codes "iscsi") (c ∷ s) (codes "start") refl h refl)
          (below_clean (c ∷ s) (codes "start") e refl) refl,
    λ body w.
        serve_parts ext codec cli mux unrouted "POST"
          (codes "/api/v2/iscsi/" ++ ((c ∷ s) ++ codes "/stop")) _ _ body w router
          (split_below (codes "iscsi") (c ∷ s) (codes "stop") refl h refl)
          (below_clean (c ∷ s) (codes "stop") e refl) refl,
    λ body w.
        serve_parts ext codec cli mux unrouted "GET"
          (codes "/api/v2/iscsi/" ++ ((c ∷ s) ++ (b'/' ∷ (d ∷ t)))) _ _ body w router
          (split_below (codes "iscsi") (c ∷ s) (d ∷ t) refl h l) (below_clean (c ∷ s) (d ∷ t) e f)
          refl,
    λ body w.
        serve_parts ext codec cli mux unrouted "PUT"
          (codes "/api/v2/iscsi/" ++ ((c ∷ s) ++ (b'/' ∷ (d ∷ t)))) _ _ body w router
          (split_below (codes "iscsi") (c ∷ s) (d ∷ t) refl h l) (below_clean (c ∷ s) (d ∷ t) e f)
          refl,
    λ body w.
        serve_parts ext codec cli mux unrouted "DELETE"
          (codes "/api/v2/iscsi/" ++ ((c ∷ s) ++ (b'/' ∷ (d ∷ t)))) _ _ body w router
          (split_below (codes "iscsi") (c ∷ s) (d ∷ t) refl h l) (below_clean (c ∷ s) (d ∷ t) e f)
          refl,
    λ body w.
        serve_none ext codec cli mux unrouted "GET" (codes "/api/v2/iscsi/" ++ (c ∷ s)) _ router
          (split_target (codes "iscsi") (c ∷ s) refl h) (target_clean (c ∷ s) e) refl body w,
  )
