-- ===== src/Rest/Routes/Reached/Nvmeof.antt =====
-- The requests for NVMe-oF targets.
use linstor_gateway.Base.{refl, true, false, Option, List, [], ◌∷◌, ◌++◌}
use linstor_gateway.Base.Text.{Text, Dict, codes, eq, split, has_prefix, lookup}
use linstor_gateway.External.{External}
use linstor_gateway.Linstor.{Client}
use linstor_gateway.Rest.Nvmeof.{
  nvmeof_get, nvmeof_create, nvmeof_list, nvmeof_start, nvmeof_stop, nvmeof_delete,
  nvmeof_add_volume,
}
use linstor_gateway.Rest.Routes.{
  Route, Handle, ServerCodec, iscsi_routes, nfs_routes, nvmeof_routes, routes,
}
use linstor_gateway.Rest.Routes.Router.{variable_name, fit, first_fit, IsRouter}
use linstor_gateway.Rest.Routes.Paths.{
  IsPart, split_kind, split_target, split_below, target_clean, below_clean,
}
use linstor_gateway.Rest.Routes.Reached.{Runs, serve_parts}

module _ (ext : External) {R : Type 0} (codec : ServerCodec R) {W : Type 0} (cli : Client W)
    (mux : List (Route (Handle W R)) → Text → Text → Option (Handle W R × Dict Text))
    (unrouted : Text → Text → R) where
  pub nvmeof_routes-Runs :
      (s t : Text)
      → IsPart s
      → IsPart t
      → IsRouter (routes ext codec cli) mux
      → Runs ext codec cli mux unrouted "GET"
          (codes "/api/v2/nvme-of")
          codec.write_nvmeof
          (λ body. nvmeof_list ext cli)
        × Runs ext codec cli mux unrouted "POST"
            (codes "/api/v2/nvme-of")
            codec.write_nvmeof
            (λ body. nvmeof_create ext cli (codec.read_nvmeof body))
        × Runs ext codec cli mux unrouted "GET"
            (codes "/api/v2/nvme-of/" ++ s)
            codec.write_nvmeof
            (λ body. nvmeof_get ext cli true s [])
        × Runs ext codec cli mux unrouted "DELETE"
            (codes "/api/v2/nvme-of/" ++ s)
            codec.write_nvmeof
            (λ body. nvmeof_delete ext cli true s [])
        × Runs ext codec cli mux unrouted "POST"
            (codes "/api/v2/nvme-of/" ++ (s ++ codes "/start"))
            codec.write_nvmeof
            (λ body. nvmeof_start ext cli s)
        × Runs ext codec cli mux unrouted "POST"
            (codes "/api/v2/nvme-of/" ++ (s ++ codes "/stop"))
            codec.write_nvmeof
            (λ body. nvmeof_stop ext cli s)
        × Runs ext codec cli mux unrouted "GET"
            (codes "/api/v2/nvme-of/" ++ (s ++ (b'/' ∷ t)))
            codec.write_nvmeof
            (λ body. nvmeof_get ext cli false s t)
        × Runs ext codec cli mux unrouted "PUT"
            (codes "/api/v2/nvme-of/" ++ (s ++ (b'/' ∷ t)))
            codec.write_nvmeof
            (λ body. nvmeof_add_volume ext cli s t (codec.read_volume body))
        × Runs ext codec cli mux unrouted "DELETE"
            (codes "/api/v2/nvme-of/" ++ (s ++ (b'/' ∷ t)))
            codec.write_nvmeof
            (λ body. nvmeof_delete ext cli false s t)
  unfolding routes iscsi_routes nfs_routes nvmeof_routes first_fit fit variable_name eq has_prefix
      split lookup
  nvmeof_routes-Runs [] t (e, h) p router = cc
  nvmeof_routes-Runs (c ∷ s) [] p (e, l) router = cc
  nvmeof_routes-Runs (c ∷ s) (d ∷ t) (e, h) (f, l) router = (
    λ body w.
        serve_parts ext codec cli mux unrouted "GET" (codes "/api/v2/nvme-of") _ _ body w router
          (split_kind (codes "nvme-of") refl) refl refl,
    λ body w.
        serve_parts ext codec cli mux unrouted "POST" (codes "/api/v2/nvme-of") _ _ body w router
          (split_kind (codes "nvme-of") refl) refl refl,
    λ body w.
        serve_parts ext codec cli mux unrouted "GET" (codes "/api/v2/nvme-of/" ++ (c ∷ s)) _ _ body
          w router (split_target (codes "nvme-of") (c ∷ s) refl h) (target_clean (c ∷ s) e) refl,
    λ body w.
        serve_parts ext codec cli mux unrouted "DELETE" (codes "/api/v2/nvme-of/" ++ (c ∷ s)) _ _
          body w router (split_target (codes "nvme-of") (c ∷ s) refl h) (target_clean (c ∷ s) e)
          refl,
    λ body w.
        serve_parts ext codec cli mux unrouted "POST"
          (codes "/api/v2/nvme-of/" ++ ((c ∷ s) ++ codes "/start")) _ _ body w router
          (split_below (codes "nvme-of") (c ∷ s) (codes "start") refl h refl)
          (below_clean (c ∷ s) (codes "start") e refl) refl,
    λ body w.
        serve_parts ext codec cli mux unrouted "POST"
          (codes "/api/v2/nvme-of/" ++ ((c ∷ s) ++ codes "/stop")) _ _ body w router
          (split_below (codes "nvme-of") (c ∷ s) (codes "stop") refl h refl)
          (below_clean (c ∷ s) (codes "stop") e refl) refl,
    λ body w.
        serve_parts ext codec cli mux unrouted "GET"
          (codes "/api/v2/nvme-of/" ++ ((c ∷ s) ++ (b'/' ∷ (d ∷ t)))) _ _ body w router
          (split_below (codes "nvme-of") (c ∷ s) (d ∷ t) refl h l) (below_clean (c ∷ s) (d ∷ t) e f)
          refl,
    λ body w.
        serve_parts ext codec cli mux unrouted "PUT"
          (codes "/api/v2/nvme-of/" ++ ((c ∷ s) ++ (b'/' ∷ (d ∷ t)))) _ _ body w router
          (split_below (codes "nvme-of") (c ∷ s) (d ∷ t) refl h l) (below_clean (c ∷ s) (d ∷ t) e f)
          refl,
    λ body w.
        serve_parts ext codec cli mux unrouted "DELETE"
          (codes "/api/v2/nvme-of/" ++ ((c ∷ s) ++ (b'/' ∷ (d ∷ t)))) _ _ body w router
          (split_below (codes "nvme-of") (c ∷ s) (d ∷ t) refl h l) (below_clean (c ∷ s) (d ∷ t) e f)
          refl,
  )
