-- ===== src/Rest/Routes/Reached.antt =====
-- Which handlers the requests of the REST client reach.
pub mod Iscsi
pub mod Nfs
pub mod Nvmeof
use linstor_gateway.Base.{String, ◌≡◌, refl, true, false, Option, none, some, List, [], ◌∷◌, ◌++◌}
use linstor_gateway.Base.Text.{Text, Dict, codes, has_byte, is_empty, eq, split, has_prefix, lookup}
use linstor_gateway.External.{External}
use linstor_gateway.Linstor.{Client}
use linstor_gateway.Rest.{Handler, Reply}
use linstor_gateway.Rest.Iscsi.{
  iscsi_get, iscsi_create, iscsi_list, iscsi_start, iscsi_stop, iscsi_delete, iscsi_add_volume,
}
use linstor_gateway.Rest.Nvmeof.{
  nvmeof_get, nvmeof_create, nvmeof_list, nvmeof_start, nvmeof_stop, nvmeof_delete,
  nvmeof_add_volume,
}
use linstor_gateway.Rest.Nfs.{nfs_get, nfs_create, nfs_list, nfs_start, nfs_stop, nfs_delete}
use linstor_gateway.Rest.Routes.{
  Route, Handle, ServerCodec, writing, run_found, iscsi_routes, nfs_routes, nvmeof_routes, routes,
  serve,
}
use linstor_gateway.Rest.Routes.Router.{variable_name, fit, first_fit, IsRouter}
use linstor_gateway.Base.Lists.{all}
use linstor_gateway.Rest.Routes.Paths.{is_clean}

module _ (ext : External) {R : Type 0} (codec : ServerCodec R) {W : Type 0} (cli : Client W)
    (mux : List (Route (Handle W R)) → Text → Text → Option (Handle W R × Dict Text))
    (unrouted : Text → Text → R) where
  -- The server runs the handler for a request, and writes what it replies.
  abbrev pub Runs : {C : Type 0} → String → Text → (Reply C → R) → (Text → Handler W C) → Type 0
  Runs method path write handler =
      (body : Text) (w : W)
      → serve ext codec cli mux unrouted (codes method) path body w ≡ writing write (handler body) w

  -- The router answers the request itself.
  abbrev pub Unanswered : String → Text → Type 0
  Unanswered method path =
      (body : Text) (w : W)
      → serve ext codec cli mux unrouted (codes method) path body w
        ≡ (unrouted (codes method) path, w)

  pub serve_parts :
      (method : String) (path : Text) (parts : List Text) (found : Handle W R × Dict Text)
      (body : Text) (w : W)
      → IsRouter (routes ext codec cli) mux
      → split b'/' path ≡ [] ∷ parts
      → all is_clean parts ≡ true
      → first_fit (routes ext codec cli) (codes method) ([] ∷ parts) ≡ some found
      → serve ext codec cli mux unrouted (codes method) path body w ≡ found.0 found.1 body w
  unfolding serve run_found
  serve_parts method path parts found body w router divided clean fits =
      rw (router (codes method) path (parts, divided, clean), divided, fits) refl

  pub serve_none :
      (method : String) (path : Text) (parts : List Text)
      → IsRouter (routes ext codec cli) mux
      → split b'/' path ≡ [] ∷ parts
      → all is_clean parts ≡ true
      → first_fit (routes ext codec cli) (codes method) ([] ∷ parts) ≡ none
      → Unanswered method path
  unfolding serve run_found
  serve_none method path parts router divided clean fits body w =
      rw (router (codes method) path (parts, divided, clean), divided, fits) refl
