-- ===== src/Rest/Routes.antt =====
-- pkg/rest/routes.go: the table of routes. The router of gorilla/mux is a parameter: it gets the
-- routes in the order in which they are added, and finds the one for a request.
pub mod Router
pub mod Paths
pub mod Reached
use linstor_gateway.Base.{String, true, false, Option, none, some, List, [], ◌∷◌, ◌++◌}
use linstor_gateway.Base.Text.{Text, Dict, codes, attribute}
use linstor_gateway.External.{External}
use linstor_gateway.Linstor.{Client}
use linstor_gateway.Common.Volume.{VolumeConfig}
use linstor_gateway.Iscsi.ResourceConfig as IscsiConfig
use linstor_gateway.Nvmeof.ResourceConfig as NvmeofConfig
use linstor_gateway.Nfs.ResourceConfig as NfsConfig
use linstor_gateway.Rest.{Reply, Handler, api_status}
use linstor_gateway.Rest.Iscsi.{
  iscsi_get, iscsi_create, iscsi_list, iscsi_start, iscsi_stop, iscsi_delete, iscsi_add_volume,
}
use linstor_gateway.Rest.Nvmeof.{
  nvmeof_get, nvmeof_create, nvmeof_list, nvmeof_start, nvmeof_stop, nvmeof_delete,
  nvmeof_add_volume,
}
use linstor_gateway.Rest.Nfs.{nfs_get, nfs_create, nfs_list, nfs_start, nfs_stop, nfs_delete}

-- `HandleFunc(path, handler).Methods(method)` on a subrouter for a prefix.
pub record Route (H : Type 0) : Type 0 where
  pub prefix : Text
  pub path : Text
  pub method : Text
  pub handler : H

-- A handler with the variables of the route, from `mux.Vars`, and the body of the request.
abbrev pub Handle : Type 0 → Type 0 → Type 0
Handle W R = Dict Text → Text → W → R × W

-- The JSON decoder for the bodies of requests, and what the connection makes of the replies.
pub record ServerCodec (R : Type 0) : Type 0 where
  pub read_iscsi : Text → Option IscsiConfig.ResourceConfig
  pub read_nvmeof : Text → Option NvmeofConfig.ResourceConfig
  pub read_nfs : Text → Option NfsConfig.ResourceConfig
  pub read_volume : Text → Option VolumeConfig
  pub write_status : Reply (Unit {0}) → R
  pub write_iscsi : Reply IscsiConfig.ResourceConfig → R
  pub write_nvmeof : Reply NvmeofConfig.ResourceConfig → R
  pub write_nfs : Reply NfsConfig.ResourceConfig → R

abbrev pub writing : {W C R : Type 0} → (Reply C → R) → Handler W C → W → R × W
writing write handler w = let (reply, w') = handler w in (write reply, w')

unfoldable pub run_found : {W R : Type 0} → R → Text → Option (Handle W R × Dict Text) → W → R × W
run_found unrouted body none w = (unrouted, w)
run_found unrouted body (some (handler, vars)) w = handler vars body w

abbrev route : {H : Type 0} → String → String → String → H → Route H
route under path method handler = record {
  prefix = codes "/api/v2" ++ codes under;
  path = codes path;
  method = codes method;
  handler = handler;
}

module _ (ext : External) {R : Type 0} (codec : ServerCodec R) {W : Type 0} (cli : Client W) where
  -- The routes under `PathPrefix("/iscsi")`.
  unfoldable pub iscsi_routes : List (Route (Handle W R))
  iscsi_routes =
      route "/iscsi" "" "GET" (λ vars body. writing codec.write_iscsi (iscsi_list ext cli))
      ∷ route "/iscsi" "" "POST"
          (λ vars body. writing codec.write_iscsi (iscsi_create ext cli (codec.read_iscsi body)))
      ∷ route "/iscsi" "({iqn}" "GET" (λ vars body.
        writing codec.write_iscsi
          (iscsi_get ext cli true (attribute (codes "iqn") vars) (attribute (codes "lun") vars)))
      ∷ route "/iscsi" "/{iqn}" "DELETE" (λ vars body.
        writing codec.write_iscsi
          (iscsi_delete ext cli true (attribute (codes "iqn") vars) (attribute (codes "lun") vars)))
      ∷ route "/iscsi" "/{iqn}/start" "POST" (λ vars body.
        writing codec.write_iscsi (iscsi_start ext cli (attribute (codes "iqn") vars)))
      ∷ route "/iscsi" "/{iqn}/stop" "POST" (λ vars body.
        writing codec.write_iscsi (iscsi_stop ext cli (attribute (codes "iqn") vars)))
      ∷ route "/iscsi" "/{iqn}/{lun}" "GET" (λ vars body.
        writing codec.write_iscsi
          (iscsi_get ext cli false (attribute (codes "iqn") vars) (attribute (codes "lun") vars)))
      ∷ route "/iscsi" "/{iqn}/{lun}" "PUT" (λ vars body. writing codec.write_iscsi (
          iscsi_add_volume ext cli (attribute (codes "iqn") vars) (attribute (codes "lun") vars)
            (codec.read_volume body)))
      ∷ route "/iscsi" "/{iqn}/{lun}" "DELETE" (λ vars body.
        writing codec.write_iscsi (
          iscsi_delete ext cli false (attribute (codes "iqn") vars) (attribute (codes "lun") vars)))
      ∷ []

  -- The routes under `PathPrefix("/nfs")`.
  unfoldable pub nfs_routes : List (Route (Handle W R))
  nfs_routes =
      route "/nfs" "" "GET" (λ vars body. writing codec.write_nfs (nfs_list ext cli))
      ∷ route "/nfs" "" "POST"
          (λ vars body. writing codec.write_nfs (nfs_create ext cli (codec.read_nfs body)))
      ∷ route "/nfs" "/{resource}" "GET" (λ vars body.
        writing codec.write_nfs
          (nfs_get ext cli true (attribute (codes "resource") vars) (attribute (codes "id") vars)))
      ∷ route "/nfs" "/{resource}" "DELETE" (λ vars body.
        writing codec.write_nfs (
          nfs_delete ext cli true (attribute (codes "resource") vars)
            (attribute (codes "id") vars)))
      ∷ route "/nfs" "/{resource}/start" "POST" (λ vars body.
        writing codec.write_nfs (nfs_start ext cli (attribute (codes "resource") vars)))
      ∷ route "/nfs" "/{resource}/stop" "POST" (λ vars body.
        writing codec.write_nfs (nfs_stop ext cli (attribute (codes "resource") vars)))
      ∷ route "/nfs" "/{resource}/{id}" "GET" (λ vars body.
        writing codec.write_nfs
          (nfs_get ext cli false (attribute (codes "resource") vars) (attribute (codes "id") vars)))
      ∷ route "/nfs" "/{resource}/{id}" "DELETE" (λ vars body. writing codec.write_nfs (
          nfs_delete ext cli false (attribute (codes "resource") vars)
            (attribute (codes "id") vars)))
      ∷ []

  -- The routes under `PathPrefix("/nvme-of")`.
  unfoldable pub nvmeof_routes : List (Route (Handle W R))
  nvmeof_routes =
      route "/nvme-of" "" "GET" (λ vars body. writing codec.write_nvmeof (nvmeof_list ext cli))
      ∷ route "/nvme-of" "" "POST"
          (λ vars body. writing codec.write_nvmeof (nvmeof_create ext cli (codec.read_nvmeof body)))
      ∷ route "/nvme-of" "/{nqn}" "GET" (λ vars body.
        writing codec.write_nvmeof
          (nvmeof_get ext cli true (attribute (codes "nqn") vars) (attribute (codes "nsid") vars)))
      ∷ route "/nvme-of" "/{nqn}" "DELETE" (λ vars body.
        writing codec.write_nvmeof (
          nvmeof_delete ext cli true (attribute (codes "nqn") vars)
            (attribute (codes "nsid") vars)))
      ∷ route "/nvme-of" "/{nqn}/start" "POST" (λ vars body.
        writing codec.write_nvmeof (nvmeof_start ext cli (attribute (codes "nqn") vars)))
      ∷ route "/nvme-of" "/{nqn}/stop" "POST" (λ vars body.
        writing codec.write_nvmeof (nvmeof_stop ext cli (attribute (codes "nqn") vars)))
      ∷ route "/nvme-of" "/{nqn}/{nsid}" "GET" (λ vars body.
        writing codec.write_nvmeof
          (nvmeof_get ext cli false (attribute (codes "nqn") vars) (attribute (codes "nsid") vars)))
      ∷ route "/nvme-of" "/{nqn}/{nsid}" "PUT" (λ vars body. writing codec.write_nvmeof (
          nvmeof_add_volume ext cli (attribute (codes "nqn") vars) (attribute (codes "nsid") vars)
            (codec.read_volume body)))
      ∷ route "/nvme-of" "/{nqn}/{nsid}" "DELETE" (λ vars body. writing codec.write_nvmeof (
          nvmeof_delete ext cli false (attribute (codes "nqn") vars)
            (attribute (codes "nsid") vars)))
      ∷ []

  unfoldable pub routes : List (Route (Handle W R))
  unfolding iscsi_routes nfs_routes nvmeof_routes
  routes =
      route "" "/status" "GET" (λ vars body. writing codec.write_status api_status) ∷ iscsi_routes
      ++ nfs_routes
      ++ nvmeof_routes

  -- The server: the router finds a route and the variables in it, or answers the request itself.
  module _ (mux : List (Route (Handle W R)) → Text → Text → Option (Handle W R × Dict Text))
      (unrouted : Text → Text → R) where
    unfoldable pub serve : Text → Text → Text → W → R × W
    unfolding run_found
    serve method path body = run_found (unrouted method path) body (mux routes method path)
