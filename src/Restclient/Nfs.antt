-- ===== src/Restclient/Nfs.antt =====
-- client/nfs.go: the requests of the client for NFS exports.
use linstor_gateway.Base.{Option, none, some, List, [], ◌++◌}
use linstor_gateway.Base.Text.{Text, codes}
use linstor_gateway.Nfs.ResourceConfig.{ResourceConfig}
use linstor_gateway.Restclient.{Request, RestClient, Wire}
use linstor_gateway.Restclient.Requests.{into_nil, into_list, do_get, do_post, do_delete}

abbrev pub path_of : Text → Text
path_of name = codes "/api/v2/nfs/" ++ name

module _ (wire : Wire ResourceConfig) {W : Type 0} (c : RestClient W) where
  unfoldable pub get_all : Request W (List ResourceConfig)
  get_all = do_get wire c (codes "/api/v2/nfs") (into_list wire) []

  unfoldable pub create : ResourceConfig → Request W (Option ResourceConfig)
  create config =
      do_post wire c (codes "/api/v2/nfs") (some (wire.encode config)) (into_nil wire) none

  unfoldable pub get : Text → Request W (Option ResourceConfig)
  get name = do_get wire c (path_of name) (into_nil wire) none

  unfoldable pub delete : Text → Request W (Unit {0})
  delete name = do_delete wire c (path_of name)

  unfoldable pub start : Text → Request W (Option ResourceConfig)
  start name = do_post wire c (path_of name ++ codes "/start") none (into_nil wire) none

  unfoldable pub stop : Text → Request W (Option ResourceConfig)
  stop name = do_post wire c (path_of name ++ codes "/stop") none (into_nil wire) none
