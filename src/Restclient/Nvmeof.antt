-- ===== src/Restclient/Nvmeof.antt =====
-- client/nvmeof.go: the requests of the client for NVMe-oF targets.
use linstor_gateway.Base.{Option, none, some, List, [], ◌∷◌, ◌++◌}
use linstor_gateway.Base.Int.{ℤ}
use linstor_gateway.Base.Text.{Text, codes}
use linstor_gateway.Base.Decimal.{itoa}
use linstor_gateway.Common.Volume.{VolumeConfig}
use linstor_gateway.Nvmeof.Nqn.{Nqn, nqn_string}
use linstor_gateway.Nvmeof.ResourceConfig.{ResourceConfig}
use linstor_gateway.Restclient.{Request, RestClient, Wire}
use linstor_gateway.Restclient.Requests.{into_nil, into_list, do_get, do_post, do_put, do_delete}

abbrev pub path_of : Nqn → Text
path_of nqn = codes "/api/v2/nvme-of/" ++ nqn_string nqn

-- `fmt.Sprintf("/api/v2/nvme-of/%s/%d", ...)`
abbrev pub volume_path_of : Nqn → ℤ → Text
volume_path_of nqn number = path_of nqn ++ (b'/' ∷ itoa number)

module _ (wire : Wire ResourceConfig) {W : Type 0} (c : RestClient W) where
  unfoldable pub get_all : Request W (List ResourceConfig)
  get_all = do_get wire c (codes "/api/v2/nvme-of") (into_list wire) []

  unfoldable pub create : ResourceConfig → Request W (Option ResourceConfig)
  create config =
      do_post wire c (codes "/api/v2/nvme-of") (some (wire.encode config)) (into_nil wire) none

  unfoldable pub get : Nqn → Request W (Option ResourceConfig)
  get nqn = do_get wire c (path_of nqn) (into_nil wire) none

  unfoldable pub delete : Nqn → Request W (Unit {0})
  delete nqn = do_delete wire c (path_of nqn)

  unfoldable pub start : Nqn → Request W (Option ResourceConfig)
  start nqn = do_post wire c (path_of nqn ++ codes "/start") none (into_nil wire) none

  unfoldable pub stop : Nqn → Request W (Option ResourceConfig)
  stop nqn = do_post wire c (path_of nqn ++ codes "/stop") none (into_nil wire) none

  unfoldable pub get_volume : Nqn → ℤ → Request W (Option VolumeConfig)
  get_volume nqn lun = do_get wire c (volume_path_of nqn lun) (into_nil wire) none

  unfoldable pub add_volume : Nqn → VolumeConfig → Request W (Option VolumeConfig)
  add_volume nqn volume =
      do_put wire c (volume_path_of nqn volume.number) (some (wire.encode_volume volume))
        (into_nil wire) none

  unfoldable pub delete_volume : Nqn → ℤ → Request W (Unit {0})
  delete_volume nqn lun = do_delete wire c (volume_path_of nqn lun)
