-- ===== src/Restclient/Iscsi.antt =====
-- client/iscsi.go: the requests of the client for iSCSI targets.
use linstor_gateway.Base.{Option, none, some, List, [], ◌∷◌, ◌++◌}
use linstor_gateway.Base.Int.{ℤ}
use linstor_gateway.Base.Text.{Text, codes}
use linstor_gateway.Base.Decimal.{itoa}
use linstor_gateway.Common.Volume.{VolumeConfig}
use linstor_gateway.Iscsi.Iqn.{Iqn, iqn_string}
use linstor_gateway.Iscsi.ResourceConfig.{ResourceConfig}
use linstor_gateway.Restclient.{Request, RestClient, Wire}
use linstor_gateway.Restclient.Requests.{into_nil, into_list, do_get, do_post, do_put, do_delete}

abbrev pub path_of : Iqn → Text
path_of iqn = codes "/api/v2/iscsi/" ++ iqn_string iqn

-- `fmt.Sprintf("/api/v2/iscsi/%s/%d", ...)`
abbrev pub volume_path_of : Iqn → ℤ → Text
volume_path_of iqn number = path_of iqn ++ (b'/' ∷ itoa number)

module _ (wire : Wire ResourceConfig) {W : Type 0} (c : RestClient W) where
  unfoldable pub get_all : Request W (List ResourceConfig)
  get_all = do_get wire c (codes "/api/v2/iscsi") (into_list wire) []

  unfoldable pub create : ResourceConfig → Request W (Option ResourceConfig)
  create config =
      do_post wire c (codes "/api/v2/iscsi") (some (wire.encode config)) (into_nil wire) none

  unfoldable pub get : Iqn → Request W (Option ResourceConfig)
  get iqn = do_get wire c (path_of iqn) (into_nil wire) none

  unfoldable pub delete : Iqn → Request W (Unit {0})
  delete iqn = do_delete wire c (path_of iqn)

  unfoldable pub start : Iqn → Request W (Option ResourceConfig)
  start iqn = do_post wire c (path_of iqn ++ codes "/start") none (into_nil wire) none

  unfoldable pub stop : Iqn → Request W (Option ResourceConfig)
  stop iqn = do_post wire c (path_of iqn ++ codes "/stop") none (into_nil wire) none

  unfoldable pub get_logical_unit : Iqn → ℤ → Request W (Option VolumeConfig)
  get_logical_unit iqn lun = do_get wire c (volume_path_of iqn lun) (into_nil wire) none

  unfoldable pub add_logical_unit : Iqn → VolumeConfig → Request W (Option VolumeConfig)
  add_logical_unit iqn volume =
      do_put wire c (volume_path_of iqn volume.number) (some (wire.encode_volume volume))
        (into_nil wire) none

  unfoldable pub delete_logical_unit : Iqn → ℤ → Request W (Unit {0})
  delete_logical_unit iqn lun = do_delete wire c (volume_path_of iqn lun)
