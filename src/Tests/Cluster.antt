-- ===== src/Tests/Cluster.antt =====
-- A small cluster as a stand-in for LINSTOR: the files of drbd-reactor and the names of the resource
-- definitions, with the same resources in use on no node for each name.
use linstor_gateway.Base.{arith, ◌≡◌, refl, false, some, List, [], ◌∷◌, if◌then◌else◌}
use linstor_gateway.Base.Int.{pos}
use linstor_gateway.Base.Outcome.{ok, err, api, not_found}
use linstor_gateway.Base.Text.{Text, codes, eq}
use linstor_gateway.Linstor.{Client, ExternalFile, ResourceWithVolumes}
use linstor_gateway.Linstor.Exec.Laws.{ReadsOnly}
use linstor_gateway.Reactor.Files.{ignore_not_found, tolerating}
use linstor_gateway.Reactor.Store.{delete_config}
use linstor_gateway.Common.Status.{no_resources_in_use}
use linstor_gateway.Common.Wait.{wait_until, pass}
use linstor_gateway.Common.Wait.Liveness.{wait_until-look}
use linstor_gateway.Common.Wait.Laws.{Seen}
use linstor_gateway.Target.Service.{delete}
use linstor_gateway.Target.Service.Safety.{delete-Seen}
use linstor_gateway.Nvmeof.Service.{nvmeof}
use linstor_gateway.Tests.Env.{toy}

pub record Cluster : Type 0 where
  pub files : List ExternalFile
  pub names : List Text

abbrev without : Text → List Text → List Text
without name [] = []
without name (n ∷ ns) = let rest = without name ns in if eq n name then rest else n ∷ rest

abbrev idle : ResourceWithVolumes
idle = record {
  name = codes "vol1";
  node_name = codes "alpha";
  uuid = [];
  in_use = some false;
  volumes = [];
}

abbrev pub linstor : Client Cluster
linstor = record {
  namespc_drbd_resource_options = codes "DrbdOptions/Resource";
  namespc_filesystem = codes "FileSystem";
  get_external_files = λ w. (ok w.files, w);
  modify_external_file = λ path file w. (ok tt, record w { files = file ∷ w.files });
  delete_external_file = λ path w. (ok tt, record w { files = [] });
  attach_external_file = λ name path w. (ok tt, w);
  detach_external_file = λ name path w. (ok tt, w);
  get_resource_definition = λ name w. (err (api not_found), w);
  create_resource_definition = λ rd w. (ok tt, record w { names = rd.name ∷ w.names });
  modify_resource_definition = λ name props w. (ok tt, w);
  delete_resource_definition = λ name w. (ok tt, record w { names = without name w.names });
  get_volume_definitions = λ name w. (ok [], w);
  create_volume_definition = λ name vd w. (ok tt, w);
  delete_volume_definition = λ name nr w. (ok tt, w);
  get_resource_group = λ name w. (ok (record { name = name; place_count = pos 2 }), w);
  create_resource_group = λ name w. (ok tt, w);
  autoplace = λ name w. (ok tt, w);
  get_resource_view = λ name w. (ok (idle ∷ []), w);
  sleep = λ w. w;
}

pub linstor-ReadsOnly : ReadsOnly linstor
linstor-ReadsOnly = record {
  files = λ w. refl;
  definition = λ name w. refl;
  group = λ name w. refl;
  volumes = λ name w. refl;
  view = λ name w. refl;
}

abbrev pub one_target : Cluster
one_target = record {
  files =
      record { path = codes "/etc/drbd-reactor.d/linstor-gateway-nvmeof-vol1.toml"; content = [] }
      ∷ [];
  names = codes "vol1" ∷ [];
}

abbrev pub no_target : Cluster
no_target = record { files = []; names = [] }

delete-Seen_example :
    (w1 : Cluster) × (w2 : Cluster) × (delete_config linstor (codes "nvmeof-vol1") one_target
      ≡ (ok tt, w1))
    × (wait_until linstor (codes "vol1") no_resources_in_use 10 w1 ≡ (ok tt, w2))
    × Seen linstor (codes "vol1") no_resources_in_use w2
    × ((linstor.delete_resource_definition (codes "vol1") w2).1 ≡ no_target)
unfolding delete tolerating delete_config wait_until pass no_resources_in_use eq ignore_not_found
delete-Seen_example = delete-Seen (nvmeof toy) toy linstor (codes "vol1") one_target no_target refl

wait_until-look_example :
    (w' : Cluster) × (wait_until linstor (codes "vol1") no_resources_in_use 10 one_target
      ≡ (ok tt, w'))
unfolding no_resources_in_use
wait_until-look_example =
    wait_until-look linstor (codes "vol1") no_resources_in_use 10 3 one_target (λ j. idle ∷ [])
      (omega arith) (λ j. refl) refl
