-- ===== src/Tests/Cmd.antt =====
-- The commands at concrete arguments.
use linstor_gateway.Base.{◌≡◌, ◌↔◌, refl, false, List, [], ◌∷◌, ◌++◌, inl, inr}
use linstor_gateway.Base.Int.{pos, negsuc}
use linstor_gateway.Base.Outcome.{ok, message}
use linstor_gateway.Base.Text.{Text, codes, split, is_empty}
use linstor_gateway.Base.Decimal.{itoa}
use linstor_gateway.Common.Volume.{VolumeConfig, cluster_private_volume}
use linstor_gateway.Common.Volumes.{sort_volumes, check_volumes}
use linstor_gateway.Iscsi.Iqn.{new_iqn}
use linstor_gateway.Nvmeof.Nqn.{new_nqn, nqn_string}
use linstor_gateway.Nvmeof.ResourceConfig as NvmeofConfig
use linstor_gateway.Nvmeof.Service
use linstor_gateway.Restclient.EndToEnd.Nvmeof.{nvmeof-Reports}
use linstor_gateway.Cmd.{Units, volume_of, volumes_from, with_volume, size_kib, multi_error_text}
use linstor_gateway.Cmd.BaseUrl.{base_url, url_text}
use linstor_gateway.Cmd.BaseUrl.Laws.{base_url-url_text}
use linstor_gateway.Cmd.Sizes.{AllPositive, check_volumes-volumes_from}
use linstor_gateway.Cmd.Skipping.{Skips, commands-Skip}
use linstor_gateway.Cmd.Verdicts.{Announces, commands-Announce}
use linstor_gateway.Cmd.Iscsi
use linstor_gateway.Cmd.Nvme
use linstor_gateway.Tests.Env.{toy}
use linstor_gateway.Tests.Cluster.{linstor}
use linstor_gateway.Tests.Restclient.{
  codec, mux, unrouted, wire, rest_client, same_path, nqn, receive-IsConnection, wire-KeepsPaths,
  rest_client-IsLinked, mux-IsRouter,
}
use linstor_gateway.Base.{arith}
use linstor_gateway.Rest.Routes.{routes}

-- Each size is read as two of `unit.K`.
abbrev units : Units
units = record { value_from_string = λ raw. inr (pos 2048); k = 1024 }

size_tests : (size_kib 1024 (pos 2047) ≡ 1) × (size_kib 1024 (negsuc 1023) ≡ 18446744073709551615)
unfolding size_kib
size_tests = (refl, refl)

base_url_tests :
    (base_url (codes "gw") ≡ inr (codes "http://gw:8080"))
    × (base_url (codes "https://gw:1") ≡ inr (codes "https://gw:1"))
    × (base_url (codes "[::1]") ≡ inl (message "URL with multiple port separators. parts: %v"))
unfolding base_url split itoa
base_url_tests = (refl, refl, refl)

multi_error_tests : multi_error_text (codes "a" ∷ codes "b" ∷ []) ≡ codes "2 errors: [a, b]"
unfolding multi_error_text itoa
multi_error_tests = refl

base_url-url_text_example :
    (base_url [] ≡ inr (codes "http://localhost:8080"))
    × (is_empty (codes "gw") ≡ false
        → base_url (codes "gw") ≡ inr (url_text (codes "http") (codes "gw") (codes "8080")))
    × (base_url (codes "gw" ++ (b':' ∷ codes "1"))
        ≡ inr (url_text (codes "http") (codes "gw") (codes "1")))
    × (base_url (codes "https" ++ (codes "://" ++ codes "gw"))
        ≡ inr (url_text (codes "https") (codes "gw") (codes "8080")))
    × (base_url (url_text (codes "https") (codes "gw") (codes "1"))
        ≡ inr (url_text (codes "https") (codes "gw") (codes "1")))
base_url-url_text_example =
    base_url-url_text (codes "https") (codes "gw") (codes "1") refl refl refl refl refl

abbrev two_volumes : List VolumeConfig
two_volumes = volume_of (pos 1) 2 ∷ volume_of (pos 2) 2 ∷ []

check_volumes-volumes_from_example :
    (check_volumes (sort_volumes (cluster_private_volume ∷ two_volumes)) ≡ ok tt)
    ↔ AllPositive two_volumes
unfolding volumes_from with_volume size_kib
check_volumes-volumes_from_example =
    check_volumes-volumes_from units (codes "2K" ∷ codes "2K" ∷ []) two_volumes refl

commands-Skip_example :
    Skips new_iqn (Iscsi.start wire rest_client)
    × Skips new_iqn (Iscsi.stop wire rest_client)
    × Skips new_iqn (Iscsi.delete wire rest_client)
    × Skips new_nqn (Nvme.start wire rest_client)
    × Skips new_nqn (Nvme.stop wire rest_client)
    × Skips new_nqn (Nvme.delete wire rest_client)
commands-Skip_example = commands-Skip wire wire rest_client

abbrev vol1 : Text
vol1 = codes "linbit:nvme:vol1"

commands-Announce_example :
    Announces nqn "Started target \"%s\"\n"
      (Nvme.start wire rest_client)
      vol1
      (Service.start toy linstor nqn)
    × Announces nqn "Stopped target \"%s\"\n"
        (Nvme.stop wire rest_client)
        vol1
        (Service.stop toy linstor nqn)
unfolding new_nqn nqn_string split
commands-Announce_example =
    let told =
      nvmeof-Reports toy codec linstor mux unrouted rest_client same_path wire nqn 1
        receive-IsConnection (wire-KeepsPaths NvmeofConfig.ResourceConfig) rest_client-IsLinked
        (mux-IsRouter (routes toy codec linstor)) (refl, refl) refl (omega arith) in
    commands-Announce toy linstor wire rest_client vol1 nqn refl told.1 told.2
