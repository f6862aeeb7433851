-- ===== src/Tests/Rest.antt =====
-- pkg/rest at concrete requests.
use linstor_gateway.Base.{◌≡◌, refl, true, false, some, none, inr, ◌⊎◌}
use linstor_gateway.Base.Int.{pos}
use linstor_gateway.Base.Outcome.{ok}
use linstor_gateway.Base.Text.{Text, codes, split, scan}
use linstor_gateway.Base.Decimal.{atoi}
use linstor_gateway.Iscsi.Iqn.{Iqn, new_iqn, cut_last, is_authority, is_resource_name}
use linstor_gateway.Nvmeof.Nqn.{Nqn, new_nqn}
use linstor_gateway.Nvmeof.ResourceConfig.{ResourceConfig}
use linstor_gateway.Iscsi.Service as IscsiService
use linstor_gateway.Nvmeof.Service as NvmeofService
use linstor_gateway.Nfs.Service as NfsService
use linstor_gateway.Rest.{Written, done, bad_request}
use linstor_gateway.Rest.Iscsi.{
  iscsi_get, iscsi_list, iscsi_start, iscsi_stop, iscsi_delete, iscsi_add_volume,
}
use linstor_gateway.Rest.Nvmeof.{
  nvmeof_get, nvmeof_list, nvmeof_start, nvmeof_stop, nvmeof_delete, nvmeof_add_volume,
}
use linstor_gateway.Rest.Nfs.{nfs_get, nfs_list, nfs_start, nfs_stop, nfs_delete}
use linstor_gateway.Rest.Answers.{Follows, handlers-Follow}
use linstor_gateway.Rest.Refusals.{Refuses}
use linstor_gateway.Rest.Adding.{IsNamed, AddsAs, add_volume-AddsAs}
use linstor_gateway.Common.Volume.{VolumeConfig}
use linstor_gateway.Rest.Reading.{Leaves, handlers-Leave}
use linstor_gateway.Rest.Deletion.{nvmeof_delete-not_found}
use linstor_gateway.Reactor.Config.{decode_config}
use linstor_gateway.Reactor.Files.{filter_configs, find_from}
use linstor_gateway.Reactor.Store.{find_config, delete_config}
use linstor_gateway.Common.Status.{no_resources_in_use}
use linstor_gateway.Common.Wait.{wait_until}
use linstor_gateway.Target.Lookup
use linstor_gateway.Target.Service
use linstor_gateway.Tests.Env.{toy}
use linstor_gateway.Tests.Targets.{volume}
use linstor_gateway.Tests.Cluster.{linstor, linstor-ReadsOnly, one_target}

abbrev iqn_text : Text
iqn_text = codes "iqn.2021-08.com.linbit:target1"

abbrev iqn : Iqn
iqn = record { authority = codes "iqn.2021-08.com.linbit"; wwn = codes "target1" }

abbrev nqn_text : Text
nqn_text = codes "linbit:nvme:vol1"

abbrev nqn : Nqn
nqn = record { vendor = codes "linbit"; subsystem = codes "vol1" }

abbrev number_text : Text
number_text = codes "1"

handlers-Follow_example :
    Follows (iscsi_get toy linstor true iqn_text number_text) (IscsiService.get toy linstor iqn)
    × Follows (iscsi_start toy linstor iqn_text) (IscsiService.start toy linstor iqn)
    × Follows (iscsi_stop toy linstor iqn_text) (IscsiService.stop toy linstor iqn)
    × Follows
        (iscsi_delete toy linstor false iqn_text number_text)
        (IscsiService.delete_volume toy linstor iqn (pos 1))
    × Follows (nvmeof_get toy linstor true nqn_text number_text) (NvmeofService.get toy linstor nqn)
    × Follows (nvmeof_start toy linstor nqn_text) (NvmeofService.start toy linstor nqn)
    × Follows (nvmeof_stop toy linstor nqn_text) (NvmeofService.stop toy linstor nqn)
    × Follows
        (nvmeof_delete toy linstor false nqn_text number_text)
        (NvmeofService.delete_volume toy linstor nqn (pos 1))
    × Follows
        (nfs_get toy linstor true (codes "exp1") number_text)
        (NfsService.get toy linstor (codes "exp1"))
    × Follows (nfs_start toy linstor (codes "exp1")) (NfsService.start toy linstor (codes "exp1"))
    × Follows (nfs_stop toy linstor (codes "exp1")) (NfsService.stop toy linstor (codes "exp1"))
    × Follows
        (nfs_delete toy linstor false (codes "exp1") number_text)
        (NfsService.delete_volume toy linstor (codes "exp1") (pos 1))
unfolding new_iqn new_nqn split atoi cut_last is_authority is_resource_name
handlers-Follow_example =
    handlers-Follow toy linstor iqn_text nqn_text (codes "exp1") number_text iqn nqn (pos 1) refl
      refl refl

abbrev unnumbered : VolumeConfig
unnumbered = record volume { number = pos 0 }

add_volume-AddsAs_example :
    (IsNamed (pos 1) unnumbered
      × AddsAs
          (pos 1)
          unnumbered
          (IscsiService.add_volume toy linstor iqn)
          (iscsi_add_volume toy linstor iqn_text number_text (some unnumbered))
      × AddsAs
          (pos 1)
          unnumbered
          (NvmeofService.add_volume toy linstor nqn)
          (nvmeof_add_volume toy linstor nqn_text number_text (some unnumbered)))
    ⊎ (¬ IsNamed (pos 1) unnumbered
        × Refuses bad_request (iscsi_add_volume toy linstor iqn_text number_text (some unnumbered))
        × Refuses bad_request
            (nvmeof_add_volume toy linstor nqn_text number_text (some unnumbered)))
unfolding new_iqn new_nqn split atoi cut_last is_authority is_resource_name
add_volume-AddsAs_example =
    add_volume-AddsAs toy linstor iqn_text nqn_text number_text iqn nqn (pos 1) unnumbered refl refl
      refl

handlers-Leave_example :
    Leaves (iscsi_get toy linstor true iqn_text number_text)
    × Leaves (iscsi_list toy linstor)
    × Leaves (nvmeof_get toy linstor true iqn_text number_text)
    × Leaves (nvmeof_list toy linstor)
    × Leaves (nfs_get toy linstor true iqn_text number_text)
    × Leaves (nfs_list toy linstor)
handlers-Leave_example = handlers-Leave toy linstor linstor-ReadsOnly true iqn_text number_text

nvmeof_delete-not_found_example :
    (out : Written ResourceConfig) × (nvmeof_delete toy linstor true nqn_text number_text one_target
      ≡ (done out, (NvmeofService.delete toy linstor nqn one_target).1))
    × (out.status ≡ some 404)
unfolding new_nqn split NvmeofService.get Lookup.get find_config filter_configs scan decode_config
    find_from NvmeofService.delete Service.delete delete_config wait_until no_resources_in_use
nvmeof_delete-not_found_example =
    nvmeof_delete-not_found toy linstor nqn_text number_text nqn (ok none) one_target one_target
      (NvmeofService.delete toy linstor nqn one_target).1 refl refl (inr refl) refl
