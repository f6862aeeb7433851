-- ===== src/Tests/Running.antt =====
-- An NVMe-oF target that is started.
use linstor_gateway.Base.{false, some, [], ◌∷◌, ◌++◌}
use linstor_gateway.Base.Outcome.{ok}
use linstor_gateway.Base.Text.{Text, codes}
use linstor_gateway.External.{External, RawPromoter, quoted, array}
use linstor_gateway.Linstor.{Client, ResourceDefinition}
use linstor_gateway.Reactor.Agent.{resource_agent, systemd_service}
use linstor_gateway.Reactor.Config.{PromoterConfig}
use linstor_gateway.Tests.Env.{toy}
use linstor_gateway.Tests.Cluster.{Cluster, linstor}

abbrev path : Text
path = codes "/etc/drbd-reactor.d/linstor-gateway-nvmeof-vol1.toml"

abbrev pub document : RawPromoter
document = record {
  id = codes "nvmeof-vol1";
  resources =
      (
        codes "vol1",
        (
          codes "start",
          array (
              quoted (codes "a.service")
              ∷ quoted (codes "b.service")
              ∷ quoted (codes "ocf:heartbeat:IPaddr2 service_ip ip=10.0.0.1 cidr_netmask=16")
              ∷ quoted (codes "ocf:heartbeat:nvmet-subsystem subsys nqn=linbit:nvme:vol1")
              ∷ quoted (codes "c.service")
              ∷ []),
        )
            ∷ [],
      )
      ∷ [];
}

abbrev pub ext : External
ext = record toy { toml_decode = λ s. some (document ∷ []) }

abbrev pub cfg : PromoterConfig
cfg = record {
  id = codes "nvmeof-vol1";
  resources =
      (
        codes "vol1",
        record {
          start =
              systemd_service (codes "a.service")
              ∷ systemd_service (codes "b.service")
              ∷ resource_agent (record {
                type = codes "ocf:heartbeat:IPaddr2";
                name = codes "service_ip";
                attributes =
                    (codes "ip", codes "10.0.0.1") ∷ (codes "cidr_netmask", codes "16") ∷ [];
              })
              ∷ resource_agent (record {
                type = codes "ocf:heartbeat:nvmet-subsystem";
                name = codes "subsys";
                attributes = (codes "nqn", codes "linbit:nvme:vol1") ∷ [];
              })
              ∷ systemd_service (codes "c.service")
              ∷ [];
          runner = [];
          on_drbd_demote_failure = [];
          stop_services_on_exit = false;
          target_as = [];
        },
      )
      ∷ [];
}

abbrev definition : ResourceDefinition
definition = record {
  name = codes "vol1";
  resource_group_name = codes "rg1";
  props = (codes "files" ++ path, codes "True") ∷ [];
}

abbrev started : Client Cluster
started = record linstor { get_resource_definition = λ name w. (ok definition, w) }
