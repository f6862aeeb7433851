-- ===== src/Tests/Creation.antt =====
-- The create commands at concrete arguments. The decoder of the server reads the configuration that
-- they ask for.
use linstor_gateway.Base.{false, none, some, List, [], ◌∷◌, ◌⊎◌, inr}
use linstor_gateway.Base.Int.{ℤ, pos}
use linstor_gateway.Base.Outcome.{Error}
use linstor_gateway.Base.Text.{Text, codes}
use linstor_gateway.Common.Ip.{IpCidr, service_ip_from_parts}
use linstor_gateway.Common.Volume.{VolumeConfig, root}
use linstor_gateway.External.{ip4}
use linstor_gateway.Iscsi.Iqn.{Iqn}
use linstor_gateway.Nvmeof.Nqn.{Nqn}
use linstor_gateway.Iscsi.ResourceConfig as IscsiConfig
use linstor_gateway.Nvmeof.ResourceConfig as NvmeofConfig
use linstor_gateway.Iscsi.Service as IscsiService
use linstor_gateway.Nvmeof.Service as NvmeofService
use linstor_gateway.Rest.Routes.{ServerCodec, serve}
use linstor_gateway.Restclient.{HttpResponse, RestClient}
use linstor_gateway.Restclient.EndToEnd.{content_of}
use linstor_gateway.Cmd.{Units}
use linstor_gateway.Cmd.Iscsi
use linstor_gateway.Cmd.Nvme
use linstor_gateway.Cmd.Creation.{asked_iscsi, asked_nvmeof}
use linstor_gateway.Tests.Env.{toy}
use linstor_gateway.Tests.Cluster.{Cluster, linstor}
use linstor_gateway.Tests.Restclient.{codec, mux, unrouted}

abbrev units : Units
units = record { value_from_string = λ raw. inr (pos 4194304); k = 1024 }

abbrev flags : Iscsi.CreateFlags
flags = record {
  username = codes "user";
  password = codes "secret";
  group = codes "DfltRscGrp";
  allowed_initiators = codes "iqn.2021-08.com.linbit:client" ∷ codes "client" ∷ [];
  gross_size = false;
}

abbrev sizes : List Text
sizes = codes "4M" ∷ codes "4M" ∷ []

abbrev iqn_text : Text
iqn_text = codes "iqn.2021-08.com.linbit:target1"

abbrev nqn_text : Text
nqn_text = codes "linbit:nvme:vol1"

abbrev ips : Text
ips = codes "10.0.0.1/16,10.0.0.1/16"

abbrev ip : Text
ip = codes "10.0.0.1/16"

abbrev iqn : Iqn
iqn = record { authority = codes "iqn.2021-08.com.linbit"; wwn = codes "target1" }

abbrev nqn : Nqn
nqn = record { vendor = codes "linbit"; subsystem = codes "vol1" }

abbrev service_ip : IpCidr
service_ip = service_ip_from_parts (ip4 (10 ∷ 0 ∷ 0 ∷ 1 ∷ [])) (pos 16)

abbrev volume : ℤ → VolumeConfig
volume number = record {
  number = number;
  size_kib = 4096;
  file_system = [];
  file_system_root_owner = root;
}

abbrev volumes : List VolumeConfig
volumes = volume (pos 1) ∷ volume (pos 2) ∷ []

abbrev iscsi_config : IscsiConfig.ResourceConfig
iscsi_config = asked_iscsi flags iqn (service_ip ∷ service_ip ∷ []) volumes

abbrev nvmeof_config : NvmeofConfig.ResourceConfig
nvmeof_config = asked_nvmeof (codes "DfltRscGrp") false nqn service_ip volumes

abbrev reading : ServerCodec (Error ⊎ HttpResponse)
reading = record codec {
  read_iscsi = λ body. some iscsi_config;
  read_nvmeof = λ body. some nvmeof_config;
}

abbrev rest_client : RestClient Cluster
rest_client = record {
  http_client =
      λ req. serve toy reading linstor mux unrouted req.method req.url (content_of req.body);
  base_url = codes "http://localhost:8080";
  log = none;
}
