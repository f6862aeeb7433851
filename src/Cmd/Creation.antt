-- ===== src/Cmd/Creation.antt =====
-- What the user of the `create` commands is told of the operation on the server.
use linstor_gateway.Base.{◌≡◌, Option, none, some, List, [], ◌∷◌, Bool}
use linstor_gateway.Base.Outcome.{Error, Result, ok, err, panic}
use linstor_gateway.Base.Text.{Text}
use linstor_gateway.External.{External}
use linstor_gateway.Linstor.{Call}
use linstor_gateway.Common.Ip.{IpCidr}
use linstor_gateway.Common.Status.{zero_status}
use linstor_gateway.Common.Volume.{VolumeConfig}
use linstor_gateway.Iscsi.Iqn.{Iqn}
use linstor_gateway.Nvmeof.Nqn.{Nqn}
use linstor_gateway.Iscsi.ResourceConfig as IscsiConfig
use linstor_gateway.Nvmeof.ResourceConfig as NvmeofConfig
use linstor_gateway.Iscsi.Service as IscsiService
use linstor_gateway.Nvmeof.Service as NvmeofService
use linstor_gateway.Restclient.{RestError, ClientError, rest_error, failed}
use linstor_gateway.Restclient.Iscsi as IscsiClient
use linstor_gateway.Restclient.Nvmeof as NvmeofClient
use linstor_gateway.Cmd.{CmdError, Failure, one, from_client, Line, Command}
use linstor_gateway.Cmd.Iscsi
use linstor_gateway.Cmd.Nvme

-- The line for a target that is created, and else the error of the server or that of the connection.
abbrev pub SaysCreated : {C : Type 0} → Line → Result C → List Line × Option Failure → Type 0
SaysCreated line (ok cfg) out = out ≡ (line ∷ [], none)
SaysCreated line (err _) out =
    (e : RestError) × (out ≡ ([], some (one (from_client (rest_error e)))))
SaysCreated line panic out = (e : Error) × (out ≡ ([], some (one (from_client (failed e)))))

-- The command says whether the operation on the server succeeds, and leaves the state that it leaves.
abbrev pub SaysWhetherCreated : {W C : Type 0} → Line → Call W C → Command W → Type 0
SaysWhetherCreated {W = W} line operation command =
    (w : W) → SaysCreated line (operation w).0 (command w).0 × ((command w).1 ≡ (operation w).1)

-- The configuration that the arguments of a create command ask for.
abbrev pub asked_iscsi :
    Iscsi.CreateFlags → Iqn → List IpCidr → List VolumeConfig → IscsiConfig.ResourceConfig
asked_iscsi flags iqn service_ips volumes = record {
  iqn = iqn;
  username = flags.username;
  password = flags.password;
  service_ips = service_ips;
  volumes = volumes;
  allowed_initiators = Iscsi.allowed_from flags.allowed_initiators;
  resource_group = flags.group;
  status = zero_status;
  gross_size = flags.gross_size;
}

abbrev pub asked_nvmeof :
    Text → Bool → Nqn → IpCidr → List VolumeConfig → NvmeofConfig.ResourceConfig
asked_nvmeof group gross_size nqn service_ip volumes = record {
  nqn = nqn;
  service_ip = service_ip;
  resource_group = group;
  volumes = volumes;
  status = zero_status;
  gross_size = gross_size;
}

abbrev from_client_error : Option ClientError → Option CmdError
from_client_error none = none
from_client_error (some e) = some (from_client e)
