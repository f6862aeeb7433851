-- ===== src/Cmd/Nfs.antt =====
-- cmd/nfs.go: the commands for NFS exports.
use linstor_gateway.Base.{ℕ, Bool, false, Option, none, some, List, [], ◌∷◌, ◌⊎◌, inl, inr}
use linstor_gateway.Base.Int.{pos}
use linstor_gateway.Base.Lists.{drop}
use linstor_gateway.Base.Text.{Text, codes}
use linstor_gateway.External.{External, ip4}
use linstor_gateway.Common.Ip.{
  IpCidr, service_ip_from_string, service_ip_from_parts, cidr_string, ip_text,
}
use linstor_gateway.Common.Status.{ResourceState, unknown, zero_status}
use linstor_gateway.Common.Volume.{Volume, UidGid}
use linstor_gateway.Nfs.ResourceConfig.{ResourceConfig, VolumeConfig, volume_config, export_path_of}
use linstor_gateway.Restclient.{RestClient, Wire, ClientError, Returned}
use linstor_gateway.Restclient.Nfs
use linstor_gateway.Cmd.{
  CmdError, from_client, Command, parsing, ◌>>=◌, ending, with_arguments, Units, size_of,
}
use linstor_gateway.Cmd.Table.{Table, row, add_row}

abbrev told : Option ClientError → Option CmdError
told none = none
told (some e) = some (from_client e)

-- The flags of `create`.
pub record CreateFlags : Type 0 where
  pub resource_group : Text
  pub export_path : Text
  pub allowed_ips : IpCidr
  pub gross_size : Bool

-- The flags where none is given.
unfoldable pub default_flags : CreateFlags
default_flags = record {
  resource_group = codes "DfltRscGrp";
  export_path = codes "/";
  allowed_ips = service_ip_from_parts (ip4 (0 ∷ 0 ∷ 0 ∷ 0 ∷ [])) (pos 0);
  gross_size = false;
}

abbrev nobody : UidGid
nobody = record { uid = pos 65534; gid = pos 65534 }

-- The volume that `create` asks for.
unfoldable pub export_volume : Text → ℕ → VolumeConfig
export_volume path size = record {
  config = record {
    number = pos 1;
    size_kib = size;
    file_system = codes "ext4";
    file_system_root_owner = nobody;
  };
  export_path = path;
}

abbrev state_or_unknown : Option Volume → ResourceState
state_or_unknown none = unknown
state_or_unknown (some vol) = vol.status.state

-- `nfs.ExportPath(rsc, &rsc.Volumes[0])`
abbrev pub first_path : Text → List VolumeConfig → Text
first_path name [] = []
first_path name (vol ∷ vols) = export_path_of name vol

module _ (ext : External) where
  -- The loop over the volumes of an export, the first left out.
  unfoldable pub export_rows : ResourceConfig → List VolumeConfig → Table → Table
  unfolding row add_row
  export_rows rsc [] table = table
  export_rows rsc (vol ∷ vols) table =
      let state = state_or_unknown (volume_config rsc vol.config.number) in
      add_row
        (row rsc.name (cidr_string ext rsc.service_ip) rsc.status.service
          (export_path_of rsc.name vol) state)
        state (export_rows rsc vols table)

  unfoldable pub table_of : List ResourceConfig → Table
  unfolding export_rows
  table_of [] = ([], 0)
  table_of (rsc ∷ rscs) = export_rows rsc (drop 1 rsc.volumes) (table_of rscs)

  abbrev tabled : Returned (List ResourceConfig) → CmdError ⊎ Table
  tabled (rscs, none) = inr (table_of rscs)
  tabled (rscs, some e) = inl (from_client e)

module _ (ext : External) (units : Units) where
  unfoldable pub create_config : CreateFlags → Text → Text → Text → CmdError ⊎ ResourceConfig
  unfolding export_volume
  create_config flags resource ip size_text = do
    service_ip ← parsing (service_ip_from_string ext ip)
    size ← size_of units size_text
    inr (record {
      name = resource;
      service_ip = service_ip;
      allowed_ips = flags.allowed_ips ∷ [];
      resource_group = flags.resource_group;
      volumes = export_volume flags.export_path size ∷ [];
      status = zero_status;
      gross_size = flags.gross_size;
    })

module _ (ext : External) (units : Units) (wire : Wire ResourceConfig) {W : Type 0}
    (cli : RestClient W) where
  -- `createNFSCommand`
  unfoldable pub create : CreateFlags → Text → Text → Text → Command W
  unfolding create_config
  create flags resource ip size_text =
      with_arguments (create_config ext units flags resource ip size_text) (λ rsc w.
        let ((_, e), w') = Nfs.create wire cli rsc w in
        (
          ending
              (
                "Created export '%s' at %s:%s\n",
                resource ∷ ip_text ext rsc.service_ip ∷ first_path rsc.name rsc.volumes ∷ [],
              )
              (told e),
          w',
        ))

  -- `deleteNFSCommand`
  unfoldable pub delete : Text → Command W
  delete name w =
      let ((_, e), w') = Nfs.delete wire cli name w in
      (ending ("Deleted export %s\n", name ∷ []) (told e), w')

  -- `listNFSCommand`, up to the warning where something is degraded
  unfoldable pub list : W → (CmdError ⊎ Table) × W
  unfolding table_of
  list w = let (returned, w') = Nfs.get_all wire cli w in (tabled ext returned, w')
