-- ===== src/Nfs/Promoter.antt =====
-- pkg/nfs/resource_config.go: the promoter configuration that `ToPromoter` writes.
use linstor_gateway.Base.{ℕ, ◌+◌, true, not, List, [], ◌∷◌, ◌++◌, if◌then◌else◌}
use linstor_gateway.Base.Int.{ℤ, pos, eqb_ℤ}
use linstor_gateway.Base.Outcome.{Result, ok, panic, fail, ◌>>=◌}
use linstor_gateway.Base.Text.{Text, codes}
use linstor_gateway.Base.FilePath.{join_path}
use linstor_gateway.Base.Decimal.{itoa}
use linstor_gateway.External.{External}
use linstor_gateway.Linstor
use linstor_gateway.Linstor.{ResourceWithVolumes}
use linstor_gateway.Reactor.Agent.{ResourceAgent, StartEntry, resource_agent}
use linstor_gateway.Reactor.Config.{PromoterConfig}
use linstor_gateway.Common.Ip.{IpCidr, ip_text, prefix}
use linstor_gateway.Common.Volume.{
  device_path, cluster_private_volume_agent, cluster_private_volume_mount_path,
}
use linstor_gateway.Nfs.Cidr.{nfs_format_cidr}
use linstor_gateway.Nfs.ResourceConfig.{ResourceConfig, VolumeConfig, export_path_of}

abbrev pub default_nfs_port : ℤ
default_nfs_port = pos 2049

abbrev pub id_prefix : Text
id_prefix = codes "nfs-"

-- `ID()`, and `fmt.Sprintf(IDFormat, name)`
abbrev pub id_of : Text → Text
id_of name = id_prefix ++ name

abbrev pub fs_prefix : Text
fs_prefix = codes "fs_"

-- The Filesystem agent of one volume.
unfoldable pub fs_agent : Text → Linstor.Volume → VolumeConfig → ResourceAgent
fs_agent name vol v = record {
  type = codes "ocf:heartbeat:Filesystem";
  name = fs_prefix ++ itoa vol.volume_number;
  attributes =
      (codes "device", device_path vol)
      ∷ (codes "directory", export_path_of name v)
      ∷ (codes "fstype", v.config.file_system)
      ∷ (codes "run_fsck", codes "no")
      ∷ [];
}

-- The first loop over the deployed volumes from the second on, beside the configured ones.
unfoldable pub fs_agents : Text → List Linstor.Volume → List VolumeConfig → Result (List StartEntry)
unfolding fs_agent
fs_agents name [] volumes = ok []
fs_agents name (vol ∷ vols) [] = panic
fs_agents name (vol ∷ vols) (v ∷ vs) =
    let rest = fs_agents name vols vs in
    if not (eqb_ℤ vol.volume_number v.config.number)
    then fail "inconsistent volumes, expected volume number %d, got %d"
    else do agents ← rest; ok (resource_agent (fs_agent name vol v) ∷ agents)

module _ (ext : External) where
  unfoldable pub block_agent : ResourceConfig → ResourceAgent
  block_agent r = record {
    type = codes "ocf:heartbeat:portblock";
    name = codes "portblock";
    attributes =
        (codes "ip", ip_text ext r.service_ip)
        ∷ (codes "portno", itoa default_nfs_port)
        ∷ (codes "action", codes "block")
        ∷ (codes "protocol", codes "tcp")
        ∷ [];
  }

  unfoldable pub unblock_agent : ResourceConfig → Text → ResourceAgent
  unblock_agent r resource = record {
    type = codes "ocf:heartbeat:portblock";
    name = codes "portunblock";
    attributes =
        (codes "ip", ip_text ext r.service_ip)
        ∷ (codes "portno", itoa default_nfs_port)
        ∷ (codes "action", codes "unblock")
        ∷ (codes "protocol", codes "tcp")
        ∷ (codes "tickle_dir", join_path (cluster_private_volume_mount_path ∷ resource ∷ []))
        ∷ [];
  }

  unfoldable pub ip_agent : ResourceConfig → ResourceAgent
  ip_agent r = record {
    type = codes "ocf:heartbeat:IPaddr2";
    name = codes "service_ip";
    attributes =
        (codes "ip", ip_text ext r.service_ip)
        ∷ (codes "cidr_netmask", itoa (pos (prefix r.service_ip)))
        ∷ [];
  }

  unfoldable pub server_agent : ResourceConfig → Text → ResourceAgent
  server_agent r resource = record {
    type = codes "ocf:heartbeat:nfsserver";
    name = codes "nfsserver";
    attributes =
        (codes "nfs_ip", ip_text ext r.service_ip)
        ∷ (
          codes "nfs_shared_infodir",
          join_path (cluster_private_volume_mount_path ∷ resource ∷ codes "nfs" ∷ []),
        )
        ∷ (codes "nfs_server_scope", ip_text ext r.service_ip)
        ∷ [];
  }

  -- `UuidNFS`
  unfoldable pub uuid_nfs : Text
  uuid_nfs =
      ext.new_sha1 (codes "00000000-0000-0000-0000-000000000000")
        (codes "nfs.gateway.linstor.linbit.com")

  unfoldable pub export_agent : Text → Text → ℤ → ℕ → Text → ResourceAgent
  export_agent directory fsid number j clientspec = record {
    type = codes "ocf:heartbeat:exportfs";
    name = codes "export_" ++ (itoa number ++ (b'_' ∷ itoa (pos j)));
    attributes =
        (codes "directory", directory)
        ∷ (codes "fsid", fsid)
        ∷ (codes "clientspec", clientspec)
        ∷ (codes "options", codes "rw,all_squash,anonuid=0,anongid=0")
        ∷ [];
  }

  -- The inner loop over the allowed addresses, from the index `j` on.
  unfoldable pub exports_of : Text → Text → ℤ → ℕ → List IpCidr → Result (List StartEntry)
  unfolding export_agent
  exports_of directory fsid number j [] = ok []
  exports_of directory fsid number j (c ∷ cs) = do
    clientspec ← nfs_format_cidr ext c
    agents ← exports_of directory fsid number (j + 1) cs
    ok (resource_agent (export_agent directory fsid number j clientspec) ∷ agents)

  -- The second loop over the deployed volumes.
  unfoldable pub export_agents :
      ResourceConfig → Text → List Linstor.Volume → List VolumeConfig → Result (List StartEntry)
  unfolding exports_of
  export_agents r res_uuid [] volumes = ok []
  export_agents r res_uuid (vol ∷ vols) [] = panic
  export_agents r res_uuid (vol ∷ vols) (v ∷ vs) =
      let rest = export_agents r res_uuid vols vs in
      if not (eqb_ℤ vol.volume_number v.config.number)
      then fail "inconsistent volumes, expected volume number %d, got %d"
      else do
        exports ←
            exports_of (export_path_of r.name v) (ext.new_sha1 res_uuid vol.uuid) vol.volume_number
              0 r.allowed_ips
        agents ← rest
        ok (exports ++ agents)

  unfoldable pub agents_of :
      ResourceConfig
      → ResourceWithVolumes
      → List VolumeConfig
      → List Linstor.Volume
      → Result (List StartEntry)
  unfolding fs_agents export_agents block_agent unblock_agent ip_agent server_agent uuid_nfs
  agents_of r deployed (private ∷ volumes) (deployed_private ∷ deployed_volumes) = do
    file_systems ← fs_agents r.name deployed_volumes volumes
    exports ← export_agents r (ext.new_sha1 uuid_nfs deployed.uuid) deployed_volumes volumes
    ok (
        resource_agent (block_agent r)
        ∷ resource_agent (cluster_private_volume_agent private.config deployed_private r.name)
        ∷ (file_systems
            ++ (resource_agent (server_agent r deployed.name)
                ∷ (exports
                    ++ (resource_agent (ip_agent r)
                        ∷ resource_agent (unblock_agent r deployed.name)
                        ∷ [])))))
  agents_of r deployed _ _ = panic

  -- `ToPromoter`; the volume with the index 0 is read without a test of its presence.
  unfoldable pub to_promoter : ResourceConfig → List ResourceWithVolumes → Result PromoterConfig
  unfolding agents_of
  to_promoter r [] = fail "resource config is missing deployment information"
  to_promoter r (deployed ∷ others) = do
    agents ← agents_of r deployed r.volumes deployed.volumes
    ok (record {
      id = id_of r.name;
      resources =
          (
            r.name,
            record {
              start = agents;
              runner = codes "systemd";
              on_drbd_demote_failure = codes "reboot-immediate";
              stop_services_on_exit = true;
              target_as = codes "BindsTo";
            },
          )
          ∷ [];
    })
