-- ===== src/Nfs/Parsing/Laws.antt =====
-- `FromPromoter` reads back the export that `ToPromoter` writes.
use linstor_gateway.Base.{
  ◌≡◌, refl, ap, ◌∙◌, true, false, some, List, [], ◌∷◌, ◌++◌, map, arith, ◌==◌,
}
use linstor_gateway.Base.Int.{pos}
use linstor_gateway.Base.Lists.{length, any}
use linstor_gateway.Base.Outcome.{ok}
use linstor_gateway.Base.Text.{Text, codes, scan, strip_prefix, take_word, is_space}
use linstor_gateway.Base.FilePath.Laws.{IsPlain}
use linstor_gateway.External.{External}
use linstor_gateway.Linstor
use linstor_gateway.Linstor.{ResourceDefinition, VolumeDefinition, ResourceWithVolumes}
use linstor_gateway.Reactor.Agent.{StartEntry, resource_agent}
use linstor_gateway.Reactor.Config.{PromoterConfig}
use linstor_gateway.Common.Ip.{IpCidr}
use linstor_gateway.Common.Ip.Laws.{IsServiceIp}
use linstor_gateway.Common.Volume.{cluster_private_volume_agent}
use linstor_gateway.Nfs.Cidr.Laws.{zero_address, as_read}
use linstor_gateway.Nfs.ResourceConfig.{ResourceConfig, VolumeConfig, zero_config}
use linstor_gateway.Nfs.Promoter.{
  id_prefix, id_of, block_agent, unblock_agent, ip_agent, server_agent, uuid_nfs, fs_agents,
  export_agents, agents_of, to_promoter,
}
use linstor_gateway.Nfs.Parsing.{
  Parsing, volume_of, find_volume, parse_entries, check_parsed, start_parsing, parse_resources,
  parse_scanned, from_promoter,
}
use linstor_gateway.Nfs.Parsing.Allowed.{Distinct}
use linstor_gateway.Nfs.Parsing.Agents.{
  with_volume, with_allowed, block_step, unblock_step, server_step, ip_step, private_step,
}
use linstor_gateway.Nfs.Parsing.Steps.{
  AreExported, AllAllowed, read_volumes, with_volumes, fs_entries, fs_agents_lem, fs_steps,
  agent_first, add_each_lem, WrittenExports, export_agents-WrittenExports,
}

-- A name that is one word and one component of a path.
pub record IsExportName (name : Text) : Type 0 where
  pub plain : IsPlain name
  pub no_space : any is_space name ≡ false

take_word_lem : (s : Text) → any is_space s ≡ false → take_word s ≡ s
take_word_lem [] h = refl
take_word_lem (c ∷ s) h = ground (arith, take_word_lem s)

scan-id_of : (name : Text) → IsExportName name → scan id_prefix (id_of name) ≡ some name
unfolding scan strip_prefix
scan-id_of [] h = absurd (ground (arith, h.plain.full))
scan-id_of (c ∷ s) h = ground (arith, take_word_lem s, h.no_space)

module _ (ext : External) (namespace : Text) (vds : List VolumeDefinition) where
  -- The start list that `ToPromoter` writes.
  abbrev start_of :
      ResourceConfig → Text → StartEntry → List StartEntry → List StartEntry → List StartEntry
  start_of r resource private file_systems exports =
      resource_agent (block_agent ext r)
      ∷ private
      ∷ (file_systems
          ++ (resource_agent (server_agent ext r resource)
              ∷ (exports
                  ++ (resource_agent (ip_agent ext r)
                      ∷ resource_agent (unblock_agent ext r resource)
                      ∷ []))))

  -- The configuration that is read: the group and the volumes come from LINSTOR, up to the paths.
  abbrev pub read_config :
      ResourceConfig
      → ResourceDefinition
      → VolumeDefinition
      → List VolumeConfig
      → List VolumeDefinition
      → ResourceConfig
  read_config r definition d volumes ds = record zero_config {
    name = r.name;
    service_ip = r.service_ip;
    allowed_ips = map as_read r.allowed_ips;
    resource_group = definition.resource_group_name;
    volumes = volume_of namespace d [] ∷ read_volumes namespace volumes ds;
  }

  -- What the whole start list is read as.
  abbrev read_back :
      ResourceConfig
      → ResourceDefinition
      → VolumeDefinition
      → List VolumeConfig
      → List VolumeDefinition
      → Parsing
  read_back r definition d volumes ds = record {
    config = read_config r definition d volumes ds;
    num_portblocks = 1;
    num_portunblocks = 1;
  }

  start_steps :
      (r : ResourceConfig) (deployed : ResourceWithVolumes) (private : VolumeConfig)
      (volumes : List VolumeConfig) (vol w : Linstor.Volume) (vols : List Linstor.Volume)
      (definition : ResourceDefinition) (d : VolumeDefinition) (ds : List VolumeDefinition)
      (uuid : Text) (exports : WrittenExports ext namespace vds r uuid (w ∷ vols) volumes)
      → IsExportName r.name
      → IsServiceIp ext r.service_ip
      → AllAllowed ext r.allowed_ips
      → Distinct ext r.allowed_ips
      → find_volume (pos 0) vds ≡ some d
      → AreExported vds (w ∷ vols) volumes ds
      → parse_entries ext namespace vds
          (start_of r deployed.name
            (resource_agent (cluster_private_volume_agent private.config vol r.name))
            (fs_entries r.name (w ∷ vols) volumes)
            exports.entries)
          (start_parsing r.name definition)
        ≡ ok (read_back r definition d volumes ds)
  unfolding parse_entries
  start_steps r deployed private volumes vol w vols definition d ds uuid exports n s a u f h =
      let last = resource_agent (unblock_agent ext r deployed.name) ∷ [] in
      let after_exports = resource_agent (ip_agent ext r) ∷ last in
      let after_server = exports.entries ++ after_exports in
      let after_volumes = resource_agent (server_agent ext r deployed.name) ∷ after_server in
      let private_entry = cluster_private_volume_agent private.config vol r.name in
      let after_private = fs_entries r.name (w ∷ vols) volumes ++ after_volumes in
      let p0 = start_parsing r.name definition in
      let p1 : Parsing = record p0 { num_portblocks = 1 } in
      let p2 = with_volume (volume_of namespace d []) p1 in
      let p3 = with_volumes (read_volumes namespace volumes ds) p2 in
      let p4 = with_allowed (map as_read r.allowed_ips) p3 in
      let p5 : Parsing = record p4 { config = record (p4.config) { service_ip = r.service_ip } } in
      agent_first ext namespace vds (block_agent ext r)
        (resource_agent private_entry ∷ after_private) p0 p1 (block_step ext namespace vds r p0)
      ∙ agent_first ext namespace vds private_entry after_private p1 p2
          (private_step ext namespace vds private.config vol r.name d p1 f)
      ∙ fs_steps ext namespace vds after_volumes (w ∷ vols) volumes ds p2 n.plain h
      ∙ agent_first ext namespace vds (server_agent ext r deployed.name) after_server p3 p3
          (server_step ext namespace vds r deployed.name p3)
      ∙ exports.read_back after_exports p3
      ∙ ap (λ (l : List IpCidr). parse_entries ext namespace vds after_exports (with_allowed l p3))
          (add_each_lem ext r.allowed_ips w vols a u)
      ∙ agent_first ext namespace vds (ip_agent ext r) last p4 p5 (ip_step ext namespace vds r p4 s)
      ∙ agent_first ext namespace vds (unblock_agent ext r deployed.name) [] p5
          (record p5 { num_portunblocks = 1 }) (unblock_step ext namespace vds r deployed.name p5)

  abbrev written_config : Text → List StartEntry → PromoterConfig
  written_config name entries = record {
    id = id_of name;
    resources =
        (
          name,
          record {
            start = entries;
            runner = codes "systemd";
            on_drbd_demote_failure = codes "reboot-immediate";
            stop_services_on_exit = true;
            target_as = codes "BindsTo";
          },
        )
        ∷ [];
  }

  to_promoter_lem :
      (r : ResourceConfig) (deployed : ResourceWithVolumes) (others : List ResourceWithVolumes)
      (private : VolumeConfig) (volumes : List VolumeConfig) (vol : Linstor.Volume)
      (vols : List Linstor.Volume) (file_systems exports : List StartEntry)
      → r.volumes ≡ private ∷ volumes
      → deployed.volumes ≡ vol ∷ vols
      → fs_agents r.name vols volumes ≡ ok file_systems
      → export_agents ext r (ext.new_sha1 (uuid_nfs ext) deployed.uuid) vols volumes ≡ ok exports
      → to_promoter ext r (deployed ∷ others)
        ≡ ok (
            written_config r.name (
              start_of r deployed.name
                (resource_agent (cluster_private_volume_agent private.config vol r.name))
                file_systems
                exports))
  unfolding to_promoter agents_of
  to_promoter_lem r deployed others private volumes vol vols file_systems exports e f g h =
      simp (e, f, g, h)

  from_written :
      (name : Text) (entries : List StartEntry) (agent : StartEntry)
      (definition : ResourceDefinition) (p : Parsing)
      → scan id_prefix (id_of name) ≡ some name
      → parse_entries ext namespace vds (agent ∷ entries) (start_parsing name definition) ≡ ok p
      → p.num_portblocks ≡ 1
      → p.num_portunblocks ≡ 1
      → from_promoter ext namespace (written_config name (agent ∷ entries)) (some definition) vds
        ≡ ok p.config
  unfolding from_promoter parse_scanned parse_resources check_parsed
  from_written name entries agent definition p n h b u =
      let e : (length (agent ∷ entries) == 0) ≡ false = ground arith in
      rw n (rw (e, h) (rw (b, u) refl))

  -- If the name, the service IP, the allowed addresses (no two the same) and the deployed volumes of an
  -- NFS export are in order, one exported volume at least, `ToPromoter` succeeds, and `FromPromoter`
  -- reads back its name, its service IP, its allowed addresses and its export paths; the rest is that of
  -- LINSTOR.
  pub from_promoter-to_promoter_nfs :
      (r : ResourceConfig) (deployed : ResourceWithVolumes) (others : List ResourceWithVolumes)
      (private : VolumeConfig) (volumes : List VolumeConfig) (vol w : Linstor.Volume)
      (vols : List Linstor.Volume) (definition : ResourceDefinition) (d : VolumeDefinition)
      (ds : List VolumeDefinition)
      → ext.parse_ip (codes "0.0.0.0") ≡ some zero_address
      → IsExportName r.name
      → IsServiceIp ext r.service_ip
      → AllAllowed ext r.allowed_ips
      → Distinct ext r.allowed_ips
      → r.volumes ≡ private ∷ volumes
      → deployed.volumes ≡ vol ∷ w ∷ vols
      → find_volume (pos 0) vds ≡ some d
      → AreExported vds (w ∷ vols) volumes ds
      → (cfg : PromoterConfig) × (to_promoter ext r (deployed ∷ others) ≡ ok cfg)
        × (from_promoter ext namespace cfg (some definition) vds
            ≡ ok (read_config r definition d volumes ds))
  from_promoter-to_promoter_nfs r deployed others private volumes vol w vols definition d ds z n s a
        u e f g h =
      let uuid = ext.new_sha1 (uuid_nfs ext) deployed.uuid in
      let exports =
        export_agents-WrittenExports ext namespace vds r uuid (w ∷ vols) volumes ds z a h in
      (
        _,
        to_promoter_lem r deployed others private volumes vol (w ∷ vols)
            (fs_entries r.name (w ∷ vols) volumes) exports.entries e f
            (fs_agents_lem r.name vds (w ∷ vols) volumes ds h) exports.written,
        from_written r.name _ _ definition (read_back r definition d volumes ds)
            (scan-id_of r.name n)
            (start_steps r deployed private volumes vol w vols definition d ds uuid exports n s a u
              g h)
            refl refl,
      )
