-- ===== src/Nvmeof/Promoter/Laws.antt =====
-- `FromPromoter` reads back what `ToPromoter` writes, by the places of the agents in the start list.
use linstor_gateway.Base.{
  ◌≡◌, refl, Bool, true, false, not, some, List, [], ◌∷◌, ◌++◌, map, arith, ltb, le→ltb_false,
}
use linstor_gateway.Base.Int.{eqb_ℤ_refl}
use linstor_gateway.Base.Lists.{length, length-append}
use linstor_gateway.Base.Outcome.{ok}
use linstor_gateway.Base.Text.{Text, codes, eq, lookup, scan, take_word, is_space, has_byte}
use linstor_gateway.Base.Decimal.Laws.{atoi-itoa}
use linstor_gateway.External.{External}
use linstor_gateway.Linstor
use linstor_gateway.Linstor.{ResourceDefinition, VolumeDefinition, ResourceWithVolumes}
use linstor_gateway.Reactor.Agent.{StartEntry, resource_agent}
use linstor_gateway.Reactor.Config.{PromoterConfig}
use linstor_gateway.Common.Ip.{service_ip_from_parts, ip_text}
use linstor_gateway.Common.Ip.Laws.{IsServiceIp, bytes_int, prefix-service_ip_from_parts}
use linstor_gateway.Common.Volume.{VolumeConfig, cluster_private_volume_agent}
use linstor_gateway.Common.Volumes.{configs_of}
use linstor_gateway.Common.Volumes.Laws.{AreDeployed}
use linstor_gateway.Nvmeof.Nqn.{Nqn}
use linstor_gateway.Nvmeof.Nqn.Laws.{new_nqn-nqn_string}
use linstor_gateway.Nvmeof.ResourceConfig.{ResourceConfig, zero_config}
use linstor_gateway.Nvmeof.Promoter.{
  id_prefix, id_of, parse_ip, parse_nqn, namespace_agent, namespace_agents, block_agent,
  unblock_agent, ip_agent, subsystem_agent, port_agent, uuid_nvmeof, to_promoter, from_promoter,
}

-- A name that `Sscanf` can read: it has a first byte, and that is no space.
abbrev pub starts_word : Text → Bool
starts_word [] = false
starts_word (c ∷ s) = not (is_space c)

-- The two parts of the name hold no colon, and the subsystem starts a word.
pub record IsNqn (n : Nqn) : Type 0 where
  pub vendor : has_byte b':' n.vendor ≡ false
  pub subsystem : has_byte b':' n.subsystem ≡ false
  pub starts : starts_word n.subsystem ≡ true

scan_id : (w : Text) → starts_word w ≡ true → (x : Text) × (scan id_prefix (id_of w) ≡ some x)
unfolding scan
scan_id [] h = cc
scan_id (c ∷ w) h = (c ∷ take_word w, ground arith)

module _ (ext : External) where
  abbrev namespace_entry : ResourceConfig → Text → Linstor.Volume → StartEntry
  namespace_entry r uuid_ns vol = resource_agent (namespace_agent ext r uuid_ns vol)

  namespace_agents_lem :
      (r : ResourceConfig) (uuid_ns : Text) (vols : List Linstor.Volume) (vs : List VolumeConfig)
      → AreDeployed vols vs
      → namespace_agents ext r uuid_ns vols vs ≡ ok (map (namespace_entry r uuid_ns) vols)
  unfolding namespace_agents
  namespace_agents_lem r uuid_ns [] vs h = refl
  namespace_agents_lem r uuid_ns (vol ∷ vols) [] h = elim h [ ]
  namespace_agents_lem r uuid_ns (vol ∷ vols) (v ∷ vs) h =
      rw (h.0, eqb_ℤ_refl v.number) (rw (namespace_agents_lem r uuid_ns vols vs h.1))

  parse_ip-ip_agent :
      (r : ResourceConfig)
      → IsServiceIp ext r.service_ip
      → parse_ip ext (some (resource_agent (ip_agent ext r))) ≡ ok r.service_ip
  unfolding parse_ip ip_agent eq lookup ip_text service_ip_from_parts
  parse_ip-ip_agent r h =
      rw (h.made, prefix-service_ip_from_parts h.address h.length h.in_range)
        (rw (h.readable.read_back, atoi-itoa h.length (bytes_int h.address h.length h.in_range)))

  parse_nqn-subsystem_agent :
      (r : ResourceConfig)
      → IsNqn r.nqn
      → parse_nqn (some (resource_agent (subsystem_agent ext r))) ≡ ok r.nqn
  unfolding parse_nqn subsystem_agent eq lookup
  parse_nqn-subsystem_agent r h = new_nqn-nqn_string r.nqn h.vendor h.subsystem

  -- The start list that `ToPromoter` writes, after its first four entries and in full.
  abbrev ending : ResourceConfig → Text → List StartEntry → List StartEntry
  ending r name namespaces =
      namespaces
      ++ (resource_agent (port_agent ext r) ∷ resource_agent (unblock_agent ext r name) ∷ [])

  abbrev start_of : ResourceConfig → Text → StartEntry → List StartEntry → List StartEntry
  start_of r name private namespaces =
      resource_agent (block_agent ext r)
      ∷ private
      ∷ resource_agent (ip_agent ext r)
      ∷ resource_agent (subsystem_agent ext r)
      ∷ ending r name namespaces

  start_long :
      (r : ResourceConfig) (name : Text) (private : StartEntry) (namespaces : List StartEntry)
      → ltb (length (start_of r name private namespaces)) 5 ≡ false
  start_long r name private namespaces =
      let tail : List StartEntry =
        resource_agent (port_agent ext r) ∷ resource_agent (unblock_agent ext r name) ∷ [] in
      le→ltb_false 5 (length (start_of r name private namespaces))
        (omega (arith, length-append namespaces tail))

  -- What `ToPromoter` returns.
  abbrev written_config : ResourceConfig → Text → StartEntry → List StartEntry → PromoterConfig
  written_config r name private namespaces = record {
    id = id_of r.nqn.subsystem;
    resources =
        (
          r.nqn.subsystem,
          record {
            start = start_of r name private namespaces;
            runner = codes "systemd";
            on_drbd_demote_failure = codes "reboot-immediate";
            stop_services_on_exit = true;
            target_as = codes "Requires";
          },
        )
        ∷ [];
  }

  abbrev namespaces_of :
      ResourceConfig → ResourceWithVolumes → List Linstor.Volume → List StartEntry
  namespaces_of r deployed vols =
      map (namespace_entry r (ext.new_sha1 (uuid_nvmeof ext) deployed.uuid)) vols

  to_promoter_lem :
      (r : ResourceConfig) (deployed : ResourceWithVolumes) (others : List ResourceWithVolumes)
      (private : VolumeConfig) (volumes : List VolumeConfig) (vol : Linstor.Volume)
      (vols : List Linstor.Volume)
      → r.volumes ≡ private ∷ volumes
      → deployed.volumes ≡ vol ∷ vols
      → AreDeployed vols volumes
      → to_promoter ext r (deployed ∷ others)
        ≡ ok (
            written_config r deployed.name
              (resource_agent (cluster_private_volume_agent private vol r.nqn.subsystem))
              (namespaces_of r deployed vols))
  unfolding to_promoter
  to_promoter_lem r deployed others private volumes vol vols e f g =
      let h =
        namespace_agents_lem r (ext.new_sha1 (uuid_nvmeof ext) deployed.uuid) vols volumes g in
      simp (e, f, h)

  -- The configuration that is read: all but the name and the service IP comes from LINSTOR, and
  -- the flag for gross sizes from nowhere.
  abbrev pub read_config :
      ResourceConfig → ResourceDefinition → List VolumeDefinition → ResourceConfig
  read_config r definition volume_definitions = record zero_config {
    nqn = r.nqn;
    service_ip = r.service_ip;
    resource_group = definition.resource_group_name;
    volumes = configs_of volume_definitions;
  }

  from_written :
      (r : ResourceConfig) (name : Text) (private : StartEntry) (namespaces : List StartEntry)
      (definition : ResourceDefinition) (volume_definitions : List VolumeDefinition)
      → IsNqn r.nqn
      → IsServiceIp ext r.service_ip
      → from_promoter ext
          (written_config r name private namespaces)
          (some definition)
          volume_definitions
        ≡ ok (read_config r definition volume_definitions)
  unfolding from_promoter
  from_written r name private namespaces definition volume_definitions q s =
      let (x, e) = scan_id r.nqn.subsystem q.starts in
      rw (e, start_long r name private namespaces)
        (rw (parse_ip-ip_agent r s) (rw (parse_nqn-subsystem_agent r q)))

  -- If the name, the service IP and the deployed volumes of a target are in order, `ToPromoter`
  -- succeeds, and `FromPromoter` reads back its NQN and service IP; the group and the volumes are
  -- those of LINSTOR, and `GrossSize` is false whatever it was.
  pub from_promoter-to_promoter_nvmeof :
      (r : ResourceConfig) (deployed : ResourceWithVolumes) (others : List ResourceWithVolumes)
      (private : VolumeConfig) (volumes : List VolumeConfig) (vol : Linstor.Volume)
      (vols : List Linstor.Volume) (definition : ResourceDefinition)
      (volume_definitions : List VolumeDefinition)
      → IsNqn r.nqn
      → IsServiceIp ext r.service_ip
      → r.volumes ≡ private ∷ volumes
      → deployed.volumes ≡ vol ∷ vols
      → AreDeployed vols volumes
      → (cfg : PromoterConfig) × (to_promoter ext r (deployed ∷ others) ≡ ok cfg)
        × (from_promoter ext cfg (some definition) volume_definitions
            ≡ ok (read_config r definition volume_definitions))
  from_promoter-to_promoter_nvmeof r deployed others private volumes vol vols definition
        volume_definitions q s e f g =
      let agent = resource_agent (cluster_private_volume_agent private vol r.nqn.subsystem) in
      (
        written_config r deployed.name agent (namespaces_of r deployed vols),
        to_promoter_lem r deployed others private volumes vol vols e f g,
        from_written r deployed.name agent (namespaces_of r deployed vols) definition
            volume_definitions q s,
      )
