-- ===== src/Iscsi/Promoter/Laws.antt =====
-- `FromPromoter` reads back what `ToPromoter` writes.
use mathlib.Core.List.{append-nil}
use linstor_gateway.Base.{
  ℕ, ◌+◌, ◌<◌, ◌≡◌, refl, sym, ap, ◌∙◌, true, false, some, List, [], ◌∷◌, ◌++◌, map, arith, ltb,
  le→ltb_false,
}
use linstor_gateway.Base.Int.{eqb_ℤ_refl}
use linstor_gateway.Base.Lists.{length, length-append, any}
use linstor_gateway.Base.Outcome.{ok}
use linstor_gateway.Base.Text.{Text, codes, eq, scan, take_word}
use linstor_gateway.External.{External}
use linstor_gateway.Linstor
use linstor_gateway.Linstor.{ResourceDefinition, VolumeDefinition, ResourceWithVolumes}
use linstor_gateway.Reactor.Agent.{ResourceAgent, StartEntry, resource_agent}
use linstor_gateway.Common.Ip.{IpCidr}
use linstor_gateway.Common.Volumes.{configs_of}
use linstor_gateway.Common.Volumes.Laws.{AreDeployed}
use linstor_gateway.Reactor.Config.{PromoterConfig}
use linstor_gateway.Common.Volume.{VolumeConfig, cluster_private_volume_agent}
use linstor_gateway.Iscsi.Iqn.{is_resource_name}
use linstor_gateway.Iscsi.Iqn.Laws.{IsIqn}
use linstor_gateway.Iscsi.ResourceConfig.{ResourceConfig, zero_config}
use linstor_gateway.Iscsi.Promoter.Reading.{
  AllServiceIps, AllIqns, lun_entry, private_step, target_step, block_steps, unblock_steps,
  ip_steps, lun_steps, with_target, agent_first,
}
use linstor_gateway.Iscsi.Promoter.{
  id_prefix, id_of, Parsing, parse_entries, check_parsed, for_ips, block_agent, ip_agent,
  unblock_agent, target_agent, lun_agents, to_promoter, from_promoter, start_parsing,
}

module _ (ext : External) where
  lun_agents_lem :
      (r : ResourceConfig) (vols : List Linstor.Volume) (vs : List VolumeConfig)
      → AreDeployed vols vs
      → lun_agents ext r vols vs ≡ ok (map (lun_entry ext r) vols)
  unfolding lun_agents
  lun_agents_lem r [] vs h = refl
  lun_agents_lem r (vol ∷ vols) [] h = elim h [ ]
  lun_agents_lem r (vol ∷ vols) (v ∷ vs) h =
      rw (h.0, eqb_ℤ_refl v.number) (rw (lun_agents_lem r vols vs h.1))

  length-for_ips :
      (f : ℕ → IpCidr → ResourceAgent) (i : ℕ) (ips : List IpCidr)
      → length (for_ips f i ips) ≡ length ips
  unfolding for_ips
  length-for_ips f i [] = refl
  length-for_ips f i (ip ∷ ips) = omega (arith, length-for_ips f (i + 1) ips)

  -- The start list that `ToPromoter` writes.
  abbrev start_of : ResourceConfig → Text → StartEntry → List Linstor.Volume → List StartEntry
  start_of r name private vols =
      private
      ∷ (for_ips (block_agent ext) 0 r.service_ips
          ++ (for_ips (ip_agent ext) 0 r.service_ips
              ++ (resource_agent (target_agent ext r)
                  ∷ (map (lun_entry ext r) vols
                      ++ for_ips (unblock_agent ext name) 0 r.service_ips))))

  start_long :
      (r : ResourceConfig) (name : Text) (private : StartEntry) (vols : List Linstor.Volume)
      → 0 < length r.service_ips
      → ltb (length (start_of r name private vols)) 4 ≡ false
  start_long r name private vols h =
      let blocks = for_ips (block_agent ext) 0 r.service_ips in
      let ips = for_ips (ip_agent ext) 0 r.service_ips in
      let unblocks = for_ips (unblock_agent ext name) 0 r.service_ips in
      let luns = map (lun_entry ext r) vols in
      le→ltb_false 4 (length (start_of r name private vols)) (
        omega (
          arith,
          length-append blocks (ips ++ (resource_agent (target_agent ext r) ∷ (luns ++ unblocks))),
          length-append ips (resource_agent (target_agent ext r) ∷ (luns ++ unblocks)),
          length-append luns unblocks,
          length-for_ips (block_agent ext) 0 r.service_ips,
          length-for_ips (ip_agent ext) 0 r.service_ips,
          length-for_ips (unblock_agent ext name) 0 r.service_ips,
        ))

  -- What the whole start list is read as.
  abbrev read_back : ResourceConfig → Parsing
  read_back r = record {
    config = record zero_config {
      iqn = r.iqn;
      username = r.username;
      password = r.password;
      allowed_initiators = r.allowed_initiators;
      service_ips = r.service_ips;
    };
    num_portblocks = length r.service_ips;
    num_portunblocks = length r.service_ips;
  }

  start_steps :
      (r : ResourceConfig) (name : Text) (v : VolumeConfig) (vol : Linstor.Volume)
      (vols : List Linstor.Volume)
      → IsIqn r.iqn
      → AllIqns ext r.allowed_initiators
      → AllServiceIps ext r.service_ips
      → parse_entries ext
          (start_of r name (resource_agent (cluster_private_volume_agent v vol r.iqn.wwn)) vols)
          start_parsing
        ≡ ok (read_back r)
  unfolding parse_entries
  start_steps r name v vol vols q a s =
      let ips = r.service_ips in
      let unblocks = for_ips (unblock_agent ext name) 0 ips in
      let after_target = map (lun_entry ext r) vols ++ unblocks in
      let after_ips = resource_agent (target_agent ext r) ∷ after_target in
      let p1 : Parsing = record start_parsing { num_portblocks = 0 + length ips } in
      let p2 : Parsing = record p1 { config = record (p1.config) { service_ips = ips } } in
      agent_first ext (cluster_private_volume_agent v vol r.iqn.wwn)
        (for_ips (block_agent ext) 0 ips ++ (for_ips (ip_agent ext) 0 ips ++ after_ips))
        start_parsing start_parsing (private_step ext v vol r.iqn.wwn start_parsing)
      ∙ block_steps ext (for_ips (ip_agent ext) 0 ips ++ after_ips) ips 0 start_parsing
      ∙ ip_steps ext after_ips ips 0 p1 s
      ∙ agent_first ext (target_agent ext r) after_target p2 (with_target ext r p2)
          (target_step ext r p2 q a)
      ∙ lun_steps ext unblocks r vols (with_target ext r p2)
      ∙ ap (λ (l : List StartEntry). parse_entries ext l (with_target ext r p2))
          (sym (append-nil unblocks))
      ∙ unblock_steps ext [] name ips 0 (with_target ext r p2)
      ∙ ground arith

  scan_id :
      (w : Text) → is_resource_name w ≡ true → (x : Text) × (scan id_prefix (id_of w) ≡ some x)
  unfolding scan is_resource_name
  scan_id [] h = cc
  scan_id (c ∷ []) h = cc
  scan_id (c ∷ d ∷ w) h = (c ∷ take_word (d ∷ w), ground arith)

  check_read_back : (r : ResourceConfig) → check_parsed ext (read_back r) ≡ ok (read_back r).config
  unfolding check_parsed
  check_read_back r = ground arith

  -- The configuration that is read: the group, the volumes and the flag come from LINSTOR.
  abbrev pub read_config :
      ResourceConfig → ResourceDefinition → List VolumeDefinition → ResourceConfig
  read_config r definition volume_definitions = record r {
    resource_group = definition.resource_group_name;
    volumes = configs_of volume_definitions;
    status = zero_config.status;
    gross_size = any (λ vd. any (λ flag. eq flag (codes "GROSS_SIZE")) vd.flags) volume_definitions;
  }

  -- What `ToPromoter` returns.
  abbrev written_config : ResourceConfig → Text → StartEntry → List Linstor.Volume → PromoterConfig
  written_config r name private vols = record {
    id = id_of r.iqn.wwn;
    resources =
        (
          r.iqn.wwn,
          record {
            start = start_of r name private vols;
            runner = codes "systemd";
            on_drbd_demote_failure = codes "reboot-immediate";
            stop_services_on_exit = true;
            target_as = codes "Requires";
          },
        )
        ∷ [];
  }

  to_promoter_lem :
      (r : ResourceConfig) (deployed : ResourceWithVolumes) (others : List ResourceWithVolumes)
      (private : VolumeConfig) (volumes : List VolumeConfig) (vol : Linstor.Volume)
      (vols : List Linstor.Volume)
      → r.volumes ≡ private ∷ volumes
      → deployed.volumes ≡ vol ∷ vols
      → AreDeployed vols volumes
      → to_promoter ext r (deployed ∷ others)
        ≡ ok (
            written_config r deployed.name
              (resource_agent (cluster_private_volume_agent private vol r.iqn.wwn))
              vols)
  unfolding to_promoter
  to_promoter_lem r deployed others private volumes vol vols e f g =
      let h = lun_agents_lem r vols volumes g in simp (e, f, h)

  from_written :
      (r : ResourceConfig) (name : Text) (private : VolumeConfig) (vol : Linstor.Volume)
      (vols : List Linstor.Volume) (definition : ResourceDefinition)
      (volume_definitions : List VolumeDefinition)
      → IsIqn r.iqn
      → AllIqns ext r.allowed_initiators
      → AllServiceIps ext r.service_ips
      → 0 < length r.service_ips
      → from_promoter ext
          (written_config r name
            (resource_agent (cluster_private_volume_agent private vol r.iqn.wwn))
            vols)
          (some definition)
          volume_definitions
        ≡ ok (read_config r definition volume_definitions)
  unfolding from_promoter
  from_written r name private vol vols definition volume_definitions q a s n =
      let (x, e) = scan_id r.iqn.wwn q.name in
      rw
        (
          e,
          start_long r name (resource_agent (cluster_private_volume_agent private vol r.iqn.wwn))
              vols n,
        )
        (rw (start_steps r name private vol vols q a s) (rw (check_read_back r)))

  -- If the names, the service IPs (one at least) and the deployed volumes of a target are in order,
  -- `ToPromoter` succeeds, and `FromPromoter` reads back its IQN, initiators, user, password and
  -- service IPs; the rest is that of LINSTOR.
  pub from_promoter-to_promoter :
      (r : ResourceConfig) (deployed : ResourceWithVolumes) (others : List ResourceWithVolumes)
      (private : VolumeConfig) (volumes : List VolumeConfig) (vol : Linstor.Volume)
      (vols : List Linstor.Volume) (definition : ResourceDefinition)
      (volume_definitions : List VolumeDefinition)
      → IsIqn r.iqn
      → AllIqns ext r.allowed_initiators
      → AllServiceIps ext r.service_ips
      → 0 < length r.service_ips
      → r.volumes ≡ private ∷ volumes
      → deployed.volumes ≡ vol ∷ vols
      → AreDeployed vols volumes
      → (cfg : PromoterConfig) × (to_promoter ext r (deployed ∷ others) ≡ ok cfg)
        × (from_promoter ext cfg (some definition) volume_definitions
            ≡ ok (read_config r definition volume_definitions))
  from_promoter-to_promoter r deployed others private volumes vol vols definition volume_definitions
        q a s n e f g =
      (
        written_config r deployed.name
            (resource_agent (cluster_private_volume_agent private vol r.iqn.wwn)) vols,
        to_promoter_lem r deployed others private volumes vol vols e f g,
        from_written r deployed.name private vol vols definition volume_definitions q a s n,
      )
