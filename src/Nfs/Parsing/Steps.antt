-- ===== src/Nfs/Parsing/Steps.antt =====
-- How `FromPromoter` reads the runs of agents that `ToPromoter` writes for the volumes.
use mathlib.Core.List.{append_assoc, append-nil}
use linstor_gateway.Base.{ℕ, ◌+◌, ◌≡◌, refl, sym, ap, ◌∙◌, true, List, [], ◌∷◌, ◌++◌, map, some}
use linstor_gateway.Base.Int.{ℤ, eqb_ℤ, eqb_ℤ_refl}
use linstor_gateway.Base.Lists.{any}
use linstor_gateway.Base.Outcome.{ok}
use linstor_gateway.Base.Text.{Text, codes, eq}
use linstor_gateway.Base.FilePath.Laws.{IsPlain}
use linstor_gateway.External.{External}
use linstor_gateway.Linstor
use linstor_gateway.Linstor.{VolumeDefinition}
use linstor_gateway.Reactor.Agent.{ResourceAgent, StartEntry, resource_agent}
use linstor_gateway.Common.Ip.{IpCidr, cidr_string}
use linstor_gateway.Nfs.Cidr.Laws.{
  IsAllowedIp, zero_address, as_read, cidr_from_nfs-nfs_format_cidr,
}
use linstor_gateway.Nfs.ResourceConfig.{ResourceConfig, VolumeConfig, export_path_of}
use linstor_gateway.Nfs.Promoter.{fs_agent, fs_agents, export_agent, exports_of, export_agents}
use linstor_gateway.Nfs.Parsing.{Parsing, volume_of, add_allowed, parse_agent, parse_entries}
use linstor_gateway.Nfs.Parsing.Allowed.{
  Distinct, add_all, add_all-Distinct, add_all-again, cidr_string-as_read,
}
use linstor_gateway.Nfs.Parsing.Agents.{IsExported, with_volume, with_allowed, fs_step, export_step}

-- The deployed volumes are the exported ones, which have the volume definitions.
abbrev pub AreExported :
    List VolumeDefinition → List Linstor.Volume → List VolumeConfig → List VolumeDefinition → Type 0
AreExported vds [] [] [] = Unit
AreExported vds (vol ∷ vols) (v ∷ vs) (d ∷ ds) =
    (vol.volume_number ≡ v.config.number) × IsExported vds v d × AreExported vds vols vs ds
AreExported vds _ _ _ = ⊥

-- What is read of the exported volumes: their paths, and the rest from their definitions.
abbrev pub read_volumes : Text → List VolumeConfig → List VolumeDefinition → List VolumeConfig
read_volumes namespace (v ∷ vs) (d ∷ ds) =
    volume_of namespace d v.export_path ∷ read_volumes namespace vs ds
read_volumes namespace _ _ = []

abbrev pub with_volumes : List VolumeConfig → Parsing → Parsing
with_volumes vs p = record p { config = record (p.config) { volumes = p.config.volumes ++ vs } }

abbrev pub fs_entries : Text → List Linstor.Volume → List VolumeConfig → List StartEntry
fs_entries name (vol ∷ vols) (v ∷ vs) =
    resource_agent (fs_agent name vol v) ∷ fs_entries name vols vs
fs_entries name _ _ = []

same_number :
    (vol : Linstor.Volume) (v : VolumeConfig)
    → vol.volume_number ≡ v.config.number
    → eqb_ℤ vol.volume_number v.config.number ≡ true
same_number vol v e = rw e (eqb_ℤ_refl v.config.number)

pub fs_agents_lem :
    (name : Text) (vds : List VolumeDefinition) (vols : List Linstor.Volume)
    (vs : List VolumeConfig) (ds : List VolumeDefinition)
    → AreExported vds vols vs ds
    → fs_agents name vols vs ≡ ok (fs_entries name vols vs)
unfolding fs_agents
fs_agents_lem name vds [] [] [] h = refl
fs_agents_lem name vds (vol ∷ vols) (v ∷ vs) (d ∷ ds) h =
    rw (same_number vol v h.0) (rw (fs_agents_lem name vds vols vs ds h.2) refl)
fs_agents_lem name vds [] (v ∷ vs) ds h = elim h [ ]
fs_agents_lem name vds [] [] (d ∷ ds) h = elim h [ ]
fs_agents_lem name vds (vol ∷ vols) [] ds h = elim h [ ]
fs_agents_lem name vds (vol ∷ vols) (v ∷ vs) [] h = elim h [ ]

module _ (ext : External) where
  abbrev pub AllAllowed : List IpCidr → Type 0
  AllAllowed [] = Unit
  AllAllowed (c ∷ cs) = IsAllowedIp ext c × AllAllowed cs

  any-as_read :
      (t : Text) (cs : List IpCidr)
      → AllAllowed cs
      → any (λ d. eq (cidr_string ext d) t) (map as_read cs)
        ≡ any (λ d. eq (cidr_string ext d) t) cs
  any-as_read t [] h = refl
  any-as_read t (c ∷ cs) h = rw (cidr_string-as_read ext c h.0, any-as_read t cs h.1) refl

  Distinct-as_read :
      (cs : List IpCidr) → AllAllowed cs → Distinct ext cs → Distinct ext (map as_read cs)
  Distinct-as_read [] a h = tt
  Distinct-as_read (c ∷ cs) a h = (
    rw (cidr_string-as_read ext c a.0) (any-as_read (cidr_string ext c) cs a.1 ∙ h.0),
    Distinct-as_read cs a.1 h.1,
  )

  -- The addresses, added once for every volume.
  abbrev pub add_each : List IpCidr → List Linstor.Volume → List IpCidr → List IpCidr
  add_each cs [] allowed = allowed
  add_each cs (vol ∷ vols) allowed = add_each cs vols (add_all ext allowed cs)

  add_each-again : (cs : List IpCidr) (vols : List Linstor.Volume) → add_each cs vols cs ≡ cs
  add_each-again cs [] = refl
  add_each-again cs (vol ∷ vols) = rw (add_all-again ext [] cs) (add_each-again cs vols)

  pub add_each_lem :
      (cs : List IpCidr) (vol : Linstor.Volume) (vols : List Linstor.Volume)
      → AllAllowed cs
      → Distinct ext cs
      → add_each (map as_read cs) (vol ∷ vols) [] ≡ map as_read cs
  add_each_lem cs vol vols a h =
      rw (add_all-Distinct ext [] (map as_read cs) (Distinct-as_read cs a h))
        (add_each-again (map as_read cs) vols)

  module _ (namespace : Text) (vds : List VolumeDefinition) where
    pub agent_first :
        (agent : ResourceAgent) (rest : List StartEntry) (p q : Parsing)
        → parse_agent ext namespace vds agent p ≡ ok q
        → parse_entries ext namespace vds (resource_agent agent ∷ rest) p
          ≡ parse_entries ext namespace vds rest q
    unfolding parse_entries
    agent_first agent rest p q h = rw h

    pub fs_steps :
        (rest : List StartEntry) (vols : List Linstor.Volume) (vs : List VolumeConfig)
        (ds : List VolumeDefinition) (p : Parsing)
        → IsPlain p.config.name
        → AreExported vds vols vs ds
        → parse_entries ext namespace vds (fs_entries p.config.name vols vs ++ rest) p
          ≡ parse_entries ext namespace vds rest (with_volumes (read_volumes namespace vs ds) p)
    fs_steps rest [] [] [] p n h =
        ap
          (λ (l : List VolumeConfig).
            parse_entries ext namespace vds rest
              (record p { config = record (p.config) { volumes = l } }))
          (sym (append-nil p.config.volumes))
    fs_steps rest (vol ∷ vols) (v ∷ vs) (d ∷ ds) p n h =
        let w = volume_of namespace d v.export_path in
        agent_first (fs_agent p.config.name vol v) (fs_entries p.config.name vols vs ++ rest) p
          (with_volume w p) (fs_step ext namespace vds vol v d p n h.1 h.0)
        ∙ fs_steps rest vols vs ds (with_volume w p) n h.2
        ∙ ap
            (λ (l : List VolumeConfig).
              parse_entries ext namespace vds rest
                (record p { config = record (p.config) { volumes = l } }))
            (append_assoc p.config.volumes (w ∷ []) (read_volumes namespace vs ds))
    fs_steps rest [] (v ∷ vs) ds p n h = elim h [ ]
    fs_steps rest [] [] (d ∷ ds) p n h = elim h [ ]
    fs_steps rest (vol ∷ vols) [] ds p n h = elim h [ ]
    fs_steps rest (vol ∷ vols) (v ∷ vs) [] p n h = elim h [ ]

    -- The agents of the allowed addresses of one directory.
    pub record WrittenAllowed (directory fsid : Text) (number : ℤ) (j : ℕ) (cs : List IpCidr)
        : Type 0 where
      pub entries : List StartEntry
      pub written : exports_of ext directory fsid number j cs ≡ ok entries
      pub read_back :
          (rest : List StartEntry) (p : Parsing)
          → parse_entries ext namespace vds (entries ++ rest) p
            ≡ parse_entries ext namespace vds rest
                (with_allowed (add_all ext p.config.allowed_ips (map as_read cs)) p)

    pub exports_of-WrittenAllowed :
        (directory fsid : Text) (number : ℤ) (j : ℕ) (cs : List IpCidr)
        → ext.parse_ip (codes "0.0.0.0") ≡ some zero_address
        → AllAllowed cs
        → WrittenAllowed directory fsid number j cs
    unfolding exports_of
    exports_of-WrittenAllowed directory fsid number j [] z a = record {
      entries = [];
      written = refl;
      read_back = λ rest p. refl;
    }
    exports_of-WrittenAllowed directory fsid number j (c ∷ cs) z a =
        let (text, w, r) = cidr_from_nfs-nfs_format_cidr ext c z a.0 in
        let more = exports_of-WrittenAllowed directory fsid number (j + 1) cs z a.1 in
        let agent = export_agent ext directory fsid number j text in
        record {
          entries = resource_agent agent ∷ more.entries;
          written = rw (w, more.written) refl;
          read_back = λ rest p.
              let q = with_allowed (add_allowed ext (as_read c) p.config.allowed_ips) p in
              agent_first agent (more.entries ++ rest) p q
                (export_step ext namespace vds directory fsid number j text (as_read c) p r)
              ∙ more.read_back rest q;
        }

    -- The agents of the exported volumes.
    pub record WrittenExports (r : ResourceConfig) (uuid : Text) (vols : List Linstor.Volume)
        (vs : List VolumeConfig) : Type 0 where
      pub entries : List StartEntry
      pub written : export_agents ext r uuid vols vs ≡ ok entries
      pub read_back :
          (rest : List StartEntry) (p : Parsing)
          → parse_entries ext namespace vds (entries ++ rest) p
            ≡ parse_entries ext namespace vds rest
                (with_allowed (add_each (map as_read r.allowed_ips) vols p.config.allowed_ips) p)

    pub export_agents-WrittenExports :
        (r : ResourceConfig) (uuid : Text) (vols : List Linstor.Volume) (vs : List VolumeConfig)
        (ds : List VolumeDefinition)
        → ext.parse_ip (codes "0.0.0.0") ≡ some zero_address
        → AllAllowed r.allowed_ips
        → AreExported vds vols vs ds
        → WrittenExports r uuid vols vs
    unfolding export_agents
    export_agents-WrittenExports r uuid [] [] [] z a h = record {
      entries = [];
      written = refl;
      read_back = λ rest p. refl;
    }
    export_agents-WrittenExports r uuid (vol ∷ vols) (v ∷ vs) (d ∷ ds) z a h =
        let first =
          exports_of-WrittenAllowed (export_path_of r.name v) (ext.new_sha1 uuid vol.uuid)
            vol.volume_number 0 r.allowed_ips z a in
        let more = export_agents-WrittenExports r uuid vols vs ds z a h.2 in
        record {
          entries = first.entries ++ more.entries;
          written = rw (same_number vol v h.0) (rw (first.written, more.written) refl);
          read_back = λ rest p.
              ap (λ (l : List StartEntry). parse_entries ext namespace vds l p)
                (append_assoc first.entries more.entries rest)
              ∙ first.read_back (more.entries ++ rest) p
              ∙ more.read_back rest
                  (with_allowed (add_all ext p.config.allowed_ips (map as_read r.allowed_ips)) p);
        }
    export_agents-WrittenExports r uuid [] (v ∷ vs) ds z a h = elim h [ ]
    export_agents-WrittenExports r uuid [] [] (d ∷ ds) z a h = elim h [ ]
    export_agents-WrittenExports r uuid (vol ∷ vols) [] ds z a h = elim h [ ]
    export_agents-WrittenExports r uuid (vol ∷ vols) (v ∷ vs) [] z a h = elim h [ ]
