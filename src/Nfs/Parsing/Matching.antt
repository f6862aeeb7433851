-- ===== src/Nfs/Parsing/Matching.antt =====
-- Which configurations match an export that is deployed as it was configured.
use linstor_gateway.Base.{ℕ, ◌≡◌, List, [], ◌∷◌, map}
use linstor_gateway.Base.Int.{ℤ}
use linstor_gateway.Base.Text.{Text}
use linstor_gateway.External.{External}
use linstor_gateway.Linstor.{VolumeDefinition}
use linstor_gateway.Common.Ip.{cidr_string}
use linstor_gateway.Common.Volumes.{number_of}
use linstor_gateway.Nfs.ResourceConfig.{ResourceConfig, VolumeConfig}

-- A volume definition with the number and the size of a configured volume.
pub record IsDefined (v : VolumeConfig) (d : VolumeDefinition) : Type 0 where
  pub same_number : number_of d.volume_number ≡ v.config.number
  pub same_size : d.size_kib ≡ v.config.size_kib

abbrev pub AllDefined : List VolumeConfig → List VolumeDefinition → Type 0
AllDefined [] [] = Unit
AllDefined (v ∷ vs) (d ∷ ds) = IsDefined v d × AllDefined vs ds
AllDefined _ _ = ⊥

-- The number, size and export path of a volume.
abbrev key : VolumeConfig → ℤ × ℕ × Text
key v = (v.config.number, v.config.size_kib, v.export_path)

module _ (ext : External) where
  -- The configurations have the same name, resource group, service IP, allowed IPs and volumes: IPs by
  -- their texts, volumes by number, size and export path, all in the same order.
  pub record IsSame (r o : ResourceConfig) : Type 0 where
    pub names : r.name ≡ o.name
    pub groups : r.resource_group ≡ o.resource_group
    pub service_ips : cidr_string ext r.service_ip ≡ cidr_string ext o.service_ip
    pub allowed_ips : map (cidr_string ext) r.allowed_ips ≡ map (cidr_string ext) o.allowed_ips
    pub volumes : map key r.volumes ≡ map key o.volumes
