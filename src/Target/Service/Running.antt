-- ===== src/Target/Service/Running.antt =====
-- The volumes of a target whose service is started: `DeleteVolume` and `AddVolume` of pkg/iscsi and
-- pkg/nvmeof, and `DeleteVolume` of pkg/nfs.
use linstor_gateway.Base.{◌≡◌, Option, some, ◌++◌}
use linstor_gateway.Base.Outcome.{Result, ok}
use linstor_gateway.Base.Text.{Text, codes, attribute}
use linstor_gateway.External.{External}
use linstor_gateway.Linstor.{Client}
use linstor_gateway.Reactor.Config.{PromoterConfig}
use linstor_gateway.Reactor.Files.{Deployment}
use linstor_gateway.Reactor.Store.{find_config, deployed_resources}
use linstor_gateway.Common.Volume.{VolumeConfig}
use linstor_gateway.Target.{Protocol}
use linstor_gateway.Target.Lookup.{Deployed}
use linstor_gateway.Target.Volumes.{existing_volume}

-- The run leaves the state as it is, and returns no target.
abbrev pub IsKept : {C W : Type 0} → W → Result (Option C) × W → Type 0
IsKept {C = C} w out = (out.1 ≡ w) × ((c : C) → ¬ (out.0 ≡ ok (some c)))

abbrev deployment_or : {C : Type 0} → Deployment → Result (Deployed C) → Deployment
deployment_or d (ok r) = r.deployment
deployment_or d _ = d

abbrev config_or : {C : Type 0} → C → Result (Deployed C) → C
config_or config (ok r) = r.config
config_or config _ = config

module _ {C W : Type 0} (protocol : Protocol C) (ext : External) (cli : Client W) where
  -- The promoter configuration with the id is found at the path, LINSTOR shows what is deployed for it,
  -- and both are read as a configuration of the target.
  pub record IsFound (id : Text) (w : W) (path : Text) (r : Deployed C) : Type 0 where
    pub cfg : PromoterConfig
    pub w1 : W
    pub w2 : W
    pub found : find_config cli ext id w ≡ (ok (some cfg, path), w1)
    pub deployed : deployed_resources cli cfg w1 ≡ (ok r.deployment, w2)
    pub read :
        protocol.from_promoter cfg (some r.deployment.definition) r.deployment.volume_definitions
        ≡ ok r.config

  -- The target is found, and its resource definition is not marked to have the file of the target
  -- attached: its service is stopped.
  abbrev pub IsStopped : Text → W → Type 0
  IsStopped id w =
      (path : Text) × (r : Deployed C) × IsFound id w path r
      × ¬ (attribute (codes "files" ++ path) r.deployment.definition.props ≡ codes "True")

  -- The target is found, and has a volume with the number and the size.
  abbrev pub HasVolume : Text → VolumeConfig → W → Type 0
  HasVolume id vol w =
      (path : Text) × (r : Deployed C) × (v : VolumeConfig) × IsFound id w path r
      × (existing_volume vol.number (protocol.volumes r.config) ≡ some v)
      × (v.size_kib ≡ vol.size_kib)
