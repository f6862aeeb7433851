-- ===== src/Linstorcontrol/Ensure/Laws.antt =====
-- What has been done when `EnsureResource` succeeds, call by call.
use linstor_gateway.Base.{◌≡◌, ◌++◌, Bool, true, List, [], ◌∷◌, if◌then◌else◌}
use linstor_gateway.Base.Int.{eqb_ℤ}
use linstor_gateway.Base.Lists.{any}
use linstor_gateway.Base.Text.{codes, is_empty}
use linstor_gateway.Base.Outcome.{Result, ok, err, panic}
use linstor_gateway.Linstor.{Client, Call, Volume, ResourceWithVolumes}
use linstor_gateway.Linstor.Exec.{pure, context}
use linstor_gateway.Common.Volume.{VolumeConfig}
use linstor_gateway.Linstorcontrol.Ensure.{
  Resource, Ensured, is_err_already_exists, wanted_definition, resource_props,
}

-- The call has succeeded, or there was such a thing already.
abbrev pub IsDone : Result (Unit {0}) → Type 0
IsDone (ok u) = Unit
IsDone (err e) = is_err_already_exists e ≡ true
IsDone panic = ⊥

abbrev ensured_or : Ensured → Result Ensured → Ensured
ensured_or e (ok f) = f
ensured_or e _ = e

module _ {W : Type 0} (cli : Client W) (res : Resource) where
  -- Each volume has been asked for, one after the other, and is there.
  abbrev pub AllCreated : List VolumeConfig → W → W → Type 0
  AllCreated [] w w' = w ≡ w'
  AllCreated (v ∷ vs) w w' =
      let created =
        cli.create_volume_definition res.name
          (wanted_definition cli.namespc_filesystem res.gross_size v) w in
      IsDone created.0 × AllCreated vs created.1 w'

  -- DRBD is told not to promote the resource by itself, if it has a file system.
  abbrev pub IsPromotedByHand : W → W → Type 0
  IsPromotedByHand w w' =
      if is_empty res.file_system
      then w ≡ w'
      else cli.modify_resource_definition res.name
          ((cli.namespc_drbd_resource_options ++ codes "/auto-promote", codes "no") ∷ []) w
        ≡ (ok tt, w')

  -- Each volume that LINSTOR has beyond those of the resource has been deleted, and no other.
  abbrev pub AllExpected : List Volume → W → W → Type 0
  AllExpected [] w w' = w ≡ w'
  AllExpected (v ∷ vs) w w' =
      if any (λ vol. eqb_ℤ v.volume_number vol.number) res.volumes
      then AllExpected vs w w'
      else (cli.delete_volume_definition res.name v.volume_number w).0 ≡ ok tt
        × AllExpected vs (cli.delete_volume_definition res.name v.volume_number w).1 w'

  -- The body of the loop over the volumes, by the outcome of its test.
  abbrev removing : Bool → Volume → Call W Unit
  removing known v =
      if known
      then pure tt
      else context "failed to delete unexpected volume definition: %w"
          (cli.delete_volume_definition res.name v.volume_number)

  -- The calls of a run that succeeds, from the state `w` to the state `w'`, each in the state that the
  -- one before it left.
  pub record IsEnsured (may_exist : Bool) (w w' : W) (ensured : Ensured) : Type 0 where
    pub w1 : W
    pub w2 : W
    pub w3 : W
    pub w4 : W
    pub w5 : W
    pub w6 : W
    pub w7 : W
    pub w8 : W
    pub first : ResourceWithVolumes
    pub others : List ResourceWithVolumes
    pub group_there :
        (r : Result (Unit {0})) × (cli.create_resource_group res.resource_group w ≡ (r, w1))
        × IsDone r
    pub group_read : cli.get_resource_group res.resource_group w1 ≡ (ok ensured.group, w2)
    pub definition_there :
        (r : Result (Unit {0})) × (cli.create_resource_definition
            (record {
              name = res.name;
              resource_group_name = res.resource_group;
              props = resource_props cli.namespc_drbd_resource_options res.file_system;
            })
            w2
          ≡ (r, w3))
        × (if may_exist then IsDone r else r ≡ ok tt)
    pub volumes_there : AllCreated res.volumes w3 w4
    pub placed : cli.autoplace res.name w4 ≡ (ok tt, w5)
    pub promoted : IsPromotedByHand w5 w6
    pub definition_read : cli.get_resource_definition res.name w6 ≡ (ok ensured.definition, w7)
    pub viewed : cli.get_resource_view res.name w7 ≡ (ok ensured.resources, w8)
    pub shown : ensured.resources ≡ first ∷ others
    pub cleaned : AllExpected first.volumes w8 w'
