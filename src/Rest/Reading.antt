-- ===== src/Rest/Reading.antt =====
-- Requests that only read, and what they disclose.
use linstor_gateway.Base.{
  ℕ, String, ◌≡◌, refl, ◌∙◌, Bool, true, false, Option, none, some, List, [], ◌∷◌, map,
  if◌then◌else◌,
}
use linstor_gateway.Base.Int.{ℤ}
use linstor_gateway.Base.Outcome.{Result, ok, err, panic}
use linstor_gateway.Base.Text.{Text}
use linstor_gateway.Base.Decimal.{atoi}
use linstor_gateway.External.{External}
use linstor_gateway.Linstor.{Client, Call}
use linstor_gateway.Common.Volume.{Volume}
use linstor_gateway.Linstor.Exec.Laws.{Keeps, ReadsOnly}
use linstor_gateway.Target.Service.Reading.{get-Keeps, list-Keeps}
use linstor_gateway.Iscsi.Iqn.{new_iqn}
use linstor_gateway.Nvmeof.Nqn.{new_nqn}
use linstor_gateway.Iscsi.ResourceConfig as Iscsi
use linstor_gateway.Nvmeof.ResourceConfig as Nvmeof
use linstor_gateway.Nfs.ResourceConfig as Nfs
use linstor_gateway.Iscsi.Service as IscsiService
use linstor_gateway.Nvmeof.Service as NvmeofService
use linstor_gateway.Nfs.Service as NfsService
use linstor_gateway.Rest.{
  Body, list_body, config_body, volume_body, start_writing, not_found, bad_request, internal_error,
  Reply, done, crashed, Handler, finish, refuse, must_error, respond, on_result, calling, given,
}
use linstor_gateway.Rest.Iscsi.{with_iqn, without_secrets, iscsi_get, iscsi_list}
use linstor_gateway.Rest.Nvmeof.{with_nqn, nvmeof_get, nvmeof_list}
use linstor_gateway.Rest.Nfs.{nfs_get, nfs_list}

-- The handler leaves the cluster as it is.
abbrev pub Leaves : {W C : Type 0} → Handler W C → Type 0
Leaves {W = W} handler = (w : W) → (handler w).1 ≡ w

module _ {W C : Type 0} where
  on_result-Leaves :
      {A : Type 0} (r : Result A) (bad : Handler W C) (good : A → Handler W C)
      → Leaves bad
      → ((a : A) → Leaves (good a))
      → Leaves (on_result r bad good)
  unfolding on_result
  on_result-Leaves (ok a) bad good b g = g a
  on_result-Leaves (err e) bad good b g = b
  on_result-Leaves panic bad good b g = λ w. refl

  calling-Leaves :
      {A : Type 0} (m : Call W A) (bad : Handler W C) (good : A → Handler W C)
      → Keeps m
      → Leaves bad
      → ((a : A) → Leaves (good a))
      → Leaves (calling m bad good)
  unfolding calling
  calling-Leaves m bad good k b g w = on_result-Leaves (m w).0 bad good b g (m w).1 ∙ k w

  given-Leaves :
      {A : Type 0} (found : Option A) (bad : Handler W C) (good : A → Handler W C)
      → Leaves bad
      → ((a : A) → Leaves (good a))
      → Leaves (given found bad good)
  unfolding given
  given-Leaves none bad good b g = b
  given-Leaves (some a) bad good b g = g a

  if-Leaves :
      (b : Bool) (good bad : Handler W C)
      → Leaves good
      → Leaves bad
      → Leaves (if b then good else bad)
  if-Leaves true good bad g h = g
  if-Leaves false good bad g h = h

  -- A GET of one target, or of one of its volumes.
  shown-Leaves :
      (m : Call W (Option C)) (failed missing invalid absent : String) (whole : Bool)
      (number : Option ℤ) (volume : C → ℤ → Option Volume) (code : ℕ)
      → Keeps m
      → Leaves (
          calling m (refuse internal_error failed) (λ found.
            given found (refuse not_found missing) (λ cfg.
              if whole
              then finish (respond 200 (config_body cfg) start_writing)
              else given number (refuse code invalid) (λ n.
                given
                  (volume cfg n)
                  (refuse not_found absent)
                  (λ vol. finish (respond 200 (volume_body (some vol)) start_writing))))))
  unfolding refuse
  shown-Leaves m failed missing invalid absent whole number volume code k =
      calling-Leaves m _ _ k (λ w. refl)
        λ found.
          given-Leaves found _ _ (λ w. refl)
            λ cfg.
              if-Leaves whole _ _ (λ w. refl)
                (given-Leaves number _ _ (λ w. refl)
                  λ n. given-Leaves (volume cfg n) _ _ (λ w. refl) λ vol. λ w. refl)

  listed-Leaves :
      (m : Call W (List C)) (failed : String) (shown : List C → List C)
      → Keeps m
      → Leaves (
          calling m
            (refuse internal_error failed)
            (λ targets. finish (respond 200 (list_body (shown targets)) start_writing)))
  unfolding refuse
  listed-Leaves m failed shown k = calling-Leaves m _ _ k (λ w. refl) λ targets. λ w. refl

module _ (ext : External) {W : Type 0} (cli : Client W) (reads : ReadsOnly cli) where
  -- The handlers of GET, of a list, of a target and of a volume, leave the cluster as it is, for each of
  -- the three kinds of target, whatever they answer, if the calls of the client that read do.
  pub handlers-Leave :
      (whole : Bool) (name number : Text)
      → Leaves (iscsi_get ext cli whole name number)
        × Leaves (iscsi_list ext cli)
        × Leaves (nvmeof_get ext cli whole name number)
        × Leaves (nvmeof_list ext cli)
        × Leaves (nfs_get ext cli whole name number)
        × Leaves (nfs_list ext cli)
  unfolding iscsi_get iscsi_list with_iqn nvmeof_get nvmeof_list with_nqn nfs_get nfs_list
      IscsiService.get IscsiService.list NvmeofService.get NvmeofService.list NfsService.get
      NfsService.list refuse
  handlers-Leave whole name number = (
    on_result-Leaves (new_iqn name) _ _ (λ w. refl)
        (λ iqn.
          shown-Leaves _ _ _ _ _ whole (atoi number) Iscsi.volume_config bad_request
            (get-Keeps (IscsiService.iscsi ext) ext cli reads iqn.wwn)),
    listed-Leaves _ _ (map without_secrets) (list-Keeps (IscsiService.iscsi ext) ext cli reads),
    on_result-Leaves (new_nqn name) _ _ (λ w. refl)
        (λ nqn.
          shown-Leaves _ _ _ _ _ whole (atoi number) Nvmeof.volume_config internal_error
            (get-Keeps (NvmeofService.nvmeof ext) ext cli reads nqn.subsystem)),
    listed-Leaves _ _ (λ targets. targets) (list-Keeps (NvmeofService.nvmeof ext) ext cli reads),
    shown-Leaves _ _ _ _ _ whole (atoi number) Nfs.volume_config bad_request
        (get-Keeps (NfsService.exports ext cli) ext cli reads name),
    listed-Leaves _ _ (λ targets. targets) (list-Keeps (NfsService.exports ext cli) ext cli reads),
  )

-- The configurations in a list carry no user and no password.
abbrev AllHidden : List Iscsi.ResourceConfig → Type 0
AllHidden [] = Unit
AllHidden (r ∷ rs) = (r.username ≡ []) × (r.password ≡ []) × AllHidden rs

abbrev Hides : List (Body Iscsi.ResourceConfig) → Type 0
Hides [] = Unit
Hides (list_body rs ∷ bodies) = AllHidden rs × Hides bodies
Hides (config_body r ∷ bodies) = ⊥
Hides (body ∷ bodies) = Hides bodies

without_secrets-AllHidden : (rs : List Iscsi.ResourceConfig) → AllHidden (map without_secrets rs)
unfolding without_secrets
without_secrets-AllHidden [] = tt
without_secrets-AllHidden (r ∷ rs) = (refl, refl, without_secrets-AllHidden rs)

abbrev pub ReplyHides : Reply Iscsi.ResourceConfig → Type 0
ReplyHides (done out) = Hides out.bodies
ReplyHides crashed = Unit

list-ReplyHides :
    {W : Type 0} (r : Result (List Iscsi.ResourceConfig)) (w : W)
    → ReplyHides
        (on_result r
          (refuse internal_error "Could not list targets: %v")
          (λ targets. finish (respond 200 (list_body (map without_secrets targets)) start_writing))
          w).0
unfolding on_result refuse respond must_error
list-ReplyHides (ok targets) w = (without_secrets-AllHidden targets, tt)
list-ReplyHides (err e) w = tt
list-ReplyHides panic w = tt

module _ (ext : External) {W : Type 0} (cli : Client W) where
  -- The list of the iSCSI targets discloses no user and no password.
  pub iscsi_list-ReplyHides : (w : W) → ReplyHides (iscsi_list ext cli w).0
  unfolding iscsi_list calling
  iscsi_list-ReplyHides w =
      list-ReplyHides (IscsiService.list ext cli w).0 (IscsiService.list ext cli w).1
