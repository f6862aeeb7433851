-- ===== src/Rest/Answers.antt =====
-- The status codes of the handlers against the outcomes of the operations.
use linstor_gateway.Base.{ℕ, String, ◌≡◌, refl, true, false, Option, none, some}
use linstor_gateway.Base.Int.{ℤ}
use linstor_gateway.Base.Outcome.{Result, ok, err, panic}
use linstor_gateway.Base.Text.{Text, codes}
use linstor_gateway.Base.Decimal.{atoi}
use linstor_gateway.External.{External}
use linstor_gateway.Linstor.{Client, Call}
use linstor_gateway.Iscsi.Iqn.{Iqn, new_iqn}
use linstor_gateway.Nvmeof.Nqn.{Nqn, new_nqn}
use linstor_gateway.Iscsi.Service as IscsiService
use linstor_gateway.Nvmeof.Service as NvmeofService
use linstor_gateway.Nfs.Service as NfsService
use linstor_gateway.Rest.{
  Body, Written, Reply, done, crashed, Handler, start_writing, must_error, respond, finish, refuse,
  on_result, calling, given, config_body, empty_body, with_location, not_found, internal_error,
}
use linstor_gateway.Rest.Iscsi.{with_iqn, iscsi_get, iscsi_start, iscsi_stop, iscsi_delete}
use linstor_gateway.Rest.Nvmeof.{with_nqn, nvmeof_get, nvmeof_start, nvmeof_stop, nvmeof_delete}
use linstor_gateway.Rest.Nfs.{nfs_get, nfs_start, nfs_stop, nfs_delete}

-- The status code of a response, none after a run-time panic.
abbrev pub status_of : {C : Type 0} → Reply C → Option ℕ
status_of (done out) = out.status
status_of crashed = none

-- The status code for what an operation on one target returns: 500 for an error, 404 for no target.
abbrev pub code_of : {C : Type 0} → Result (Option C) → Option ℕ
code_of (ok (some cfg)) = some 200
code_of (ok none) = some not_found
code_of (err e) = some internal_error
code_of panic = none

module _ {W C : Type 0} where
  -- The handler answers with the status code for what the operation returns.
  abbrev pub Follows : Handler W C → Call W (Option C) → Type 0
  Follows handler operation = (w : W) → status_of (handler w).0 ≡ code_of (operation w).0

  pub answer :
      (r : Result (Option C)) (failed missing : String) (body : C → Body C) (out : Written C)
      (w : W)
      → out.status ≡ none
      → status_of
          (on_result r
            (refuse internal_error failed)
            (λ found.
              given found (refuse not_found missing) (λ cfg. finish (respond 200 (body cfg) out)))
            w).0
        ≡ code_of r
  unfolding on_result given refuse respond must_error
  answer (ok (some cfg)) failed missing body out w h = rw h refl
  answer (ok none) failed missing body out w h = refl
  answer (err e) failed missing body out w h = refl
  answer panic failed missing body out w h = refl

  -- The answer is all that is done after the operation.
  pub answer_state :
      (r : Result (Option C)) (failed missing : String) (body : C → Body C) (out : Written C)
      (w : W)
      → (on_result r
          (refuse internal_error failed)
          (λ found.
            given found (refuse not_found missing) (λ cfg. finish (respond 200 (body cfg) out)))
          w).1
        ≡ w
  unfolding on_result given refuse
  answer_state (ok (some cfg)) failed missing body out w = refl
  answer_state (ok none) failed missing body out w = refl
  answer_state (err e) failed missing body out w = refl
  answer_state panic failed missing body out w = refl

module _ (ext : External) {W : Type 0} (cli : Client W) where
  -- For a well-formed name and a volume number that is read, the handlers of GET of a whole target, of
  -- start, stop and of DELETE of a volume answer with 200 where the operation returns a target, 404
  -- where it finds none and 500 where it fails, for each of the three kinds.
  pub handlers-Follow :
      (iqn_text nqn_text resource number_text : Text) (iqn : Iqn) (nqn : Nqn) (number : ℤ)
      → new_iqn iqn_text ≡ ok iqn
      → new_nqn nqn_text ≡ ok nqn
      → atoi number_text ≡ some number
      → Follows (iscsi_get ext cli true iqn_text number_text) (IscsiService.get ext cli iqn)
        × Follows (iscsi_start ext cli iqn_text) (IscsiService.start ext cli iqn)
        × Follows (iscsi_stop ext cli iqn_text) (IscsiService.stop ext cli iqn)
        × Follows
            (iscsi_delete ext cli false iqn_text number_text)
            (IscsiService.delete_volume ext cli iqn number)
        × Follows (nvmeof_get ext cli true nqn_text number_text) (NvmeofService.get ext cli nqn)
        × Follows (nvmeof_start ext cli nqn_text) (NvmeofService.start ext cli nqn)
        × Follows (nvmeof_stop ext cli nqn_text) (NvmeofService.stop ext cli nqn)
        × Follows
            (nvmeof_delete ext cli false nqn_text number_text)
            (NvmeofService.delete_volume ext cli nqn number)
        × Follows (nfs_get ext cli true resource number_text) (NfsService.get ext cli resource)
        × Follows (nfs_start ext cli resource) (NfsService.start ext cli resource)
        × Follows (nfs_stop ext cli resource) (NfsService.stop ext cli resource)
        × Follows
            (nfs_delete ext cli false resource number_text)
            (NfsService.delete_volume ext cli resource number)
  unfolding iscsi_get iscsi_start iscsi_stop iscsi_delete with_iqn nvmeof_get nvmeof_start
      nvmeof_stop nvmeof_delete with_nqn nfs_get nfs_start nfs_stop nfs_delete calling on_result
      given
  handlers-Follow iqn_text nqn_text resource number_text iqn nqn number i n a = (
    λ w. rw i (
        answer (IscsiService.get ext cli iqn w).0 _ _ config_body (start_writing)
          (IscsiService.get ext cli iqn w).1 refl),
    λ w. rw i (
        answer (IscsiService.start ext cli iqn w).0 _ _ config_body
          (with_location (codes "./") start_writing) (IscsiService.start ext cli iqn w).1 refl),
    λ w. rw i (
        answer (IscsiService.stop ext cli iqn w).0 _ _ config_body
          (with_location (codes "./") start_writing) (IscsiService.stop ext cli iqn w).1 refl),
    λ w.
        rw (i, a)
          (answer (IscsiService.delete_volume ext cli iqn number w).0 _ _ (λ cfg. empty_body)
            (start_writing) (IscsiService.delete_volume ext cli iqn number w).1 refl),
    λ w. rw n (
        answer (NvmeofService.get ext cli nqn w).0 _ _ config_body (start_writing)
          (NvmeofService.get ext cli nqn w).1 refl),
    λ w. rw n (
        answer (NvmeofService.start ext cli nqn w).0 _ _ config_body
          (with_location (codes "./") start_writing) (NvmeofService.start ext cli nqn w).1 refl),
    λ w. rw n (
        answer (NvmeofService.stop ext cli nqn w).0 _ _ config_body
          (with_location (codes "./") start_writing) (NvmeofService.stop ext cli nqn w).1 refl),
    λ w.
        rw (n, a)
          (answer (NvmeofService.delete_volume ext cli nqn number w).0 _ _ (λ cfg. empty_body)
            (start_writing) (NvmeofService.delete_volume ext cli nqn number w).1 refl),
    λ w.
        answer (NfsService.get ext cli resource w).0 _ _ config_body (start_writing)
          (NfsService.get ext cli resource w).1 refl,
    λ w.
        answer (NfsService.start ext cli resource w).0 _ _ config_body
          (with_location (codes "./") start_writing) (NfsService.start ext cli resource w).1 refl,
    λ w.
        answer (NfsService.stop ext cli resource w).0 _ _ config_body
          (with_location (codes "./") start_writing) (NfsService.stop ext cli resource w).1 refl,
    λ w. rw a (
        answer (NfsService.delete_volume ext cli resource number w).0 _ _ (λ cfg. empty_body)
          (start_writing) (NfsService.delete_volume ext cli resource number w).1 refl),
  )
