-- ===== src/Rest/Refusals.antt =====
-- Requests that are refused before LINSTOR is asked.
use linstor_gateway.Base.{
  ℕ, String, ◌≡◌, refl, Bool, true, not, ◌&&◌, ◌⊎◌, inl, inr, Option, some, Bool-cases,
}
use linstor_gateway.Base.Int.{ℤ, pos, eqb_ℤ, ltb_ℤ}
use linstor_gateway.Base.Outcome.{Error, ok, err}
use linstor_gateway.Base.Text.{Text}
use linstor_gateway.Base.Decimal.{atoi}
use linstor_gateway.External.{External}
use linstor_gateway.Linstor.{Client}
use linstor_gateway.Common.Volume.{VolumeConfig}
use linstor_gateway.Iscsi.Iqn.{Iqn, new_iqn}
use linstor_gateway.Nvmeof.Nqn.{Nqn, new_nqn}
use linstor_gateway.Rest.{Handler, refuse, on_result, given, bad_request}
use linstor_gateway.Rest.Iscsi.{
  with_iqn, iscsi_get, iscsi_start, iscsi_stop, iscsi_delete, iscsi_add_volume,
}
use linstor_gateway.Rest.Nvmeof.{
  with_nqn, nvmeof_get, nvmeof_start, nvmeof_stop, nvmeof_delete, nvmeof_add_volume,
}

-- The handler answers with an error of the code, and leaves the cluster as it is.
abbrev pub Refuses : {W C : Type 0} → ℕ → Handler W C → Type 0
Refuses {W = W} {C = C} code handler =
    (format : String) × ((w : W) → handler w ≡ refuse {C = C} code format w)

module _ (ext : External) {W : Type 0} (cli : Client W) where
  -- A request that names a target by a malformed IQN or NQN is answered with 400 by each handler that
  -- takes such a name, and the cluster is left as it is.
  pub handlers-Refuse :
      (iqn_text nqn_text number_text : Text) (whole : Bool) (body : Option VolumeConfig)
      (e f : Error)
      → new_iqn iqn_text ≡ err e
      → new_nqn nqn_text ≡ err f
      → Refuses bad_request (iscsi_get ext cli whole iqn_text number_text)
        × Refuses bad_request (iscsi_start ext cli iqn_text)
        × Refuses bad_request (iscsi_stop ext cli iqn_text)
        × Refuses bad_request (iscsi_delete ext cli whole iqn_text number_text)
        × Refuses bad_request (iscsi_add_volume ext cli iqn_text number_text body)
        × Refuses bad_request (nvmeof_get ext cli whole nqn_text number_text)
        × Refuses bad_request (nvmeof_start ext cli nqn_text)
        × Refuses bad_request (nvmeof_stop ext cli nqn_text)
        × Refuses bad_request (nvmeof_delete ext cli whole nqn_text number_text)
        × Refuses bad_request (nvmeof_add_volume ext cli nqn_text number_text body)
  unfolding iscsi_get iscsi_start iscsi_stop iscsi_delete iscsi_add_volume with_iqn nvmeof_get
      nvmeof_start nvmeof_stop nvmeof_delete nvmeof_add_volume with_nqn on_result
  handlers-Refuse iqn_text nqn_text number_text whole body e f i n = (
    ("malformed iqn: %v", λ w. rw i refl),
    ("invalid iqn: %v", λ w. rw i refl),
    ("malformed iqn: %v", λ w. rw i refl),
    ("malformed iqn: %v", λ w. rw i refl),
    ("malformed iqn: %v", λ w. rw i refl),
    ("malformed nqn: %v", λ w. rw n refl),
    ("malformed nqn: %v", λ w. rw n refl),
    ("malformed nqn: %v", λ w. rw n refl),
    ("malformed nqn: %v", λ w. rw n refl),
    ("malformed nqn: %v", λ w. rw n refl),
  )

  -- A PUT of a volume is refused where the number of its route is below 1, or the body has another
  -- one that is not 0: both handlers answer with 400 and leave the cluster as it is.
  pub add_volume-Refuses :
      (iqn_text nqn_text number_text : Text) (iqn : Iqn) (nqn : Nqn) (number : ℤ)
      (vol : VolumeConfig)
      → new_iqn iqn_text ≡ ok iqn
      → new_nqn nqn_text ≡ ok nqn
      → atoi number_text ≡ some number
      → (ltb_ℤ number (pos 1) ≡ true)
        ⊎ (not (eqb_ℤ vol.number (pos 0)) && not (eqb_ℤ vol.number number) ≡ true)
      → Refuses bad_request (iscsi_add_volume ext cli iqn_text number_text (some vol))
        × Refuses bad_request (nvmeof_add_volume ext cli nqn_text number_text (some vol))
  unfolding iscsi_add_volume with_iqn nvmeof_add_volume with_nqn on_result given
  add_volume-Refuses iqn_text nqn_text number_text iqn nqn number vol i n a (inr other) = (
    ("expected volume number to be %d, but request body has %d", λ w. rw (i, a, other) refl),
    ("expected volume number to be %d, but request body has %d", λ w. rw (n, a, other) refl),
  )
  add_volume-Refuses iqn_text nqn_text number_text iqn nqn number vol i n a (inl low) =
      elim (Bool-cases (not (eqb_ℤ vol.number (pos 0)) && not (eqb_ℤ vol.number number))) [
        | inl other ↦ (
          ("expected volume number to be %d, but request body has %d", λ w. rw (i, a, other) refl),
          ("expected volume number to be %d, but request body has %d", λ w. rw (n, a, other) refl),
        )
        | inr same ↦ (
          ("volume number must be positive, is %d", λ w. rw (i, a, same, low) refl),
          ("volume number must be positive, is %d", λ w. rw (n, a, same, low) refl),
        )
      ]
