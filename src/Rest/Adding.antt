-- ===== src/Rest/Adding.antt =====
-- The requests that add a volume, over all their outcomes: `ISCSIAddVolume` and `NVMeoFAddVolume` of
-- pkg/rest.
use linstor_gateway.Base.{
  ℕ, suc, ◌≡◌, refl, Bool, true, false, not, ◌&&◌, ◌⊎◌, inl, inr, Option, some, zero, Bool-cases,
  arith,
}
use linstor_gateway.Base.Int.{ℤ, pos, negsuc, eqb_ℤ, ltb_ℤ, eqb_ℤ→eq}
use linstor_gateway.Base.Outcome.{ok}
use linstor_gateway.Base.Text.{Text}
use linstor_gateway.Base.Decimal.{atoi}
use linstor_gateway.External.{External}
use linstor_gateway.Linstor.{Client, Call}
use linstor_gateway.Common.Volume.{VolumeConfig}
use linstor_gateway.Iscsi.Iqn.{Iqn, new_iqn}
use linstor_gateway.Nvmeof.Nqn.{Nqn, new_nqn}
use linstor_gateway.Iscsi.Service as IscsiService
use linstor_gateway.Nvmeof.Service as NvmeofService
use linstor_gateway.Rest.{Handler, start_writing, on_result, calling, given, bad_request}
use linstor_gateway.Rest.Iscsi.{with_iqn, iscsi_add_volume}
use linstor_gateway.Rest.Nvmeof.{with_nqn, nvmeof_add_volume}
use linstor_gateway.Rest.Answers.{status_of, code_of, answer, answer_state}
use linstor_gateway.Rest.Refusals.{Refuses, add_volume-Refuses}

-- The body of a request names no other volume than the route, whose number is at least 1.
abbrev pub IsNamed : ℤ → VolumeConfig → Type 0
IsNamed number vol =
    ((n : ℕ) × (number ≡ pos (suc n))) × ((vol.number ≡ pos 0) ⊎ (vol.number ≡ number))

-- The handler adds the volume with the number of the route, and answers with the status code for
-- what comes of that.
abbrev pub AddsAs :
    {W C : Type 0} → ℤ → VolumeConfig → (VolumeConfig → Call W (Option C)) → Handler W C → Type 0
AddsAs {W = W} number vol add handler =
    (w : W)
    → ((handler w).1 ≡ (add (record vol { number = number }) w).1)
      × (status_of (handler w).0 ≡ code_of (add (record vol { number = number }) w).0)

at_least_one : (a : ℤ) → ltb_ℤ a (pos 1) ≡ false → (n : ℕ) × (a ≡ pos (suc n))
at_least_one (pos zero) h = absurd (ground arith)
at_least_one (pos (suc n)) h = (n, refl)
at_least_one (negsuc n) h = absurd (ground arith)

below_one : (a : ℤ) → ltb_ℤ a (pos 1) ≡ true → (n : ℕ) → ¬ (a ≡ pos (suc n))
below_one a h n e = ground arith

-- The test of the handlers on the two numbers.
abbrev names_other : ℤ → VolumeConfig → Bool
names_other number vol = not (eqb_ℤ vol.number (pos 0)) && not (eqb_ℤ vol.number number)

same_number : (a b : ℤ) → not (eqb_ℤ a (pos 0)) && not (eqb_ℤ a b) ≡ false → (a ≡ pos 0) ⊎ (a ≡ b)
same_number a b h = elim (Bool-cases (eqb_ℤ a (pos 0))) [
  | inl zero_there ↦ inl (eqb_ℤ→eq a (pos 0) zero_there)
  | inr other ↦ inr (eqb_ℤ→eq a b (ground arith))
]

other_number :
    (a b : ℤ) → not (eqb_ℤ a (pos 0)) && not (eqb_ℤ a b) ≡ true → ¬ ((a ≡ pos 0) ⊎ (a ≡ b))
other_number a b h (inl e) = ground arith
other_number a b h (inr e) = ground arith

-- What the tests of the handlers say of the request.
tests_cases :
    (number : ℤ) (vol : VolumeConfig)
    → (IsNamed number vol × (names_other number vol ≡ false) × (ltb_ℤ number (pos 1) ≡ false))
      ⊎ (¬ IsNamed number vol × ((ltb_ℤ number (pos 1) ≡ true) ⊎ (names_other number vol ≡ true)))
tests_cases number vol = elim (Bool-cases (names_other number vol)) [
  | inl other ↦ inr ((λ named. other_number vol.number number other named.1), inr other)
  | inr same ↦ elim (Bool-cases (ltb_ℤ number (pos 1))) [
    | inl low ↦ inr ((λ named. below_one number low named.0.0 named.0.1), inl low)
    | inr high ↦ inl ((at_least_one number high, same_number vol.number number same), same, high)
  ]
]

module _ (ext : External) {W : Type 0} (cli : Client W) where
  -- For a well-formed name, a volume number that is read and a body that is read, a PUT of a volume has
  -- one of two outcomes in both handlers. If the number of the route is 1 or more, and that in the body
  -- is the same or 0, then the volume of the body is added under the number of the route, and the
  -- status is 200, 404 or 500 by what comes of that. Otherwise the answer is 400, and the cluster is
  -- left as it is.
  pub add_volume-AddsAs :
      (iqn_text nqn_text number_text : Text) (iqn : Iqn) (nqn : Nqn) (number : ℤ)
      (vol : VolumeConfig)
      → new_iqn iqn_text ≡ ok iqn
      → new_nqn nqn_text ≡ ok nqn
      → atoi number_text ≡ some number
      → (IsNamed number vol
          × AddsAs number vol
              (IscsiService.add_volume ext cli iqn)
              (iscsi_add_volume ext cli iqn_text number_text (some vol))
          × AddsAs number vol
              (NvmeofService.add_volume ext cli nqn)
              (nvmeof_add_volume ext cli nqn_text number_text (some vol)))
        ⊎ (¬ IsNamed number vol
            × Refuses bad_request (iscsi_add_volume ext cli iqn_text number_text (some vol))
            × Refuses bad_request (nvmeof_add_volume ext cli nqn_text number_text (some vol)))
  unfolding iscsi_add_volume with_iqn nvmeof_add_volume with_nqn calling on_result given
  add_volume-AddsAs iqn_text nqn_text number_text iqn nqn number vol i n a =
      elim (tests_cases number vol) [
        | inr (unnamed, why) ↦
            let refused =
              add_volume-Refuses ext cli iqn_text nqn_text number_text iqn nqn number vol i n a
                why in
            inr (unnamed, refused.0, refused.1)
        | inl (named, same, high) ↦ inl (
          named,
          λ w.
              rw (i, a, same, high)
                (
                  answer_state _ _ _ _ _ _,
                  answer (IscsiService.add_volume ext cli iqn (record vol { number = number }) w).0
                      _ _ _ start_writing _ refl,
                ),
          λ w.
              rw (n, a, same, high)
                (
                  answer_state _ _ _ _ _ _,
                  answer (NvmeofService.add_volume ext cli nqn (record vol { number = number }) w).0
                      _ _ _ start_writing _ refl,
                ),
        )
      ]
