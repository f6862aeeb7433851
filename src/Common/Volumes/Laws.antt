-- ===== src/Common/Volumes/Laws.antt =====
-- What `Valid` accepts, and what follows for the volumes of a target that is created.
use mathlib.Core.List.{Perm}
use mathlib.Core.List.Perm
use linstor_gateway.Base.{◌<◌, ◌≡◌, refl, ◌↔◌, false, List, [], ◌∷◌, arith, Bool-cases, inl, inr}
use linstor_gateway.Base.Int.{ℤ, pos, ltb_ℤ, ◌<ℤ◌}
use linstor_gateway.Base.Outcome.{ok}
use linstor_gateway.Linstor
use linstor_gateway.Common.Volume.{VolumeConfig, cluster_private_volume}
use linstor_gateway.Common.Volumes.{insert_volume, sort_volumes, check_rest, check_volumes}

-- The volumes after the first: numbers rise from `n` on and are 1 at least, sizes are positive.
abbrev pub RisesFrom : ℤ → List VolumeConfig → Type 0
RisesFrom n [] = Unit
RisesFrom n (v ∷ vs) =
    (n <ℤ v.number) × (pos 0 <ℤ v.number) × (0 < v.size_kib) × RisesFrom v.number vs

abbrev pub Rises : List VolumeConfig → Type 0
Rises [] = Unit
Rises (v ∷ vs) = (0 < v.size_kib) × RisesFrom v.number vs

-- Not below the one before.
abbrev SortedFrom : ℤ → List VolumeConfig → Type 0
SortedFrom n [] = Unit
SortedFrom n (v ∷ vs) = (ltb_ℤ v.number n ≡ false) × SortedFrom v.number vs

abbrev IsSorted : List VolumeConfig → Type 0
IsSorted [] = Unit
IsSorted (v ∷ vs) = SortedFrom v.number vs

insert-SortedFrom :
    (n : ℤ) (v : VolumeConfig) (vs : List VolumeConfig)
    → ltb_ℤ v.number n ≡ false
    → SortedFrom n vs
    → SortedFrom n (insert_volume v vs)
unfolding insert_volume
insert-SortedFrom n v [] h s = (h, tt)
insert-SortedFrom n v (w ∷ vs) h s = elim (Bool-cases (ltb_ℤ w.number v.number)) [
  | inl e ↦ rw e (s.0, insert-SortedFrom w.number v vs (ground arith) s.1)
  | inr e ↦ rw e (h, (e, s.1))
]

insert-IsSorted :
    (v : VolumeConfig) (vs : List VolumeConfig) → IsSorted vs → IsSorted (insert_volume v vs)
unfolding insert_volume
insert-IsSorted v [] s = tt
insert-IsSorted v (w ∷ vs) s = elim (Bool-cases (ltb_ℤ w.number v.number)) [
  | inl e ↦ rw e (insert-SortedFrom w.number v vs (ground arith) s)
  | inr e ↦ rw e (e, s)
]

sort_volumes-IsSorted : (vs : List VolumeConfig) → IsSorted (sort_volumes vs)
unfolding sort_volumes
sort_volumes-IsSorted [] = tt
sort_volumes-IsSorted (v ∷ vs) = insert-IsSorted v (sort_volumes vs) (sort_volumes-IsSorted vs)

insert_volume-perm :
    (v : VolumeConfig) (vs : List VolumeConfig) → Perm (insert_volume v vs) (v ∷ vs)
unfolding insert_volume
insert_volume-perm v [] = Perm.refl (v ∷ [])
insert_volume-perm v (w ∷ vs) = elim (Bool-cases (ltb_ℤ w.number v.number)) [
  | inl e ↦ rw e (Perm.trans (Perm.cons w (insert_volume-perm v vs)) (Perm.swap v w vs))
  | inr e ↦ rw e (Perm.refl (v ∷ w ∷ vs))
]

-- Sorting keeps the volumes.
pub sort_volumes-perm : (vs : List VolumeConfig) → Perm (sort_volumes vs) vs
unfolding sort_volumes
sort_volumes-perm [] = Perm.refl []
sort_volumes-perm (v ∷ vs) =
    Perm.trans (insert_volume-perm v (sort_volumes vs)) (Perm.cons v (sort_volumes-perm vs))

check_rest_sound :
    (n : ℤ) (vs : List VolumeConfig) → SortedFrom n vs → check_rest n vs ≡ ok tt → RisesFrom n vs
unfolding check_rest
check_rest_sound n [] s h = tt
check_rest_sound n (v ∷ vs) s h =
    (ground arith, ground arith, ground arith, check_rest_sound v.number vs s.1 (ground arith))

check_rest_complete : (n : ℤ) (vs : List VolumeConfig) → RisesFrom n vs → check_rest n vs ≡ ok tt
unfolding check_rest
check_rest_complete n [] r = refl
check_rest_complete n (v ∷ vs) r = ground (arith, check_rest_complete v.number vs)

check_volumes_iff : (vs : List VolumeConfig) → IsSorted vs → (check_volumes vs ≡ ok tt) ↔ Rises vs
unfolding check_volumes
check_volumes_iff [] s = (λ h. tt, λ r. refl)
check_volumes_iff (v ∷ vs) s = (
  λ h. (ground arith, check_rest_sound v.number vs s (ground arith)),
  λ r. ground (arith, check_rest_complete v.number vs),
)

-- The check accepts the sorted volumes exactly if their numbers rise strictly, all but the first
-- are 1 at least, and every size is positive.
pub check_volumes-sort_volumes :
    (vs : List VolumeConfig) → (check_volumes (sort_volumes vs) ≡ ok tt) ↔ Rises (sort_volumes vs)
check_volumes-sort_volumes vs = check_volumes_iff (sort_volumes vs) (sort_volumes-IsSorted vs)

private_not_above : (n : ℤ) (vs : List VolumeConfig) → RisesFrom n (cluster_private_volume ∷ vs) → ⊥
private_not_above n vs r = omega arith

RisesFrom-insert_private :
    (n : ℤ) (vs : List VolumeConfig) → RisesFrom n (insert_volume cluster_private_volume vs) → ⊥
unfolding insert_volume
RisesFrom-insert_private n [] r = private_not_above n [] r
RisesFrom-insert_private n (v ∷ vs) r = elim (Bool-cases (ltb_ℤ v.number (pos 0))) [
  | inl e ↦ RisesFrom-insert_private v.number vs ((rw e at r).3)
  | inr e ↦ private_not_above n (v ∷ vs) (rw e at r)
]

Rises-insert_private :
    (vs : List VolumeConfig)
    → Rises (insert_volume cluster_private_volume vs)
    → (insert_volume cluster_private_volume vs ≡ cluster_private_volume ∷ vs) × RisesFrom (pos 0) vs
unfolding insert_volume
Rises-insert_private [] r = (refl, tt)
Rises-insert_private (v ∷ vs) r = elim (Bool-cases (ltb_ℤ v.number (pos 0))) [
  | inl e ↦ absurd (RisesFrom-insert_private v.number vs (rw e at r).1)
  | inr e ↦ (rw e, (rw e at r).1)
]

-- If the check accepts the volumes with the cluster private volume put in front, then sorting
-- leaves that volume in front, and the numbers of the others rise from 1 on.
pub check_volumes-private :
    (vs : List VolumeConfig)
    → check_volumes (sort_volumes (cluster_private_volume ∷ vs)) ≡ ok tt
    → (sort_volumes (cluster_private_volume ∷ vs) ≡ cluster_private_volume ∷ sort_volumes vs)
      × RisesFrom (pos 0) (sort_volumes vs)
check_volumes-private vs h =
    let r = (check_volumes-sort_volumes (cluster_private_volume ∷ vs)).0 h in
    unfold sort_volumes in Rises-insert_private (sort_volumes vs) r

-- The deployed volumes are the configured ones, in their order.
abbrev pub AreDeployed : List Linstor.Volume → List VolumeConfig → Type 0
AreDeployed [] vs = Unit
AreDeployed (vol ∷ vols) [] = ⊥
AreDeployed (vol ∷ vols) (v ∷ vs) = (vol.volume_number ≡ v.number) × AreDeployed vols vs
