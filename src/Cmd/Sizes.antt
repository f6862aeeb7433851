-- ===== src/Cmd/Sizes.antt =====
-- The volumes that the `create` commands ask for, and the check of the server.
use linstor_gateway.Base.{
  ℕ, suc, ◌<◌, ◌≡◌, refl, ap, ◌↔◌, false, List, [], ◌∷◌, ◌⊎◌, inl, inr, arith,
}
use linstor_gateway.Base.Int.{pos, ltb_ℤ}
use linstor_gateway.Base.Lists.{length}
use linstor_gateway.Base.Outcome.{ok}
use linstor_gateway.Base.Text.{Text}
use linstor_gateway.Common.Volume.{VolumeConfig, cluster_private_volume}
use linstor_gateway.Common.Volumes.{insert_volume, sort_volumes, check_volumes}
use linstor_gateway.Common.Volumes.Laws.{RisesFrom, check_volumes-sort_volumes}
use linstor_gateway.Cmd.{CmdError, Units, volumes_from, with_volume, volume_of}

-- The volumes are numbered from `i` on.
abbrev pub Numbered : ℕ → List VolumeConfig → Type 0
Numbered i [] = Unit
Numbered i (v ∷ vs) = (v.number ≡ pos i) × Numbered (suc i) vs

abbrev pub AllPositive : List VolumeConfig → Type 0
AllPositive [] = Unit
AllPositive (v ∷ vs) = (0 < v.size_kib) × AllPositive vs

with_volume-Numbered :
    (i n : ℕ) (size : CmdError ⊎ ℕ) (rest : CmdError ⊎ List VolumeConfig) (vols : List VolumeConfig)
    → with_volume i size rest ≡ inr vols
    → ((vs : List VolumeConfig) → rest ≡ inr vs → Numbered (suc (suc i)) vs × (length vs ≡ n))
    → Numbered (suc i) vols × (length vols ≡ suc n)
unfolding with_volume
with_volume-Numbered i n (inl e) rest vols h ih = ground arith
with_volume-Numbered i n (inr size) (inl e) vols h ih = ground arith
with_volume-Numbered i n (inr size) (inr vs) vols h ih =
    let (numbers, same) = ih vs refl in
    let e : volume_of (pos (suc i)) size ∷ vs ≡ vols = ground arith in
    rw (← e) ((refl, numbers), ap suc same)

-- The volumes that a `create` command asks for are as many as the sizes it is given, with numbers
-- from 1 on.
pub volumes_from-Numbered :
    (units : Units) (i : ℕ) (raws : List Text) (vols : List VolumeConfig)
    → volumes_from units i raws ≡ inr vols
    → Numbered (suc i) vols × (length vols ≡ length raws)
unfolding volumes_from
volumes_from-Numbered units i [] vols e = let e' : [] ≡ vols = ground arith in rw (← e') (tt, refl)
volumes_from-Numbered units i (raw ∷ raws) vols e =
    with_volume-Numbered i (length raws) _ _ vols e (volumes_from-Numbered units (suc i) raws)

Numbered-RisesFrom :
    (n : ℕ) (vols : List VolumeConfig)
    → Numbered (suc n) vols
    → RisesFrom (pos n) vols ↔ AllPositive vols
Numbered-RisesFrom n [] h = (λ r. tt, λ p. tt)
Numbered-RisesFrom n (v ∷ vols) (e, h) =
    let ih = Numbered-RisesFrom (suc n) vols h in
    rw e (λ (a, b, c, r). (c, ih.0 r), λ (c, p). (omega arith, omega arith, c, ih.1 p))

below :
    (v w : VolumeConfig) (n : ℕ)
    → v.number ≡ pos n
    → w.number ≡ pos (suc n)
    → ltb_ℤ w.number v.number ≡ false
below v w n e f = rw (e, f) (ground arith)

Numbered-sorted : (n : ℕ) (vols : List VolumeConfig) → Numbered n vols → sort_volumes vols ≡ vols
unfolding sort_volumes insert_volume
Numbered-sorted n [] h = refl
Numbered-sorted n (v ∷ []) h = refl
Numbered-sorted n (v ∷ w ∷ vols) (e, h) =
    rw (Numbered-sorted (suc n) (w ∷ vols) h, below v w n e h.0) refl

-- The server accepts the volumes that a `create` command asks for, with the cluster private volume
-- put in front of them, exactly if each is 1 KiB in size at least.
pub check_volumes-volumes_from :
    (units : Units) (raws : List Text) (vols : List VolumeConfig)
    → volumes_from units 0 raws ≡ inr vols
    → (check_volumes (sort_volumes (cluster_private_volume ∷ vols)) ≡ ok tt) ↔ AllPositive vols
check_volumes-volumes_from units raws vols e =
    let (numbers, same) = volumes_from-Numbered units 0 raws vols e in
    let sorted = Numbered-sorted 0 (cluster_private_volume ∷ vols) (refl, numbers) in
    let (sound, complete) = check_volumes-sort_volumes (cluster_private_volume ∷ vols) in
    let (to, from) = Numbered-RisesFrom 0 vols numbers in
    (λ h. to ((rw sorted at (sound h)).1), λ p. complete (rw sorted (omega arith, from p)))
