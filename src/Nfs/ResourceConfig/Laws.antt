-- ===== src/Nfs/ResourceConfig/Laws.antt =====
-- What `Valid` of an export accepts.
use linstor_gateway.Base.{
  suc, ◌+◌, ◌≤◌, ◌≡◌, refl, ap, Bool, true, false, Option, none, some, List, [], ◌∷◌, arith, ltb,
  if◌then◌else◌, Bool-cases, inl, inr,
}
use linstor_gateway.Base.Lists.{length, any}
use linstor_gateway.Base.Outcome.{Result, ok, err, panic}
use linstor_gateway.Base.Text.{Text, Dict, eq, eq_iff, eq_refl, lookup, insert, lookup-insert}
use linstor_gateway.External.{Ip}
use linstor_gateway.Nfs.ResourceConfig.{
  ResourceConfig, VolumeConfig, sort_volumes, add_paths, check_paths, valid, check_volumes,
  check_ip, has_ip, and_then,
}

abbrev is_new : Option (Unit {0}) → Bool
is_new none = true
is_new (some u) = false

length-insert :
    (k : Text) (m : Dict (Unit {0}))
    → length (insert k tt m) ≡ (if is_new (lookup k m) then suc (length m) else length m)
unfolding insert lookup
length-insert k [] = refl
length-insert k ((j, u) ∷ m) = elim (Bool-cases (eq j k)) [
  | inl e ↦ rw e refl
  | inr e ↦ rw e (ground (arith, length-insert k m))
]

-- Each path is new when it is added.
abbrev AllNew : Dict (Unit {0}) → List VolumeConfig → Type 0
AllNew m [] = Unit
AllNew m (v ∷ vs) = (is_new (lookup v.export_path m) ≡ true) × AllNew (insert v.export_path tt m) vs

length-add_paths :
    (m : Dict (Unit {0})) (vs : List VolumeConfig) → length (add_paths m vs) ≤ length m + length vs
unfolding add_paths
length-add_paths m [] = omega arith
length-add_paths m (v ∷ vs) =
    ground (arith, length-insert v.export_path m, length-add_paths (insert v.export_path tt m) vs)

add_paths-AllNew :
    (m : Dict (Unit {0})) (vs : List VolumeConfig)
    → length (add_paths m vs) ≡ length m + length vs
    → AllNew m vs
unfolding add_paths
add_paths-AllNew m [] h = tt
add_paths-AllNew m (v ∷ vs) h =
    let n : is_new (lookup v.export_path m) ≡ true =
      ground
        (arith, length-insert v.export_path m, length-add_paths (insert v.export_path tt m) vs) in
    (
      n,
      add_paths-AllNew (insert v.export_path tt m) vs
          (ground (arith, n, length-insert v.export_path m)),
    )

-- No two volumes have the same export path.
abbrev pub DistinctPaths : List VolumeConfig → Type 0
DistinctPaths [] = Unit
DistinctPaths (v ∷ vs) =
    (any (λ (w : VolumeConfig). eq v.export_path w.export_path) vs ≡ false) × DistinctPaths vs

other_path :
    (k p : Text) (m : Dict (Unit {0}))
    → is_new (lookup k m) ≡ false
    → is_new (lookup p m) ≡ true
    → eq k p ≡ false
other_path k p m h n = elim (Bool-cases (eq k p)) [
  | inl e ↦
      let q = ap (λ (t : Text). is_new (lookup t m)) ((eq_iff k p).0 e) in
      absurd (ground (arith, q))
  | inr e ↦ e
]

still_known :
    (k p : Text) (m : Dict (Unit {0}))
    → is_new (lookup k m) ≡ false
    → is_new (lookup k (insert p tt m)) ≡ false
still_known k p m h = rw (lookup-insert p k tt m) (ground arith)

now_known : (p : Text) (m : Dict (Unit {0})) → is_new (lookup p (insert p tt m)) ≡ false
now_known p m = rw (lookup-insert p p tt m, eq_refl p) refl

known_path :
    (k : Text) (m : Dict (Unit {0})) (vs : List VolumeConfig)
    → is_new (lookup k m) ≡ false
    → AllNew m vs
    → any (λ (w : VolumeConfig). eq k w.export_path) vs ≡ false
known_path k m [] h n = refl
known_path k m (v ∷ vs) h n =
    let e = other_path k v.export_path m h n.0 in
    let rest = known_path k (insert v.export_path tt m) vs (still_known k v.export_path m h) n.1 in
    rw (e, rest) refl

AllNew-DistinctPaths :
    (m : Dict (Unit {0})) (vs : List VolumeConfig) → AllNew m vs → DistinctPaths vs
AllNew-DistinctPaths m [] n = tt
AllNew-DistinctPaths m (v ∷ vs) n = (
  known_path v.export_path (insert v.export_path tt m) vs (now_known v.export_path m) n.1,
  AllNew-DistinctPaths (insert v.export_path tt m) vs n.1,
)

check_paths-DistinctPaths : (vs : List VolumeConfig) → check_paths vs ≡ ok tt → DistinctPaths vs
unfolding check_paths
check_paths-DistinctPaths vs h = AllNew-DistinctPaths [] vs (add_paths-AllNew [] vs (ground arith))

check_ip-has_ip :
    (ip : Option Ip) (mask : Option Text) (rest : Result (Unit {0}))
    → check_ip ip mask rest ≡ ok tt
    → (has_ip ip mask ≡ true) × (rest ≡ ok tt)
unfolding check_ip has_ip
check_ip-has_ip none mask rest h = absurd (ground arith)
check_ip-has_ip (some ip) none rest h = absurd (ground arith)
check_ip-has_ip (some ip) (some mask) rest h = (refl, h)

and_then_second : (a b : Result (Unit {0})) → and_then a b ≡ ok tt → b ≡ ok tt
unfolding and_then
and_then_second (ok u) b h = h
and_then_second (err e) b h = absurd (ground arith)
and_then_second panic b h = absurd (ground arith)

-- An export that `Valid` has accepted, with the volumes that it was given.
pub record IsValid (volumes : List VolumeConfig) (r : ResourceConfig) : Type 0 where
  pub name : 2 ≤ length r.name
  pub service_ip : has_ip r.service_ip.ip r.service_ip.mask ≡ true
  pub sorted : r.volumes ≡ sort_volumes volumes
  pub paths : DistinctPaths r.volumes

-- If `Valid` accepts an export, then its name has two bytes or more, it has a service IP with a mask,
-- its volumes are left as their sorted list, and no two of them, the cluster private one included, have
-- the same export path.
pub valid-IsValid : (r : ResourceConfig) → (valid r).0 ≡ ok tt → IsValid r.volumes (valid r).1
unfolding valid
valid-IsValid r h =
    let long : ltb (length r.name) 2 ≡ false = ground arith in
    let (ip, rest) =
      check_ip-has_ip r.service_ip.ip r.service_ip.mask
        (and_then (check_volumes none (sort_volumes r.volumes))
          (check_paths (sort_volumes r.volumes)))
        (ground arith) in
    let paths =
      check_paths-DistinctPaths (sort_volumes r.volumes)
        (and_then_second (check_volumes none (sort_volumes r.volumes)) _ rest) in
    rw (long, ip) (record { name = ground arith; service_ip = ip; sorted = refl; paths = paths })
