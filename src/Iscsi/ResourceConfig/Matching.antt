-- ===== src/Iscsi/ResourceConfig/Matching.antt =====
-- The comparison of a configuration with a deployed one.
use linstor_gateway.Base.{
  ◌≡◌, refl, ◌≤◌, Bool, true, false, ◌&&◌, List, [], ◌∷◌, arith, if◌then◌else◌, Bool-cases, inl,
  inr,
}
use linstor_gateway.Base.Int.{eqb_ℤ_refl}
use linstor_gateway.Base.Lists.{length}
use linstor_gateway.Base.Outcome.{ok}
use linstor_gateway.Base.Text.{eq, eq_refl}
use linstor_gateway.External.{External}
use linstor_gateway.Common.Ip.{IpCidr, cidr_string}
use linstor_gateway.Common.Volume.{VolumeConfig}
use linstor_gateway.Common.Volumes.{same_volumes}
use linstor_gateway.Iscsi.ResourceConfig.{ResourceConfig, same_ips, same_iqn, matches}

same_volumes_refl : (vs : List VolumeConfig) → same_volumes vs vs ≡ true
unfolding same_volumes
same_volumes_refl [] = refl
same_volumes_refl (v ∷ vs) = rw (eqb_ℤ_refl v.number, same_volumes_refl vs) (ground arith)

module _ (ext : External) where
  same_ips_refl : (ps : List IpCidr) → same_ips ext ps ps ≡ ok true
  unfolding same_ips
  same_ips_refl [] = refl
  same_ips_refl (p ∷ ps) = rw (eq_refl (cidr_string ext p)) (same_ips_refl ps)

  same_ips_total :
      (ps qs : List IpCidr) → length ps ≤ length qs → (b : Bool) × (same_ips ext ps qs ≡ ok b)
  unfolding same_ips
  same_ips_total [] qs h = (true, refl)
  same_ips_total (p ∷ ps) [] h = absurd (omega arith)
  same_ips_total (p ∷ ps) (q ∷ qs) h =
      go (eq (cidr_string ext p) (cidr_string ext q)) (same_ips_total ps qs (omega arith))
    where
      go :
          (c : Bool)
          → (b : Bool) × (same_ips ext ps qs ≡ ok b)
          → (b : Bool) × ((if c then same_ips ext ps qs else ok false) ≡ ok b)
      go true r = r
      go false r = (false, refl)

  matches_refl : (r : ResourceConfig) → matches ext r r ≡ ok true
  unfolding matches same_iqn
  matches_refl r =
      rw (eq_refl r.iqn.authority, eq_refl r.iqn.wwn)
        (rw (same_ips_refl r.service_ips) (
          rw
            (
              eq_refl r.resource_group,
              same_volumes_refl r.volumes,
              eq_refl r.username,
              eq_refl r.password,
            )
            refl))

  matches-ok :
      (r o : ResourceConfig)
      → (b : Bool) × (same_ips ext r.service_ips o.service_ips ≡ ok b)
      → (b : Bool) × (matches ext r o ≡ ok b)
  unfolding matches
  matches-ok r o (b, e) = elim (Bool-cases (same_iqn r.iqn o.iqn)) [
    | inl t ↦ (
      b
          && (eq r.resource_group o.resource_group
              && (same_volumes r.volumes o.volumes
                  && (eq r.username o.username && eq r.password o.password))),
      rw t (rw e refl),
    )
    | inr f ↦ (false, rw f refl)
  ]

  -- A configuration matches itself, and `Matches` gives an answer, with no panic, if the other
  -- configuration has at least as many service IPs.
  pub matches_total :
      (r o : ResourceConfig)
      → length r.service_ips ≤ length o.service_ips
      → (matches ext r r ≡ ok true) × (b : Bool) × (matches ext r o ≡ ok b)
  matches_total r o h =
      let (b, e) = matches-ok r o (same_ips_total r.service_ips o.service_ips h) in
      (matches_refl r, b, e)
