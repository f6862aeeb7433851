-- ===== src/Common/Volume/Laws.antt =====
-- The device path that `DevicePath` chooses, whatever the order of the properties.
use linstor_gateway.Base.{Bool, true, false, ◌≡◌, inl, inr, [], ◌∷◌, if◌then◌else◌, Bool-cases}
use linstor_gateway.Base.Text.{Text, Dict}
use linstor_gateway.Common.Volume.{device_path_from, device_path, is_symlink_key, is_by_res}
use linstor_gateway.Linstor

-- Every property with a "by-res" value is a symlink.
abbrev pub OnlySymlinks : Dict Text → Type 0
OnlySymlinks [] = Unit
OnlySymlinks ((k, v) ∷ props) = (is_by_res v ≡ true → is_symlink_key k ≡ true) × OnlySymlinks props

-- Some property has a "by-res" value.
abbrev pub has_by_res : Dict Text → Bool
has_by_res [] = false
has_by_res ((k, v) ∷ props) = if is_by_res v then true else has_by_res props

by_res_from :
    (props : Dict Text) (d : Text)
    → OnlySymlinks props
    → has_by_res props ≡ true
    → is_by_res (device_path_from d props) ≡ true
unfolding device_path_from
by_res_from [] d o h = cc
by_res_from ((k, v) ∷ props) d o h = elim (Bool-cases (is_by_res v)) [
  | inl e ↦ rw (e, o.0 e) e
  | inr e ↦ rw e (by_res_from props (if is_symlink_key k then v else d) o.1 (rw e at h))
]

-- If some property is a "by-res" path, and all such properties are symlinks, then the chosen device
-- path is a "by-res" path, in whatever order the properties come.
pub device_path_by_res :
    (vol : Linstor.Volume)
    → OnlySymlinks vol.props
    → has_by_res vol.props ≡ true
    → is_by_res (device_path vol) ≡ true
unfolding device_path
device_path_by_res vol o h = by_res_from vol.props vol.device_path o h
