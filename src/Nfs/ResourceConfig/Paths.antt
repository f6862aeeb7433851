-- ===== src/Nfs/ResourceConfig/Paths.antt =====
-- Export paths: whatever path is asked for, the exported directory lies below that of the export.
use linstor_gateway.Base.{◌≡◌, refl, ap, ◌∙◌, inl, inr, false, List, [], ◌∷◌}
use linstor_gateway.Base.Int.{pos, eqb_ℤ}
use linstor_gateway.Base.Text.{Text, codes, eq, split, join}
use linstor_gateway.Base.FilePath.{
  clean, push_component, components_onto, reverse_onto, join_path, non_empty,
}
use linstor_gateway.Base.FilePath.Laws.{
  IsPlain, AllPlain, Gapped, rooted, clean-Gapped, clean-clean, clean-rooted, gapped,
  non_empty-AllPlain,
}
use linstor_gateway.Nfs.ResourceConfig.{
  VolumeConfig, rooted_path, export_path_of, export_base_path, fill_path,
}

-- Whatever the path, `rooted_path` returns a path from the root along plain components.
pub rooted_path-AllPlain :
    (path : Text) → (ws : List Text) × AllPlain ws × (rooted_path path ≡ rooted ws)
unfolding rooted_path join_path non_empty join
rooted_path-AllPlain [] = clean-clean []
rooted_path-AllPlain (c ∷ s) = clean-clean (b'/' ∷ c ∷ s)

-- The components of the directory of an export.
abbrev pub below : Text → List Text → List Text
below name ws = codes "srv" ∷ codes "gateway-exports" ∷ name ∷ ws

srv-IsPlain : IsPlain (codes "srv")
unfolding eq
srv-IsPlain = record { no_slash = refl; full = refl; not_dot = refl; not_dotdot = refl }

exports-IsPlain : IsPlain (codes "gateway-exports")
unfolding eq
exports-IsPlain = record { no_slash = refl; full = refl; not_dot = refl; not_dotdot = refl }

pub below-AllPlain :
    (name : Text) (ws : List Text) → IsPlain name → AllPlain ws → AllPlain (below name ws)
below-AllPlain name ws p q = (srv-IsPlain, (exports-IsPlain, (p, q)))

below-Gapped :
    (name : Text) (ws : List Text) → IsPlain name → Gapped ws → Gapped (below name ([] ∷ ws))
below-Gapped name ws p g = (inr srv-IsPlain, (inr exports-IsPlain, (inr p, (inl refl, g))))

non_empty-below :
    (name : Text) (ws vs : List Text)
    → IsPlain name
    → non_empty ws ≡ vs
    → non_empty (below name ([] ∷ ws)) ≡ below name vs
unfolding non_empty
non_empty-below name ws vs p e = rw p.full (ap (below name) e)

joined_below :
    (name : Text) (ws : List Text)
    → IsPlain name
    → AllPlain ws
    → clean (join b'/' (export_base_path ∷ name ∷ rooted ws ∷ [])) ≡ rooted (below name ws)
unfolding join
joined_below name [] p q =
    clean-Gapped (codes "srv") _ (below-Gapped name ([] ∷ []) p (inl refl, tt))
    ∙ ap rooted (non_empty-below name ([] ∷ []) [] p (unfold non_empty in refl))
joined_below name (w ∷ ws) p q =
    clean-Gapped (codes "srv") _ (below-Gapped name (w ∷ ws) p (gapped (w ∷ ws) q))
    ∙ ap rooted (non_empty-below name (w ∷ ws) (w ∷ ws) p (non_empty-AllPlain (w ∷ ws) q))

-- A volume whose export path is rooted at plain components is exported from those components below
-- the directory of the export.
pub export_path_of-rooted :
    (name : Text) (v : VolumeConfig) (ws : List Text)
    → IsPlain name
    → AllPlain ws
    → v.export_path ≡ rooted ws
    → export_path_of name v ≡ rooted (below name ws)
unfolding export_path_of join_path non_empty
export_path_of-rooted name v ws p q e = rw (e, p.full) (joined_below name ws p q)

-- Whatever export path is asked for, `FillDefaults` leaves a volume that is exported from a directory
-- in that of the export, along plain components, if the name of the export is one and the volume is
-- not the cluster private one.
pub export_path_of-fill_path :
    (name : Text) (v : VolumeConfig)
    → IsPlain name
    → eqb_ℤ v.config.number (pos 0) ≡ false
    → (ws : List Text) × AllPlain ws × (export_path_of name (fill_path v) ≡ rooted (below name ws))
unfolding fill_path
export_path_of-fill_path name v p n =
    let (ws, q, e) = rooted_path-AllPlain v.export_path in
    rw n (
      ws,
      q,
      export_path_of-rooted name (record v { export_path = rooted_path v.export_path }) ws p q e,
    )

pub rooted_path-rooted : (ws : List Text) → AllPlain ws → rooted_path (rooted ws) ≡ rooted ws
unfolding rooted_path join_path non_empty join
rooted_path-rooted [] p = unfold clean split push_component eq components_onto reverse_onto in refl
rooted_path-rooted (w ∷ ws) p =
    ap clean (clean-Gapped [] ([] ∷ w ∷ ws) (inl refl, (inl refl, gapped (w ∷ ws) p)))
    ∙ rw (p.0.full, non_empty-AllPlain ws p.1) (clean-rooted (w ∷ ws) p)
