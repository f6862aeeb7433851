-- ===== src/Nfs/Parsing/Paths.antt =====
-- `FromPromoter` reads back the export path of a Filesystem agent.
use mathlib.Core.List.{append-nil}
use linstor_gateway.Base.{◌≡◌, refl, sym, ap, ◌∙◌, false, List, [], ◌∷◌, ◌++◌}
use linstor_gateway.Base.Lists.{drop-append}
use linstor_gateway.Base.Outcome.{ok}
use linstor_gateway.Base.Text.{Text, eq, join}
use linstor_gateway.Base.Text.Laws.{has_prefix-append}
use linstor_gateway.Base.FilePath.{clean, join_path, non_empty}
use linstor_gateway.Base.FilePath.Laws.{IsPlain, AllPlain, rooted, clean-rooted}
use linstor_gateway.Common.Volume.{cluster_private_volume_agent_name}
use linstor_gateway.Nfs.ResourceConfig.{VolumeConfig, rooted_path, export_path_of, export_base_path}
use linstor_gateway.Nfs.ResourceConfig.Paths.{
  below, below-AllPlain, export_path_of-rooted, rooted_path-rooted,
}
use linstor_gateway.Nfs.Parsing.{export_path_in}

export_path_in-append :
    (agent_name prefix rest : Text)
    → eq agent_name cluster_private_volume_agent_name ≡ false
    → export_path_in agent_name (prefix ++ rest) prefix ≡ ok (rooted_path rest)
unfolding export_path_in
export_path_in-append agent_name prefix rest h =
    rw (h, has_prefix-append prefix rest, drop-append prefix rest) refl

export_directory :
    (name : Text) → IsPlain name → join_path (export_base_path ∷ name ∷ []) ≡ rooted (below name [])
unfolding join_path non_empty join
export_directory name p = rw p.full (clean-rooted (below name []) (below-AllPlain name [] p tt))

read_below :
    (agent_name name : Text) (ws : List Text)
    → eq agent_name cluster_private_volume_agent_name ≡ false
    → AllPlain ws
    → export_path_in agent_name (rooted (below name ws)) (rooted (below name [])) ≡ ok (rooted ws)
unfolding join
read_below agent_name name [] h q =
    ap (λ (d : Text). export_path_in agent_name d (rooted (below name [])))
      (sym (append-nil (rooted (below name []))))
    ∙ export_path_in-append agent_name (rooted (below name [])) [] h
    ∙ unfold rooted_path join_path non_empty in
      ap ok (ap clean (clean-rooted [] tt) ∙ clean-rooted [] tt)
read_below agent_name name (w ∷ ws) h q =
    export_path_in-append agent_name (rooted (below name [])) (rooted (w ∷ ws)) h
    ∙ ap ok (rooted_path-rooted (w ∷ ws) q)

-- The export path of a volume is read back from the directory that is written for it.
pub export_path_in-export_path_of :
    (agent_name name : Text) (v : VolumeConfig) (ws : List Text)
    → eq agent_name cluster_private_volume_agent_name ≡ false
    → IsPlain name
    → AllPlain ws
    → v.export_path ≡ rooted ws
    → export_path_in agent_name (export_path_of name v) (join_path (export_base_path ∷ name ∷ []))
      ≡ ok v.export_path
export_path_in-export_path_of agent_name name v ws h p q e =
    rw (export_path_of-rooted name v ws p q e, export_directory name p, e)
      (read_below agent_name name ws h q)
