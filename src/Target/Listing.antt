-- ===== src/Target/Listing.antt =====
-- `List` of pkg/iscsi/iscsi.go, pkg/nvmeof/nvmeof.go and pkg/nfs/nfs.go.
use linstor_gateway.Base.{Option, none, some, List, [], ◌∷◌, ◌++◌}
use linstor_gateway.Base.Outcome.{Result, ok, err, panic}
use linstor_gateway.Base.Text.{Text, scan}
use linstor_gateway.External.{External}
use linstor_gateway.Linstor.{Client, Call}
use linstor_gateway.Linstor.Exec.{pure, lift, ◌>>=◌}
use linstor_gateway.Reactor.Config.{PromoterConfig}
use linstor_gateway.Reactor.Files.{Deployment}
use linstor_gateway.Reactor.Store.{deployed_resources, list_configs}
use linstor_gateway.Target.{Protocol}
use linstor_gateway.Target.Lookup.{status_of}

module _ {C W : Type 0} (protocol : Protocol C) (ext : External) (cli : Client W) where
  -- The loop of `List`. Where the deployment cannot be fetched it goes on with nil values.
  unfoldable pub list_parsed : Text → Result Deployment → Result C → List C → Result (List C)
  list_parsed path d panic rest = panic
  list_parsed path d (err e) rest = ok rest
  list_parsed path (ok d) (ok r) rest = ok (protocol.with_status (status_of path d) r ∷ rest)
  list_parsed path _ (ok r) rest = panic

  unfoldable pub fetched : Result Deployment → PromoterConfig → Result C
  fetched (ok d) cfg = protocol.from_promoter cfg (some d.definition) d.volume_definitions
  fetched (err e) cfg = protocol.from_promoter cfg none []
  fetched panic cfg = panic

  unfoldable pub collecting : Call W Deployment → Call W (Result Deployment)
  collecting m w = let (r, w') = m w in (ok r, w')

  -- `if n == 0 { continue }` on what `Sscanf` reads, then the rest of the loop's body.
  unfoldable pub unless_skipped : Option Text → Call W (List C) → Call W (List C) → Call W (List C)
  unless_skipped none rest body = rest
  unless_skipped (some rsc) rest body = body

  -- The body of the loop, and the rounds after it.
  unfoldable pub list_round : PromoterConfig → Text → Call W (List C) → Call W (List C)
  unfolding fetched collecting list_parsed
  list_round cfg path rest = do
    d ← collecting (deployed_resources cli cfg)
    first ← lift (list_parsed path d (fetched d cfg) [])
    others ← rest
    pure (first ++ others)

  unfoldable pub list_from : List PromoterConfig → List Text → Call W (List C)
  unfolding list_round unless_skipped
  list_from [] paths = pure []
  list_from (cfg ∷ cfgs) [] = lift panic
  list_from (cfg ∷ cfgs) (path ∷ paths) =
      let rest = list_from cfgs paths in
      unless_skipped (scan protocol.id_prefix cfg.id) rest (list_round cfg path rest)

  unfoldable pub list : Call W (List C)
  unfolding list_from
  list = do listed ← list_configs cli ext; list_from listed.0 listed.1
