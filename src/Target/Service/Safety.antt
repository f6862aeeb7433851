-- ===== src/Target/Service/Safety.antt =====
-- What a target must be like before its LINSTOR resource is deleted.
use linstor_gateway.Base.{◌≡◌, ap}
use linstor_gateway.Base.Outcome.{Result, ok}
use linstor_gateway.Base.Text.{Text}
use linstor_gateway.Base.{◌++◌}
use linstor_gateway.External.{External}
use linstor_gateway.Linstor.{Client}
use linstor_gateway.Linstor.Exec.Laws.{continue-ok, wrapping-ok, with_result}
use linstor_gateway.Reactor.Store.{delete_config}
use linstor_gateway.Common.Status.{no_resources_in_use}
use linstor_gateway.Common.Wait.{wait_until, looks}
use linstor_gateway.Common.Wait.Laws.{Seen, wait_until-Seen}
use linstor_gateway.Target.{Protocol}
use linstor_gateway.Target.Service.{delete}
use linstor_gateway.Reactor.Files.{tolerating}

module _ {C W : Type 0} (protocol : Protocol C) (ext : External) (cli : Client W) where
  -- If `Delete` succeeds, then first the call that removes the configuration file succeeded or found
  -- no file, and right before it deleted the resource definition, a look at the resource showed it
  -- in use on no node.
  pub delete-Seen :
      (name : Text) (w w' : W)
      → delete protocol ext cli name w ≡ (ok tt, w')
      → (w1 : W) × (w2 : W) × (delete_config cli (protocol.id_prefix ++ name) w ≡ (ok tt, w1))
        × (wait_until cli name no_resources_in_use looks w1 ≡ (ok tt, w2))
        × Seen cli name no_resources_in_use w2
        × ((cli.delete_resource_definition name w2).1 ≡ w')
  unfolding delete tolerating
  delete-Seen name w w' h =
      let removed = delete_config cli (protocol.id_prefix ++ name) in
      let w1 = (removed w).1 in
      let waited = wait_until cli name no_resources_in_use looks in
      let w2 = (waited w1).1 in
      let (x, first, rest) = continue-ok _ _ w1 tt w' h in
      let (y, second, last) = continue-ok _ _ w2 tt w' rest in
      let wait_ok = with_result waited w1 y (wrapping-ok _ _ y second) in
      (
        w1,
        w2,
        with_result removed w x (wrapping-ok _ _ x first),
        wait_ok,
        wait_until-Seen cli name no_resources_in_use looks w1 w2 wait_ok,
        ap (λ (p : Result Unit × W). p.1) last,
      )
