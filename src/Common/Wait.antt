-- ===== src/Common/Wait.antt =====
-- pkg/common/resource.go: `WaitUntilResourceCondition`. All callers pass a context that ends after
-- 30 seconds, and the loop sleeps for 3 seconds after each look, so the eleventh look at the latest
-- comes after the deadline, where the client returns the error of the context.
pub mod Laws
pub mod Liveness
use linstor_gateway.Base.{ℕ, zero, suc, Bool, List, if◌then◌else◌}
use linstor_gateway.Base.Outcome.{ok}
use linstor_gateway.Base.Text.{Text}
use linstor_gateway.Linstor.{Client, Call, ResourceWithVolumes}
use linstor_gateway.Linstor.Exec.{pure, fail_with, ◌>>=◌, ◌>>◌}

abbrev pub looks : ℕ
looks = 10

module _ {W : Type 0} (cli : Client W) (name : Text)
    (condition : List ResourceWithVolumes → Bool) where
  unfoldable pub pass : Call W Unit
  pass w = (ok tt, cli.sleep w)

  unfoldable pub wait_until : ℕ → Call W Unit
  unfolding pass
  wait_until zero = fail_with "context deadline exceeded"
  wait_until (suc left) = do
    resources ← cli.get_resource_view name
    let again = (do pass; wait_until left)
    if condition resources then pure tt else again
