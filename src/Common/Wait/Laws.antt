-- ===== src/Common/Wait/Laws.antt =====
-- What the end of a wait says of the resource.
use linstor_gateway.Base.{ℕ, zero, suc, ◌≡◌, refl, ap, ◌∙◌, Bool, true, false, List, if◌then◌else◌}
use linstor_gateway.Base.Outcome.{Result, ok}
use linstor_gateway.Base.Text.{Text}
use linstor_gateway.Linstor.{Client, Call, ResourceWithVolumes}
use linstor_gateway.Linstor.Exec.{pure}
use linstor_gateway.Linstor.Exec.Laws.{continue-ok, with_result}
use linstor_gateway.Common.Wait.{wait_until, pass}

-- The resources as they are seen by a look that ends in the state, and what they meet.
pub record Seen {W : Type 0} (cli : Client W) (name : Text)
    (condition : List ResourceWithVolumes → Bool) (after : W) : Type 0 where
  pub before : W
  pub resources : List ResourceWithVolumes
  pub looked : cli.get_resource_view name before ≡ (ok resources, after)
  pub met : condition resources ≡ true

module _ {W : Type 0} (cli : Client W) (name : Text)
    (condition : List ResourceWithVolumes → Bool) where
  one_look :
      (resources : List ResourceWithVolumes) (again : Call W Unit) (w0 w w' : W)
      → ((v : W) → again v ≡ (ok tt, w') → Seen cli name condition w')
      → cli.get_resource_view name w0 ≡ (ok resources, w)
      → (b : Bool) → condition resources ≡ b
      → (if b then pure tt else again) w ≡ (ok tt, w')
      → Seen cli name condition w'
  one_look resources again w0 w w' k e true c h = record {
    before = w0;
    resources = resources;
    looked = e ∙ ap (λ (p : Result Unit × W). (ok resources, p.1)) h;
    met = c;
  }
  one_look resources again w0 w w' k e false c h = k w h

  -- A wait that succeeds ends with a look at the resources, and they meet the condition then.
  pub wait_until-Seen :
      (left : ℕ) (w w' : W)
      → wait_until cli name condition left w ≡ (ok tt, w')
      → Seen cli name condition w'
  unfolding wait_until pass
  wait_until-Seen zero w w' h = cc
  wait_until-Seen (suc left) w w' h =
      let view = cli.get_resource_view name in
      let (resources, e, rest) = continue-ok (view w).0 _ (view w).1 tt w' h in
      one_look resources (λ v. wait_until cli name condition left (cli.sleep v)) w (view w).1 w'
        (λ v. wait_until-Seen left (cli.sleep v) w') (with_result view w resources e)
        (condition resources) refl rest
