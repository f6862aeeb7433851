-- ===== src/Common/Wait/Liveness.antt =====
-- A wait ends well if the condition comes to hold in time.
use linstor_gateway.Base.{
  ℕ, zero, suc, ◌<◌, ◌≡◌, refl, Bool, true, List, arith, Bool-cases, inl, inr,
}
use linstor_gateway.Base.Outcome.{Result, ok}
use linstor_gateway.Base.Text.{Text}
use linstor_gateway.Linstor.{Client, ResourceWithVolumes}
use linstor_gateway.Common.Wait.{wait_until, pass}

module _ {W : Type 0} (cli : Client W) (name : Text)
    (condition : List ResourceWithVolumes → Bool) where
  -- The state of the world before the look with the index.
  abbrev pub before_look : ℕ → W → W
  before_look zero w = w
  before_look (suc k) w = before_look k (cli.sleep (cli.get_resource_view name w).1)

  -- What the look with the index returns.
  abbrev pub look : ℕ → W → Result (List ResourceWithVolumes)
  look k w = (cli.get_resource_view name (before_look k w)).0

  -- A wait succeeds if one of its looks shows resources that meet the condition, and no look
  -- fails.
  pub wait_until-look :
      (left k : ℕ) (w : W) (seen : ℕ → List ResourceWithVolumes)
      → k < left
      → ((j : ℕ) → look j w ≡ ok (seen j))
      → condition (seen k) ≡ true
      → (w' : W) × (wait_until cli name condition left w ≡ (ok tt, w'))
  unfolding wait_until pass
  wait_until-look zero k w seen b o c = absurd (omega arith)
  wait_until-look (suc left) zero w seen b o c = rw (o 0, c) (_, refl)
  wait_until-look (suc left) (suc k) w seen b o c = elim (Bool-cases (condition (seen 0))) [
    | inl e ↦ rw (o 0, e) (_, refl)
    | inr e ↦
        rw (o 0, e)
          (wait_until-look left k (cli.sleep (cli.get_resource_view name w).1) (λ j. seen (suc j))
            (omega arith) (λ j. o (suc j)) c)
  ]
