-- ===== src/Linstor/Exec/Laws.antt =====
-- Sequences of calls: those that change nothing, and what a success says of the calls in it.
use linstor_gateway.Base.{◌≡◌, refl, ap, ◌∙◌, String}
use linstor_gateway.Base.Outcome.{Result, ok, err, panic, wrapping}
use linstor_gateway.Base.Text.{Text}
use linstor_gateway.Linstor.{Call, Client}
use linstor_gateway.Linstor.Exec.{continue}

-- The call leaves the state of the world as it is.
abbrev pub Keeps : {W A : Type 0} → Call W A → Type 0
Keeps {W = W} m = (w : W) → (m w).1 ≡ w

-- The calls of the client that read change nothing.
pub record ReadsOnly {W : Type 0} (cli : Client W) : Type 0 where
  pub files : Keeps cli.get_external_files
  pub definition : (name : Text) → Keeps (cli.get_resource_definition name)
  pub group : (name : Text) → Keeps (cli.get_resource_group name)
  pub volumes : (name : Text) → Keeps (cli.get_volume_definitions name)
  pub view : (name : Text) → Keeps (cli.get_resource_view name)

module _ {W A B : Type 0} where
  -- A call that keeps the state, and what follows it.
  pub continue-Keeps :
      (r : Result A) (f : A → Call W B) (w1 w : W)
      → w1 ≡ w
      → ((a : A) → Keeps (f a))
      → (continue r f w1).1 ≡ w
  continue-Keeps (ok a) f w1 w e h = h a w1 ∙ e
  continue-Keeps (err x) f w1 w e h = e
  continue-Keeps panic f w1 w e h = e

  -- A sequence that gives a result has got past its first call.
  pub continue-ok :
      (r : Result A) (f : A → Call W B) (w : W) (b : B) (w' : W)
      → continue r f w ≡ (ok b, w')
      → (a : A) × (r ≡ ok a) × (f a w ≡ (ok b, w'))
  continue-ok (ok a) f w b w' h = (a, refl, h)
  continue-ok (err e) f w b w' h = cc
  continue-ok panic f w b w' h = cc

pub wrapping-ok : {A : Type 0} (s : String) (r : Result A) (a : A) → wrapping s r ≡ ok a → r ≡ ok a
wrapping-ok s (ok x) a h = h
wrapping-ok s (err e) a h = cc
wrapping-ok s panic a h = cc

-- The call with its result put in.
pub with_result :
    {W A : Type 0} (m : Call W A) (w : W) (a : A) → (m w).0 ≡ ok a → m w ≡ (ok a, (m w).1)
with_result {A = A} m w a h = ap (λ (r : Result A). (r, (m w).1)) h
