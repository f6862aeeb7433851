-- ===== src/Linstor/Exec.antt =====
-- Sequences of calls. What a call has changed stays changed when a later one fails, so the state
-- comes back beside an error too.
pub mod Laws
use linstor_gateway.Base.{String, List, [], ◌∷◌}
use linstor_gateway.Base.Outcome.{Result, ok, err, panic, wrapping, message}
use linstor_gateway.Linstor.{Call}

abbrev replaced : {A : Type 0} → String → Result A → Result A
replaced s (ok a) = ok a
replaced s (err e) = err (message s)
replaced s panic = panic

module _ {W A : Type 0} where
  abbrev pub pure : A → Call W A
  pure a w = (ok a, w)

  abbrev pub lift : Result A → Call W A
  lift r w = (r, w)

  abbrev pub fail_with : String → Call W A
  fail_with s w = (err (message s), w)

  -- `if err != nil { return fmt.Errorf("...: %w", err) }`
  abbrev pub context : String → Call W A → Call W A
  context s m w = let (r, w') = m w in (wrapping s r, w')

  -- `if err != nil { return errors.New("...") }`
  abbrev pub replacing : String → Call W A → Call W A
  replacing s m w = let (r, w') = m w in (replaced s r, w')

module _ {W A B : Type 0} where
  abbrev pub continue : Result A → (A → Call W B) → Call W B
  continue (ok a) f w = f a w
  continue (err e) f w = (err e, w)
  continue panic f w = (panic, w)

  infixl 5 ◌>>=◌ ◌>>◌
  abbrev pub ◌>>=◌ : Call W A → (A → Call W B) → Call W B
  ◌>>=◌ m f w = let (r, w') = m w in continue r f w'

  abbrev pub ◌>>◌ : Call W A → Call W B → Call W B
  m >> k = m >>= λ _. k

-- A loop whose body may return an error.
abbrev pub for_each : {W A : Type 0} → (A → Call W Unit) → List A → Call W Unit
for_each f [] w = (ok tt, w)
for_each f (x ∷ xs) w = (f x >> for_each f xs) w
