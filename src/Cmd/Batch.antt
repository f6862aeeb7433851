-- ===== src/Cmd/Batch.antt =====
-- The commands that take several names, and go on where one of them fails.
use linstor_gateway.Base.{
  ℕ, suc, ◌+◌, ◌<◌, ◌≡◌, refl, Option, none, some, List, [], ◌∷◌, ◌⊎◌, inl, inr, arith,
}
use linstor_gateway.Base.Lists.{length}
use linstor_gateway.Base.Text.{Text}
use linstor_gateway.Cmd.{
  CmdError, Failure, one, several, Line, Round, collected, each, multi_err, for_each,
}

-- What is printed and what failed make up the arguments: with no error there is a line for each, and
-- otherwise a collection of errors, one at least.
abbrev pub Accounts : ℕ → List Line × Option Failure → Type 0
Accounts n (lines, none) = length lines ≡ n
Accounts n (lines, some (one e)) = ⊥
Accounts n (lines, some (several errors)) = (length lines + length errors ≡ n) × (0 < length errors)

module _ {W : Type 0} (round : Round W) where
  collected_length :
      (r : CmdError ⊎ Line) (rest : List Line × List CmdError) (n : ℕ)
      → length rest.0 + length rest.1 ≡ n
      → length (collected r rest).0 + length (collected r rest).1 ≡ suc n
  collected_length (inl e) rest n h = omega (arith, h)
  collected_length (inr line) rest n h = omega (arith, h)

  each_length :
      (args : List Text) (w : W)
      → length (each round args w).0.0 + length (each round args w).0.1 ≡ length args
  unfolding each
  each_length [] w = refl
  each_length (arg ∷ args) w =
      collected_length (round arg w).0 (each round args (round arg w).1).0 (length args)
        (each_length args (round arg w).1)

  multi_err-Accounts :
      (lines : List Line) (errors : List CmdError) (n : ℕ)
      → length lines + length errors ≡ n
      → Accounts n (lines, multi_err errors)
  multi_err-Accounts lines [] n h = omega (arith, h)
  multi_err-Accounts lines (e ∷ errors) n h = (h, omega arith)

  -- A loop over names handles each of them: the lines that are printed and the errors that are
  -- collected are as many as the names, and the command fails exactly if there is an error.
  pub for_each-Accounts :
      (args : List Text) (w : W) → Accounts (length args) (for_each round args w).0
  unfolding for_each
  for_each-Accounts args w = multi_err-Accounts _ _ (length args) (each_length args w)
