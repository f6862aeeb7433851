-- ===== src/Cmd.antt =====
-- cmd: what the commands of linstor-gateway share. A command prints lines, each a format string with
-- the texts of its values, and returns an error or nil; package cobra has checked the number of its
-- arguments.
pub mod BaseUrl
pub mod Table
pub mod Iscsi
pub mod Nvme
pub mod Nfs
pub mod Batch
pub mod Skipping
pub mod Sizes
pub mod Verdicts
pub mod Creation
use linstor_gateway.Base.{
  ℕ, suc, ◌+◌, ◌-◌, ◌/◌, ◌%◌, ◌^◌, String, Option, none, some, List, [], ◌∷◌, ◌++◌, ◌⊎◌, inl, inr,
}
use linstor_gateway.Base.Int.{ℤ, pos, negsuc}
use linstor_gateway.Base.Lists.{length}
use linstor_gateway.Base.Outcome.{Error, Result, ok, err, panic}
use linstor_gateway.Base.Text.{Text, codes}
use linstor_gateway.Base.Decimal.{itoa}
use linstor_gateway.Common.Volume.{VolumeConfig, root}
use linstor_gateway.Nvmeof.Nqn.{Nqn}
use linstor_gateway.Restclient.{ClientError}

-- An error of a function that parses an argument, of the client, or `noTarget`. The functions that
-- parse do not panic, although their type here has room for it.
pub data CmdError : Type 0 where
  failed : Error → CmdError
  wrapped : String → CmdError → CmdError
  from_client : ClientError → CmdError
  no_target : Nqn → CmdError
  panicked : CmdError

-- What a command returns: one error, or a `multiError`.
pub data Failure : Type 0 where
  one : CmdError → Failure
  several : List CmdError → Failure

abbrev pub Line : Type 0
Line = String × List Text

abbrev pub Command : Type 0 → Type 0
Command W = W → (List Line × Option Failure) × W

abbrev pub parsing : {A : Type 0} → Result A → CmdError ⊎ A
parsing (ok a) = inr a
parsing (err e) = inl (failed e)
parsing panic = inl panicked

-- `if err != nil { return fmt.Errorf("...: %w", err) }`
abbrev pub wrapping : {A : Type 0} → String → CmdError ⊎ A → CmdError ⊎ A
wrapping format (inl e) = inl (wrapped format e)
wrapping format (inr a) = inr a

infixl 5 ◌>>=◌
abbrev pub ◌>>=◌ : {A B : Type 0} → CmdError ⊎ A → (A → CmdError ⊎ B) → CmdError ⊎ B
inl e >>= f = inl e
inr a >>= f = f a

-- One round of a loop over the arguments: the error that is collected, or the line printed.
abbrev pub Round : Type 0 → Type 0
Round W = Text → W → (CmdError ⊎ Line) × W

-- The end of a command: it has failed, or it prints a line.
abbrev pub ending : Line → Option CmdError → List Line × Option Failure
ending line none = (line ∷ [], none)
ending line (some e) = ([], some (one e))

abbrev pub collected : CmdError ⊎ Line → List Line × List CmdError → List Line × List CmdError
collected (inl e) (lines, errors) = (lines, e ∷ errors)
collected (inr line) (lines, errors) = (line ∷ lines, errors)

module _ {W : Type 0} where
  -- `if err != nil { return err }` after the arguments are parsed.
  unfoldable pub with_arguments : {A : Type 0} → CmdError ⊎ A → (A → Command W) → Command W
  with_arguments (inl e) run w = (([], some (one e)), w)
  with_arguments (inr a) run w = run a w

  unfoldable pub each : Round W → List Text → W → (List Line × List CmdError) × W
  each round [] w = (([], []), w)
  each round (arg ∷ args) w =
      let (r, w') = round arg w in let (rest, w'') = each round args w' in (collected r rest, w'')

-- `multiError.Err`
abbrev pub multi_err : List CmdError → Option Failure
multi_err [] = none
multi_err (e ∷ errors) = some (several (e ∷ errors))

abbrev join_with : Text → List Text → Text
join_with sep [] = []
join_with sep (t ∷ []) = t
join_with sep (t ∷ u ∷ ts) = t ++ (sep ++ join_with sep (u ∷ ts))

abbrev pub comma_separated : List Text → Text
comma_separated = join_with (codes ", ")

-- `multiError.Error`, from the texts of the errors
unfoldable pub multi_error_text : List Text → Text
multi_error_text [] = codes "<none>"
multi_error_text (m ∷ []) = m
multi_error_text (m ∷ n ∷ ms) =
    itoa (pos (length (m ∷ n ∷ ms)))
    ++ (codes " errors: [" ++ (comma_separated (m ∷ n ∷ ms) ++ codes "]"))

-- A loop over the arguments, and `return allErrs.Err()`.
unfoldable pub for_each : {W : Type 0} → Round W → List Text → Command W
unfolding each
for_each round args w =
    let ((lines, errors), w') = each round args w in ((lines, multi_err errors), w')

-- Package unit: `MustNewUnit(DefaultUnits).ValueFromString`, by the `Value` of the result, and the
-- constant `K`.
pub record Units : Type 0 where
  pub value_from_string : Text → Error ⊎ ℤ
  pub k : ℕ

-- `uint64(val.Value / unit.K)`
unfoldable pub size_kib : ℕ → ℤ → ℕ
size_kib k (pos n) = n / k
size_kib k (negsuc n) = (2 ^ 64 - suc n / k) % 2 ^ 64

abbrev pub volume_of : ℤ → ℕ → VolumeConfig
volume_of number size = record {
  number = number;
  size_kib = size;
  file_system = [];
  file_system_root_owner = root;
}

-- One round of the loop over the volume sizes: an error ends it.
unfoldable pub with_volume :
    ℕ → CmdError ⊎ ℕ → CmdError ⊎ List VolumeConfig → CmdError ⊎ List VolumeConfig
with_volume i (inl e) rest = inl e
with_volume i (inr size) (inl e) = inl e
with_volume i (inr size) (inr vols) = inr (volume_of (pos (suc i)) size ∷ vols)

module _ (units : Units) where
  abbrev pub size_of : Text → CmdError ⊎ ℕ
  size_of raw = elim (units.value_from_string raw) [
    | inl e ↦ inl (failed e)
    | inr value ↦ inr (size_kib units.k value)
  ]

  -- The loop over the volume sizes, of which the next has index i.
  unfoldable pub volumes_from : ℕ → List Text → CmdError ⊎ List VolumeConfig
  unfolding size_kib with_volume
  volumes_from i [] = inr []
  volumes_from i (raw ∷ raws) = with_volume i (size_of raw) (volumes_from (suc i) raws)
