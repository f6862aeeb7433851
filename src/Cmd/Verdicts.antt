-- ===== src/Cmd/Verdicts.antt =====
-- What the user of `nvme start` and `nvme stop` is told of the operation on the server.
use linstor_gateway.Base.{◌≡◌, refl, String, Option, none, some, List, [], ◌∷◌}
use linstor_gateway.Base.Outcome.{Error, Result, ok, err, panic}
use linstor_gateway.Base.Text.{Text}
use linstor_gateway.External.{External}
use linstor_gateway.Linstor.{Client, Call}
use linstor_gateway.Nvmeof.Nqn.{Nqn, new_nqn, nqn_string}
use linstor_gateway.Nvmeof.ResourceConfig.{ResourceConfig}
use linstor_gateway.Nvmeof.Service
use linstor_gateway.Restclient.{
  RestError, ClientError, rest_error, failed, Request, RestClient, Wire,
}
use linstor_gateway.Restclient.Served.{Tells, Reports}
use linstor_gateway.Restclient.Nvmeof
use linstor_gateway.Cmd.{
  Failure, collected, several, no_target, from_client, Line, Command, each, for_each, multi_err,
}
use linstor_gateway.Cmd.Nvme
use linstor_gateway.Cmd.Nvme.{on_name, on_error, told}

-- A line for a target, an error that names the target where there is none, and the error of the server
-- for an error; that of the connection where the server panics.
abbrev pub Says :
    {C : Type 0} → Nqn → Line → Result (Option C) → List Line × Option Failure → Type 0
Says nqn line (ok (some cfg)) out = out ≡ (line ∷ [], none)
Says nqn line (ok none) out = out ≡ ([], some (several (no_target nqn ∷ [])))
Says nqn line (err _) out =
    (e : RestError) × (out ≡ ([], some (several (from_client (rest_error e) ∷ []))))
Says nqn line panic out = (e : Error) × (out ≡ ([], some (several (from_client (failed e) ∷ []))))

-- The command for one name says what the operation returns, and leaves the state that it leaves.
abbrev pub Announces :
    {W C : Type 0} → Nqn → String → (List Text → Command W) → Text → Call W (Option C) → Type 0
Announces {W = W} nqn format command text operation =
    (w : W)
    → Says nqn (format, nqn_string nqn ∷ []) (operation w).0 (command (text ∷ []) w).0
      × ((command (text ∷ []) w).1 ≡ (operation w).1)

abbrev said : String → Nqn → Option ClientError → List Line × Option Failure
said format nqn e =
    let (lines, errors) =
      collected (on_error (format, nqn_string nqn ∷ []) (told nqn e)) ([], []) in
    (lines, multi_err errors)

said-Says :
    {C : Type 0} (format : String) (nqn : Nqn) (r : Result (Option C)) (e : Option ClientError)
    → Tells r e
    → Says nqn (format, nqn_string nqn ∷ []) r (said format nqn e)
unfolding told
said-Says format nqn (ok (some cfg)) e t = rw t refl
said-Says format nqn (ok none) e t = rw t refl
said-Says format nqn (err x) e (answer, t) = (answer, rw t refl)
said-Says format nqn panic e (lost, t) = (lost, rw t refl)

for_each-Announces :
    {W A C : Type 0} (format : String) (nqn : Nqn) (call : Nqn → Request W A)
    (operation : Call W (Option C)) (text : Text)
    → new_nqn text ≡ ok nqn
    → Reports (call nqn) operation
    → Announces nqn format (for_each (λ raw. on_name format call (new_nqn raw))) text operation
unfolding for_each each on_name
for_each-Announces format nqn call operation text n reports w =
    let (tells, state) = reports w in rw n (said-Says format nqn _ _ tells, state)

-- nvme start and nvme stop of one target, where the client reports what the operation on the server
-- returns: a line is printed for a target, the error says that there is no target of that name where
-- none is found, and it is that of the server where the operation fails.
pub commands-Announce :
    (ext : External) {W : Type 0} (server : Client W) (wire : Wire ResourceConfig)
    (cli : RestClient W) (text : Text) (nqn : Nqn)
    → new_nqn text ≡ ok nqn
    → Reports (Nvmeof.start wire cli nqn) (Service.start ext server nqn)
    → Reports (Nvmeof.stop wire cli nqn) (Service.stop ext server nqn)
    → Announces nqn "Started target \"%s\"\n"
        (Nvme.start wire cli)
        text
        (Service.start ext server nqn)
      × Announces nqn "Stopped target \"%s\"\n"
          (Nvme.stop wire cli)
          text
          (Service.stop ext server nqn)
unfolding Nvme.start Nvme.stop
commands-Announce ext server wire cli text nqn n started stopped = (
  for_each-Announces _ nqn (Nvmeof.start wire cli) _ text n started,
  for_each-Announces _ nqn (Nvmeof.stop wire cli) _ text n stopped,
)
