-- ===== src/Cmd/Nvme.antt =====
-- cmd/nvme.go: the commands for NVMe-oF targets.
use linstor_gateway.Base.{Bool, String, Option, none, some, List, [], ◌∷◌, ◌⊎◌, inl, inr}
use linstor_gateway.Base.Outcome.{Result, ok, err, panic, message}
use linstor_gateway.Base.Int.{ℤ}
use linstor_gateway.Base.Text.{Text}
use linstor_gateway.Base.Decimal.{atoi, itoa}
use linstor_gateway.External.{External}
use linstor_gateway.Common.Ip.{service_ip_from_string, cidr_string}
use linstor_gateway.Common.Status.{zero_status}
use linstor_gateway.Common.Volume.{VolumeConfig}
use linstor_gateway.Nvmeof.Nqn.{Nqn, new_nqn, nqn_string}
use linstor_gateway.Nvmeof.ResourceConfig.{ResourceConfig}
use linstor_gateway.Restclient.{Request, RestClient, Wire, ClientError, not_found_error, Returned}
use linstor_gateway.Restclient.Nvmeof
use linstor_gateway.Cmd.{
  CmdError, failed, panicked, from_client, no_target, Line, Command, parsing, ◌>>=◌, ending,
  with_arguments, for_each, Units, volumes_from, volume_of, size_of,
}
use linstor_gateway.Cmd.Table.{Table, target_rows}

-- `if err == client.NotFoundError { ... noTarget(nqn) ... }`, and `if err != nil`
unfoldable pub told : Nqn → Option ClientError → Option CmdError
told nqn none = none
told nqn (some not_found_error) = some (no_target nqn)
told nqn (some e) = some (from_client e)

-- The error of `create`, which has no case for one that is missing.
abbrev created_told : Option ClientError → Option CmdError
created_told none = none
created_told (some e) = some (from_client e)

abbrev pub on_error : Line → Option CmdError → CmdError ⊎ Line
on_error line none = inr line
on_error line (some e) = inl e

-- The body of the loops over names: a name that is not parsed is an error, and any other is handed to
-- the client.
unfoldable pub on_name :
    {W A : Type 0} → String → (Nqn → Request W A) → Result Nqn → W → (CmdError ⊎ Line) × W
unfolding told
on_name format call (ok nqn) w =
    let ((_, e), w') = call nqn w in (on_error (format, nqn_string nqn ∷ []) (told nqn e), w')
on_name format call (err e) w = (inl (failed e), w)
on_name format call panic w = (inl panicked, w)

-- `strconv.Atoi`
abbrev read_number : Text → CmdError ⊎ ℤ
read_number text = elim (atoi text) [
  | none ↦ inl (failed (message "strconv.Atoi: parsing %q"))
  | some n ↦ inr n
]

module _ (wire : Wire ResourceConfig) {W : Type 0} (cli : RestClient W) where
  -- `startNVMECommand`
  unfoldable pub start : List Text → Command W
  unfolding for_each
  start = for_each (λ raw. on_name "Started target \"%s\"\n" (Nvmeof.start wire cli) (new_nqn raw))

  -- `stopNVMECommand`
  unfoldable pub stop : List Text → Command W
  unfolding for_each
  stop = for_each (λ raw. on_name "Stopped target \"%s\"\n" (Nvmeof.stop wire cli) (new_nqn raw))

  -- `deleteNVMECommand`
  unfoldable pub delete : List Text → Command W
  unfolding for_each
  delete =
      for_each (λ raw. on_name "Deleted target \"%s\"\n" (Nvmeof.delete wire cli) (new_nqn raw))

abbrev number_arguments : Text → Text → CmdError ⊎ Nqn × ℤ
number_arguments nqn_text number_text = do
  nqn ← parsing (new_nqn nqn_text)
  number ← read_number number_text
  inr (nqn, number)

module _ (ext : External) where
  unfoldable pub table_of : List ResourceConfig → Table
  table_of [] = ([], 0)
  table_of (cfg ∷ cfgs) =
      target_rows (nqn_string cfg.nqn) (cidr_string ext cfg.service_ip) cfg.status (table_of cfgs)

  abbrev tabled : Returned (List ResourceConfig) → CmdError ⊎ Table
  tabled (cfgs, none) = inr (table_of cfgs)
  tabled (cfgs, some e) = inl (from_client e)

module _ (units : Units) where
  abbrev volume_arguments : Text → Text → Text → CmdError ⊎ Nqn × VolumeConfig
  volume_arguments nqn_text number_text size_text = do
    nqn ← parsing (new_nqn nqn_text)
    number ← read_number number_text
    size ← size_of units size_text
    inr (nqn, volume_of number size)

module _ (ext : External) (units : Units) where
  unfoldable pub create_config : Text → Bool → Text → Text → List Text → CmdError ⊎ ResourceConfig
  create_config resource_group gross_size nqn_text ip sizes = do
    nqn ← parsing (new_nqn nqn_text)
    service_ip ← parsing (service_ip_from_string ext ip)
    volumes ← volumes_from units 0 sizes
    inr (record {
      nqn = nqn;
      service_ip = service_ip;
      resource_group = resource_group;
      volumes = volumes;
      status = zero_status;
      gross_size = gross_size;
    })

module _ (ext : External) (units : Units) (wire : Wire ResourceConfig) {W : Type 0}
    (cli : RestClient W) where
  -- `createNVMECommand`
  unfoldable pub create : Text → Bool → Text → Text → List Text → Command W
  unfolding create_config
  create resource_group gross_size nqn_text ip sizes =
      with_arguments (create_config ext units resource_group gross_size nqn_text ip sizes) (λ cfg w.
        let ((_, e), w') = Nvmeof.create wire cli cfg w in
        (ending ("Created target \"%s\"\n", nqn_string cfg.nqn ∷ []) (created_told e), w'))

  -- `addVolumeNVMECommand`
  unfoldable pub add_volume : Text → Text → Text → Command W
  add_volume nqn_text number_text size_text =
      with_arguments (volume_arguments units nqn_text number_text size_text) (λ args w.
        let (nqn, volume) = args in
        let ((_, e), w') = Nvmeof.add_volume wire cli nqn volume w in
        (ending ("Added volume to \"%s\"\n", nqn_string nqn ∷ []) (told nqn e), w'))

  -- `deleteVolumeNVMECommand`
  unfoldable pub delete_volume : Text → Text → Command W
  delete_volume nqn_text number_text =
      with_arguments (number_arguments nqn_text number_text) (λ args w.
        let (nqn, number) = args in
        let ((_, e), w') = Nvmeof.delete_volume wire cli nqn number w in
        (
          ending ("Deleted volume %d of \"%s\"\n", itoa number ∷ nqn_string nqn ∷ []) (told nqn e),
          w',
        ))

  -- `listNVMECommand`, up to the warning where something is degraded
  unfoldable pub list : W → (CmdError ⊎ Table) × W
  unfolding table_of
  list w = let (returned, w') = Nvmeof.get_all wire cli w in (tabled ext returned, w')
