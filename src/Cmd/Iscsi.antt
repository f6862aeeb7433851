-- ===== src/Cmd/Iscsi.antt =====
-- cmd/iscsi.go: the commands for iSCSI targets.
use linstor_gateway.Base.{Bool, String, Option, none, some, List, [], ◌∷◌, map, ◌⊎◌, inl, inr}
use linstor_gateway.Base.Outcome.{Result, ok, err, panic, message}
use linstor_gateway.Base.Int.{ℤ}
use linstor_gateway.Base.Text.{Text, split}
use linstor_gateway.Base.Decimal.{atoi, itoa}
use linstor_gateway.External.{External}
use linstor_gateway.Common.Ip.{IpCidr, service_ip_from_string, cidr_string}
use linstor_gateway.Common.Status.{zero_status}
use linstor_gateway.Common.Volume.{VolumeConfig}
use linstor_gateway.Iscsi.Iqn.{Iqn, new_iqn, iqn_string}
use linstor_gateway.Iscsi.ResourceConfig.{ResourceConfig}
use linstor_gateway.Restclient.{Request, RestClient, Wire, ClientError, Returned}
use linstor_gateway.Restclient.Iscsi
use linstor_gateway.Cmd.{
  CmdError, failed, panicked, from_client, Line, Command, parsing, wrapping, ◌>>=◌, ending,
  with_arguments, for_each, Units, volumes_from, volume_of, size_of, comma_separated,
}
use linstor_gateway.Cmd.Table.{Table, target_rows}

abbrev pub told : Option ClientError → Option CmdError
told none = none
told (some e) = some (from_client e)

abbrev on_error : Line → Option CmdError → CmdError ⊎ Line
on_error line none = inr line
on_error line (some e) = inl e

-- The body of the loops over names: a name that is not parsed is an error, and any other is handed to
-- the client.
unfoldable pub on_name :
    {W A : Type 0} → String → (Iqn → Request W A) → Result Iqn → W → (CmdError ⊎ Line) × W
on_name format call (ok iqn) w =
    let ((_, e), w') = call iqn w in (on_error (format, iqn_string iqn ∷ []) (told e), w')
on_name format call (err e) w = (inl (failed e), w)
on_name format call panic w = (inl panicked, w)

-- `strconv.Atoi`
abbrev read_number : Text → CmdError ⊎ ℤ
read_number text = elim (atoi text) [
  | none ↦ inl (failed (message "strconv.Atoi: parsing %q"))
  | some n ↦ inr n
]

-- The loop over the allowed initiators, in which one that is not parsed is ignored.
abbrev keep : Result Iqn → List Iqn → List Iqn
keep (ok iqn) rest = iqn ∷ rest
keep _ rest = rest

unfoldable pub allowed_from : List Text → List Iqn
allowed_from [] = []
allowed_from (text ∷ texts) = keep (new_iqn text) (allowed_from texts)

-- The flags of `create`.
pub record CreateFlags : Type 0 where
  pub username : Text
  pub password : Text
  pub group : Text
  pub allowed_initiators : List Text
  pub gross_size : Bool

module _ (wire : Wire ResourceConfig) {W : Type 0} (cli : RestClient W) where
  -- `startISCSICommand`
  unfoldable pub start : List Text → Command W
  unfolding for_each
  start = for_each (λ raw. on_name "Started target \"%s\"\n" (Iscsi.start wire cli) (new_iqn raw))

  -- `stopISCSICommand`
  unfoldable pub stop : List Text → Command W
  unfolding for_each
  stop = for_each (λ raw. on_name "Stopped target \"%s\"\n" (Iscsi.stop wire cli) (new_iqn raw))

  -- `deleteISCSICommand`
  unfoldable pub delete : List Text → Command W
  unfolding for_each
  delete = for_each (λ raw. on_name "Deleted target \"%s\"\n" (Iscsi.delete wire cli) (new_iqn raw))

abbrev number_arguments : Text → Text → CmdError ⊎ Iqn × ℤ
number_arguments iqn_text number_text = do
  iqn ← parsing (new_iqn iqn_text)
  number ← read_number number_text
  inr (iqn, number)

module _ (ext : External) where
  -- The loop over the service IPs.
  unfoldable pub service_ips_from : List Text → CmdError ⊎ List IpCidr
  service_ips_from [] = inr []
  service_ips_from (text ∷ texts) = do
    ip ← wrapping "invalid service IP '%s': %w" (parsing (service_ip_from_string ext text))
    rest ← service_ips_from texts
    inr (ip ∷ rest)

  unfoldable pub table_of : List ResourceConfig → Table
  table_of [] = ([], 0)
  table_of (cfg ∷ cfgs) =
      target_rows (iqn_string cfg.iqn) (comma_separated (map (cidr_string ext) cfg.service_ips))
        cfg.status (table_of cfgs)

  abbrev tabled : Returned (List ResourceConfig) → CmdError ⊎ Table
  tabled (cfgs, none) = inr (table_of cfgs)
  tabled (cfgs, some e) = inl (from_client e)

module _ (units : Units) where
  abbrev volume_arguments : Text → Text → Text → CmdError ⊎ Iqn × VolumeConfig
  volume_arguments iqn_text number_text size_text = do
    iqn ← parsing (new_iqn iqn_text)
    number ← read_number number_text
    size ← size_of units size_text
    inr (iqn, volume_of number size)

module _ (ext : External) (units : Units) where
  unfoldable pub create_config : CreateFlags → Text → Text → List Text → CmdError ⊎ ResourceConfig
  unfolding service_ips_from
  create_config flags iqn_text ips sizes = do
    iqn ← wrapping "invalid IQN '%s': %w" (parsing (new_iqn iqn_text))
    service_ips ← service_ips_from ext (split b',' ips)
    volumes ← volumes_from units 0 sizes
    inr (record {
      iqn = iqn;
      username = flags.username;
      password = flags.password;
      service_ips = service_ips;
      volumes = volumes;
      allowed_initiators = allowed_from flags.allowed_initiators;
      resource_group = flags.group;
      status = zero_status;
      gross_size = flags.gross_size;
    })

module _ (ext : External) (units : Units) (wire : Wire ResourceConfig) {W : Type 0}
    (cli : RestClient W) where
  -- `createISCSICommand`
  unfoldable pub create : CreateFlags → Text → Text → List Text → Command W
  unfolding create_config
  create flags iqn_text ips sizes =
      with_arguments (create_config ext units flags iqn_text ips sizes) (λ cfg w.
        let ((_, e), w') = Iscsi.create wire cli cfg w in
        (ending ("Created iSCSI target '%s'\n", iqn_string cfg.iqn ∷ []) (told e), w'))

  -- `addVolumeISCSICommand`
  unfoldable pub add_volume : Text → Text → Text → Command W
  add_volume iqn_text number_text size_text =
      with_arguments (volume_arguments units iqn_text number_text size_text) (λ args w.
        let (iqn, volume) = args in
        let ((_, e), w') = Iscsi.add_logical_unit wire cli iqn volume w in
        (ending ("Added volume to \"%s\"\n", iqn_string iqn ∷ []) (told e), w'))

  -- `deleteVolumeISCSICommand`
  unfoldable pub delete_volume : Text → Text → Command W
  delete_volume iqn_text number_text =
      with_arguments (number_arguments iqn_text number_text) (λ args w.
        let (iqn, number) = args in
        let ((_, e), w') = Iscsi.delete_logical_unit wire cli iqn number w in
        (ending ("Deleted volume %d of \"%s\"\n", itoa number ∷ iqn_string iqn ∷ []) (told e), w'))

  -- `listISCSICommand`, up to the warning where something is degraded
  unfoldable pub list : W → (CmdError ⊎ Table) × W
  unfolding table_of
  list w = let (returned, w') = Iscsi.get_all wire cli w in (tabled ext returned, w')
