-- ===== src/Cmd/Skipping.antt =====
-- Names that are not parsed do not keep a command from the others.
use linstor_gateway.Base.{
  ◌≡◌, refl, ap, ◌∙◌, Bool, true, false, List, [], ◌∷◌, ◌⊎◌, inl, inr, if◌then◌else◌,
}
use linstor_gateway.Base.Outcome.{Error, Result, ok, err, panic}
use linstor_gateway.Base.Text.{Text}
use linstor_gateway.Iscsi.Iqn.{new_iqn}
use linstor_gateway.Nvmeof.Nqn.{new_nqn}
use linstor_gateway.Iscsi.ResourceConfig as IscsiConfig
use linstor_gateway.Nvmeof.ResourceConfig as NvmeofConfig
use linstor_gateway.Restclient.{RestClient, Wire}
use linstor_gateway.Restclient.Iscsi as IscsiClient
use linstor_gateway.Restclient.Nvmeof as NvmeofClient
use linstor_gateway.Cmd.{
  CmdError, failed, panicked, Line, Command, Round, collected, each, for_each,
}
use linstor_gateway.Cmd.Iscsi
use linstor_gateway.Cmd.Nvme

abbrev is_parsed : {A : Type 0} → Result A → Bool
is_parsed (ok a) = true
is_parsed _ = false

-- The texts that are parsed.
unfoldable pub named : {K : Type 0} → (Text → Result K) → List Text → List Text
named parse [] = []
named parse (arg ∷ args) =
    let rest = named parse args in if is_parsed (parse arg) then arg ∷ rest else rest

-- A command does to the cluster, and prints, what it does for those of its names that are parsed.
abbrev pub Skips : {W K : Type 0} → (Text → Result K) → (List Text → Command W) → Type 0
Skips {W = W} parse command =
    (args : List Text) (w : W)
    → ((command args w).1 ≡ (command (named parse args) w).1)
      × ((command args w).0.0 ≡ (command (named parse args) w).0.0)

-- The round of a loop is an error that changes nothing for a text that is not parsed.
abbrev IsRefused : {W : Type 0} → (W → (CmdError ⊎ Line) × W) → Type 0
IsRefused {W = W} run = (e : CmdError) × ((w : W) → run w ≡ (inl e, w))

module _ {W K : Type 0} (parse : Text → Result K) (run : Result K → W → (CmdError ⊎ Line) × W)
    (refused : (e : Error) → IsRefused (run (err e))) (aborted : IsRefused (run panic)) where
  abbrev round : Round W
  round raw = run (parse raw)

  abbrev kept : Text → Result K → List Text → List Text
  kept arg r rest = if is_parsed r then arg ∷ rest else rest

  abbrev Same : (List Line × List CmdError) × W → (List Line × List CmdError) × W → Type 0
  Same a b = (a.1 ≡ b.1) × (a.0.0 ≡ b.0.0)

  collected_lines :
      (r : CmdError ⊎ Line) (a b : List Line × List CmdError)
      → a.0 ≡ b.0
      → (collected r a).0 ≡ (collected r b).0
  collected_lines (inl e) a b h = h
  collected_lines (inr line) a b h = ap (◌∷◌ line) h

  skipped :
      (arg : Text) (args rest : List Text) (e : CmdError) (w : W)
      → run (parse arg) w ≡ (inl e, w)
      → Same (each round args w) (each round rest w)
      → Same (each round (arg ∷ args) w) (each round rest w)
  unfolding each
  skipped arg args rest e w q h = rw q h

  after :
      (arg : Text) (r : Result K) (args rest : List Text) (w : W)
      → parse arg ≡ r
      → ((w : W) → Same (each round args w) (each round rest w))
      → Same (each round (arg ∷ args) w) (each round (kept arg r rest) w)
  unfolding each
  after arg (ok k) args rest w e ih =
      let next = ih (round arg w).1 in
      (
        next.0,
        collected_lines (round arg w).0 (each round args (round arg w).1).0
            (each round rest (round arg w).1).0 next.1,
      )
  after arg (err f) args rest w e ih =
      skipped arg args rest (refused f).0 w (ap (λ r. run r w) e ∙ (refused f).1 w) (ih w)
  after arg panic args rest w e ih =
      skipped arg args rest aborted.0 w (ap (λ r. run r w) e ∙ aborted.1 w) (ih w)

  each-named :
      (args : List Text) (w : W) → Same (each round args w) (each round (named parse args) w)
  unfolding named
  each-named [] w = (refl, refl)
  each-named (arg ∷ args) w = after arg (parse arg) args (named parse args) w refl (each-named args)

  pub for_each-Skips : Skips parse (for_each round)
  unfolding for_each
  for_each-Skips args w = each-named args w

-- start, stop and delete of several iSCSI or NVMe-oF targets do to the cluster, and print, what they do
-- for those of the names that are parsed; the others only add errors.
pub commands-Skip :
    (iscsi : Wire IscsiConfig.ResourceConfig) (nvmeof : Wire NvmeofConfig.ResourceConfig)
    {W : Type 0} (cli : RestClient W)
    → Skips new_iqn (Iscsi.start iscsi cli)
      × Skips new_iqn (Iscsi.stop iscsi cli)
      × Skips new_iqn (Iscsi.delete iscsi cli)
      × Skips new_nqn (Nvme.start nvmeof cli)
      × Skips new_nqn (Nvme.stop nvmeof cli)
      × Skips new_nqn (Nvme.delete nvmeof cli)
unfolding Iscsi.start Iscsi.stop Iscsi.delete Nvme.start Nvme.stop Nvme.delete Iscsi.on_name
    Nvme.on_name
commands-Skip iscsi nvmeof cli = (
  for_each-Skips new_iqn (Iscsi.on_name "Started target \"%s\"\n" (IscsiClient.start iscsi cli))
      (λ e. (failed e, λ w. refl)) (panicked, λ w. refl),
  for_each-Skips new_iqn (Iscsi.on_name "Stopped target \"%s\"\n" (IscsiClient.stop iscsi cli))
      (λ e. (failed e, λ w. refl)) (panicked, λ w. refl),
  for_each-Skips new_iqn (Iscsi.on_name "Deleted target \"%s\"\n" (IscsiClient.delete iscsi cli))
      (λ e. (failed e, λ w. refl)) (panicked, λ w. refl),
  for_each-Skips new_nqn (Nvme.on_name "Started target \"%s\"\n" (NvmeofClient.start nvmeof cli))
      (λ e. (failed e, λ w. refl)) (panicked, λ w. refl),
  for_each-Skips new_nqn (Nvme.on_name "Stopped target \"%s\"\n" (NvmeofClient.stop nvmeof cli))
      (λ e. (failed e, λ w. refl)) (panicked, λ w. refl),
  for_each-Skips new_nqn (Nvme.on_name "Deleted target \"%s\"\n" (NvmeofClient.delete nvmeof cli))
      (λ e. (failed e, λ w. refl)) (panicked, λ w. refl),
)
