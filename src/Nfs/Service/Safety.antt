-- ===== src/Nfs/Service/Safety.antt =====
-- What must hold before an export is created.
use linstor_gateway.Base.{
  ◌≡◌, ◌⊎◌, inl, inr, Bool, true, false, List, [], ◌∷◌, if◌then◌else◌, Bool-cases, String, refl,
  arith,
}
use linstor_gateway.Base.Outcome.{ok}
use linstor_gateway.Base.Text.{Text, eq, eq_iff}
use linstor_gateway.External.{External}
use linstor_gateway.Linstor.{Client, Call}
use linstor_gateway.Linstor.Exec.{fail_with}
use linstor_gateway.Linstor.Exec.Laws.{continue-ok, wrapping-ok, with_result}
use linstor_gateway.Reactor.Config.{PromoterConfig}
use linstor_gateway.Reactor.Files.{Listing}
use linstor_gateway.Reactor.Store.{list_configs}
use linstor_gateway.Target.Service.{prepared}
use linstor_gateway.Nfs.ResourceConfig.{ResourceConfig, valid}
use linstor_gateway.Nfs.ResourceConfig.Laws.{IsValid, valid-IsValid}
use linstor_gateway.Nfs.Promoter.{id_of}
use linstor_gateway.Nfs.Service.{has_server, other_server, create, exports}

-- Each configuration has the id or runs no NFS server.
abbrev pub IsOnlyServer : Text → List PromoterConfig → Type 0
IsOnlyServer id [] = Unit
IsOnlyServer id (c ∷ cs) = ((c.id ≡ id) ⊎ (has_server c ≡ false)) × IsOnlyServer id cs

other_server-IsOnlyServer :
    (id : Text) (cs : List PromoterConfig) → other_server id cs ≡ false → IsOnlyServer id cs
unfolding other_server
other_server-IsOnlyServer id [] h = tt
other_server-IsOnlyServer id (c ∷ cs) h = elim (Bool-cases (eq c.id id)) [
  | inl e ↦ (inl ((eq_iff c.id id).0 e), other_server-IsOnlyServer id cs (ground arith))
  | inr e ↦ (inr (ground arith), other_server-IsOnlyServer id cs (ground arith))
]

no_failure :
    {W A : Type 0} (b : Bool) (s : String) (m : Call W A) (w w' : W) (a : A)
    → (if b then fail_with s else m) w ≡ (ok a, w')
    → b ≡ false
no_failure true s m w w' a h = absurd (ground arith)
no_failure false s m w w' a h = refl

module _ (ext : External) {W : Type 0} (cli : Client W) where
  -- If `Create` of an export succeeds, then the export, with its defaults and its cluster private
  -- volume, is valid, and of the configurations that LINSTOR listed at first none but its own runs an
  -- NFS server.
  pub create-IsOnlyServer :
      (rsc created : ResourceConfig) (w w' : W)
      → create ext cli rsc w ≡ (ok created, w')
      → (r : ResourceConfig) × (listed : Listing) × (w1 : W) × (r
          ≡ (valid (prepared (exports ext cli) ext cli rsc)).1)
        × IsValid (prepared (exports ext cli) ext cli rsc).volumes r
        × (list_configs cli ext w ≡ (ok listed, w1))
        × IsOnlyServer (id_of r.name) listed.0
  unfolding create
  create-IsOnlyServer rsc created w w' h =
      let r = prepared (exports ext cli) ext cli rsc in
      let list = list_configs cli ext in
      let (x, checked, rest) = continue-ok _ _ w created w' h in
      let (listed, got, last) = continue-ok _ _ (list w).1 created w' rest in
      let none =
        no_failure (other_server (id_of (valid r).1.name) listed.0) _ _ (list w).1 w' created
          last in
      (
        (valid r).1,
        listed,
        (list w).1,
        refl,
        valid-IsValid r (wrapping-ok _ _ x checked),
        with_result list w listed (wrapping-ok _ _ listed got),
        other_server-IsOnlyServer (id_of (valid r).1.name) listed.0 none,
      )
