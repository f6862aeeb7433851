-- ===== src/Rest/Deletion.antt =====
-- DELETE of an NVMe-oF target that is not found.
use linstor_gateway.Base.{◌≡◌, refl, ◌⊎◌, inl, inr, true, Option, none}
use linstor_gateway.Base.Outcome.{Result, Error, ok, err}
use linstor_gateway.Base.Text.{Text}
use linstor_gateway.External.{External}
use linstor_gateway.Linstor.{Client}
use linstor_gateway.Nvmeof.Nqn.{Nqn, new_nqn}
use linstor_gateway.Nvmeof.ResourceConfig.{ResourceConfig}
use linstor_gateway.Nvmeof.Service
use linstor_gateway.Rest.{Written, done, empty_body, must_error, respond, on_result, calling}
use linstor_gateway.Rest.Answers.{code_of}
use linstor_gateway.Rest.Nvmeof.{
  with_nqn, query_and_delete, delete_whole, delete_queried, queried, nvmeof_delete,
}

module _ (ext : External) {W : Type 0} (cli : Client W) where
  -- A DELETE of a whole NVMe-oF target for which Get finds nothing, or fails, is answered with 404 or
  -- 500, and yet Delete is run: where it succeeds, the cluster is left as Delete leaves it.
  pub nvmeof_delete-not_found :
      (nqn_text nsid_text : Text) (nqn : Nqn) (r : Result (Option ResourceConfig)) (w w1 w2 : W)
      → new_nqn nqn_text ≡ ok nqn
      → Service.get ext cli nqn w ≡ (r, w1)
      → ((e : Error) × (r ≡ err e)) ⊎ (r ≡ ok none)
      → Service.delete ext cli nqn w1 ≡ (ok tt, w2)
      → (out : Written ResourceConfig) × (nvmeof_delete ext cli true nqn_text nsid_text w
          ≡ (done out, w2))
        × (out.status ≡ code_of r)
  unfolding nvmeof_delete with_nqn query_and_delete delete_whole delete_queried queried on_result
      calling must_error respond
  nvmeof_delete-not_found nqn_text nsid_text nqn r w w1 w2 n g (inl (e, f)) d =
      (respond 200 empty_body (queried ext cli r), rw (n, g, f, d) refl, rw f refl)
  nvmeof_delete-not_found nqn_text nsid_text nqn r w w1 w2 n g (inr f) d =
      (respond 200 empty_body (queried ext cli r), rw (n, g, f, d) refl, rw f refl)
